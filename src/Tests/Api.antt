-- ===== src/Tests/Api.antt =====
-- The HTTP routes at concrete inputs.
use arena_onsale.Prelude.{◌≡◌, refl, String, true, not, ◌&&◌, Option, none, some, is_none, [], ◌∷◌}
use arena_onsale.Prelude.Text.{strip}
use arena_onsale.Settings.{default_settings}
use arena_onsale.Tables.{Db}
use arena_onsale.WaitingRoom.Memory.{memory_store, gc_shoppers, visitor_for_token}
use arena_onsale.WaitingRoom.Service.{visitor_of}
use arena_onsale.Admission.{visitor, require_admission}
use arena_onsale.Inventory.Locking.{acquire_all}
use arena_onsale.Inventory.Locking.RedisGate.{redis_gate, acquire}
use arena_onsale.Inventory.Holds.{reserve, new_hold}
use arena_onsale.Api.{replied, admitted}
use arena_onsale.Api.Schemas.{CreateHoldRequest, hold_fits, fits_field}
use arena_onsale.Api.Holds.{HoldResponse, post_hold, create_hold, get_hold, answer_hold, show_hold}
use arena_onsale.Api.Holds.Answers.{Booked, Untouched, post_hold-refused, post_hold-Booked}
use arena_onsale.Api.Holds.Again.{create_hold-create_hold, get_hold-create_hold}
use arena_onsale.Tests.Data.{seat_db}
use arena_onsale.Tests.Room.{room}

abbrev calm : Db → Db
calm db = db

abbrev body : CreateHoldRequest
body = record { session_id = "rahul"; seat_ids = 3 ∷ [] }

abbrev key : Option String
key = some "hold-2"

abbrev shown : HoldResponse
shown = record {
  id = 60;
  match_id = 1;
  status = "ACTIVE";
  expires_at = 600_000_005;
  seats = record { id = 3; section = "101"; row = "A"; number = "3" } ∷ [];
}

post_hold-Booked_example :
    (v : String) × ((require_admission memory_store 5 (some "t0") room).0 ≡ visitor v)
    × (hold_fits body && not (is_none key) ≡ true)
    × Booked redis_gate calm default_settings 1 body 60 5 [] seat_db "hold-2" shown
        (post_hold redis_gate memory_store calm default_settings
          (some "t0")
          1
          body
          key
          60
          5
          room
          []
          seat_db).2
unfolding post_hold create_hold answer_hold show_hold admitted reserve new_hold acquire_all acquire
    require_admission visitor_of visitor_for_token gc_shoppers strip fits_field
post_hold-Booked_example =
    post_hold-Booked redis_gate calm default_settings 1 body 60 5 [] seat_db memory_store
      (some "t0") key room shown (refl, (refl, (refl, tt))) refl

post_hold-refused_example :
    Untouched redis_gate calm [] seat_db
      (post_hold redis_gate memory_store calm default_settings none 1 body key 60 5 room []
        seat_db).2
unfolding post_hold admitted require_admission
post_hold-refused_example =
    post_hold-refused redis_gate calm default_settings 1 body 60 5 [] seat_db memory_store none key
      room refl

create_hold-create_hold_example :
    let db' = (create_hold redis_gate calm default_settings 1 body "hold-2" 60 5 [] seat_db).1.1 in
    create_hold redis_gate calm default_settings 1 body "hold-2" 61 6 [] db'
    ≡ (replied 200 shown, ([], db'))
unfolding create_hold answer_hold show_hold reserve new_hold acquire_all acquire strip
create_hold-create_hold_example =
    create_hold-create_hold redis_gate calm default_settings 1 body "hold-2" 60 5 [] seat_db calm 61
      6 [] shown refl

get_hold-create_hold_example :
    get_hold 60 (create_hold redis_gate calm default_settings 1 body "hold-2" 60 5 [] seat_db).1.1
    ≡ replied 200 shown
unfolding create_hold answer_hold show_hold reserve new_hold acquire_all acquire strip
get_hold-create_hold_example =
    get_hold-create_hold redis_gate calm default_settings 1 body "hold-2" 60 5 [] seat_db shown refl
