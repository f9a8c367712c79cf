-- ===== src/Api/WaitingRoom.antt =====
-- src/arena_onsale/waiting_room/router.py with waiting_room/schemas.py: the routes of the waiting room,
-- which need no admission.
pub mod Known
use arena_onsale.Prelude.{ℕ, String, Bool, true, false, Option, none, some, if◌then◌else◌}
use arena_onsale.Settings.{Settings}
use arena_onsale.WaitingRoom.Store.{WaitingRoomStore}
use arena_onsale.WaitingRoom.Service.{
  Standing, admitted, queued, unknown, Status, Stats, join, status, stats,
}
use arena_onsale.Api.{text, unprocessable, Reply, replied, refused}
use arena_onsale.Api.Schemas.{fits_field}

pub record WaitingRoomResponse : Type 0 where
  pub state : String
  pub visitor_id : String
  pub token : Option String
  pub expires_at : Option ℕ
  pub position : Option ℕ
  pub estimated_wait_seconds : Option ℕ
  pub in_queue : ℕ
  pub in_shop : ℕ

-- the dictionary of a state, with the fields that it does not set
abbrev pub shown : Standing → Status → WaitingRoomResponse
shown (admitted token until) x = record {
  state = "admitted";
  visitor_id = x.visitor_id;
  token = some token;
  expires_at = some until;
  position = none;
  estimated_wait_seconds = none;
  in_queue = x.in_queue;
  in_shop = x.in_shop;
}
shown (queued position wait) x = record {
  state = "queued";
  visitor_id = x.visitor_id;
  token = none;
  expires_at = none;
  position = some position;
  estimated_wait_seconds = some wait;
  in_queue = x.in_queue;
  in_shop = x.in_shop;
}
shown unknown x = record {
  state = "unknown";
  visitor_id = x.visitor_id;
  token = none;
  expires_at = none;
  position = none;
  estimated_wait_seconds = none;
  in_queue = x.in_queue;
  in_shop = x.in_shop;
}

-- `snapshot["state"] == "unknown"`
abbrev pub known_or_missing : Standing → Status → Reply WaitingRoomResponse
known_or_missing unknown x = refused 404 (text "visitor is not in the waiting room")
known_or_missing st x = replied 200 (shown st x)

module _ (rooms : WaitingRoomStore) (cfg : Settings) where
  open rooms use {State}

  abbrev pub joined_or_bad : Option (Status × State) → State → Reply WaitingRoomResponse × State
  joined_or_bad none s = (refused 400 (text "visitor_id is required"), s)
  joined_or_bad (some (x, s')) s = (replied 200 (shown x.state x), s')

  -- POST /waiting-room/join, the body being the visitor's name
  unfoldable pub join_route : (ℕ → String) → ℕ → String → State → Reply WaitingRoomResponse × State
  join_route new_token now visitor_id s =
      if fits_field visitor_id
      then joined_or_bad (join rooms cfg new_token now visitor_id s) s
      else (refused 422 unprocessable, s)

  -- GET /waiting-room/status/{visitor_id}
  unfoldable pub status_route : ℕ → String → State → Reply WaitingRoomResponse × State
  status_route now visitor_id s =
      let (x, s') = status rooms cfg now visitor_id s in (known_or_missing x.state x, s')

  -- GET /waiting-room/stats
  unfoldable pub stats_route : ℕ → State → Reply Stats × State
  stats_route now s = let (x, s') = stats rooms cfg now s in (replied 200 x, s')
