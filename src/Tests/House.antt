-- ===== src/Tests/House.antt =====
-- The catalog, the load tool and the worker at concrete inputs.
use arena_onsale.Prelude.{ℕ, ◌+◌, ◌≡◌, refl, String, false, some, List, [], ◌∷◌, arith, length, map}
use Prim.Native.Char.{code}
use arena_onsale.Prelude.{◌≤◌, Bool-cases, ap, inl, inr}
use arena_onsale.Prelude.Text.{str_eq, eq_iff}
use arena_onsale.Prelude.Query.{select}
use arena_onsale.Settings.{default_settings}
use arena_onsale.Tables.{Match}
use arena_onsale.Inventory.Locking.RedisGate.{redis_gate}
use arena_onsale.Catalog.Layout.{cup26_final_small, seats, assigned_capacity, row_label}
use arena_onsale.Catalog.Layout.Capacity.{length-seats}
use arena_onsale.Catalog.MapView.{assemble_seat_map, place_of}
use arena_onsale.Catalog.MapView.Lookup.{places_at, sits_at, assemble_seat_map_lem}
use arena_onsale.Catalog.Seed.{seed_layout}
use arena_onsale.Catalog.Seed.Twice.{seed_layout-seed_layout}
use arena_onsale.Load.{batch_ranges, visitor_id, flood_queue}
use arena_onsale.Load.Arrivals.{NoFan, flood_queue-length}
use arena_onsale.Load.Joins.{quiet, join_each, flood_queue-join_each}
use arena_onsale.WaitingRoom.Redis.{RedisRoom}
use arena_onsale.WaitingRoom.Redis.Calls.Answers.{empty_redis}
use arena_onsale.Catalog.Layout.Loop.{Run, all_letters, row_label-Run}
use arena_onsale.Prelude.{All, true}
use arena_onsale.Prelude.Numerals.{read}
use arena_onsale.WaitingRoom.Store.{WaitingRoomStore}
use arena_onsale.WaitingRoom.Redis.{redis_store}
use arena_onsale.Worker.{Site, Turn, commits, raises, main}
use arena_onsale.Worker.Forever.{Polite, main-InOrder}
use arena_onsale.Worker.Keeps.{InOrder, alone}
use arena_onsale.Tests.Data.{empty_db, ga_db, seat_db}

labels :
    (row_label 0 ≡ "A")
    × (row_label 25 ≡ "Z")
    × (row_label 26 ≡ "AA")
    × (row_label 701 ≡ "ZZ")
    × (row_label 702 ≡ "AAA")
unfolding row_label
labels = (refl, refl, refl, refl, refl)

capacity_88 : assigned_capacity cup26_final_small ≡ 88
unfolding assigned_capacity
capacity_88 = refl

length-seats_example : length (seats cup26_final_small) ≡ assigned_capacity cup26_final_small
length-seats_example = length-seats cup26_final_small

assemble_seat_map_lem_example :
    let shown = assemble_seat_map 1 "cup26-final" seat_db.seats (some 38) (some 40) 3 false in
    ((code row : String)
      → places_at code row shown.sections ≡ map place_of (select (sits_at code row) seat_db.seats))
    × (shown.assigned_total ≡ 3)
    × (shown.assigned_available ≡ 1)
assemble_seat_map_lem_example =
    assemble_seat_map_lem 1 "cup26-final" seat_db.seats (some 38) (some 40) 3 false

abbrev ids : ℕ → ℕ
ids i = 100 + i

seed_layout-seed_layout_example :
    let (_, db') = seed_layout ids 1 cup26_final_small 9 empty_db in
    (m : Match) × (seed_layout ids 1 cup26_final_small 9 empty_db ≡ (some m, db'))
    × (seed_layout ids 2 cup26_final_small 10 db' ≡ (some m, db'))
seed_layout-seed_layout_example =
    seed_layout-seed_layout ids ids 1 2 9 10 cup26_final_small empty_db

batches :
    batch_ranges 12 5
    ≡ some (
        record { start = 0; end = 5 }
        ∷ record { start = 5; end = 10 }
        ∷ record { start = 10; end = 12 }
        ∷ [])
unfolding batch_ranges
batches = refl

fan_0 : visitor_id 42 "fan" ≡ "fan-0000042"
unfolding visitor_id
fan_0 = refl

-- two have joined, one of them under the name of a fan
abbrev two_waiting : RedisRoom
two_waiting = record empty_redis {
  queue =
      record { visitor_id = "asha"; score = 1 }
      ∷ record { visitor_id = "fan-0000001"; score = 2 }
      ∷ [];
  seq = 2;
}

flood_queue-join_each_example :
    flood_queue quiet 3 2 "fan" two_waiting ≡ some (join_each "fan" 0 3 two_waiting)
flood_queue-join_each_example = flood_queue-join_each 3 2 "fan" two_waiting (omega arith)

two_are_new : (join_each "fan" 0 3 two_waiting).0 ≡ 2
unfolding join_each visitor_id
two_are_new = refl

row_label-Run_example :
    Run 28 "" (row_label 27)
    × ((last : String)
        → Run 28 "" last
        → (last ≡ row_label 27) × (read 26 64 0 last ≡ 28) × (all_letters last ≡ true))
row_label-Run_example = row_label-Run 27

in_order : InOrder 1 ga_db
in_order = record {
  consistent = tt;
  books = record { conserved = refl; one_row = λ i. ground arith; one_pool = λ n. ground arith };
  events = λ i. omega arith;
}

-- a pass that commits, and a second later one that raises with its work on the locks done
abbrev at_redis : WaitingRoomStore
at_redis = redis_store 700_000_000

abbrev two_turns : List (Turn at_redis redis_gate)
two_turns =
    record {
      around = alone (λ i. false) 700_000_000 (λ i. "t");
      ending = commits;
      meanwhile = λ s. s;
    }
    ∷ record {
      around = alone (λ i. false) 700_500_000 (λ i. "u");
      ending = raises [] empty_redis;
      meanwhile = λ s. s;
    }
    ∷ []

two_turns-Polite : All (Polite at_redis redis_gate 1) two_turns
two_turns-Polite = (
  record { undisturbed = refl; kept = λ s o. o },
  (record { undisturbed = refl; kept = λ s o. o }, tt),
)

abbrev at_first : Site at_redis redis_gate
at_first = record { locks = []; db = ga_db; room = empty_redis }

main-InOrder_example : InOrder 1 (main at_redis redis_gate default_settings two_turns at_first).db
main-InOrder_example =
    main-InOrder at_redis redis_gate 1 default_settings two_turns at_first two_turns-Polite in_order

abbrev first_code : String → ℕ
first_code String.[] = 0
first_code (String.◌∷◌ c s) = code c

not_vip : (v : String) (j : ℕ) → first_code v + 1 ≤ 118 → str_eq v (visitor_id j "vip") ≡ false
unfolding visitor_id
not_vip v j h = elim (Bool-cases (str_eq v (visitor_id j "vip"))) [
  | inl same ↦
      let first : first_code v ≡ 118 = ap first_code ((eq_iff v (visitor_id j "vip")).0 same) in
      absurd (omega (arith, h, first))
  | inr other ↦ other
]

no_vip : NoFan "vip" 0 two_waiting.queue
no_vip j h = rw (not_vip "asha" j (omega arith)) (rw (not_vip "fan-0000001" j (omega arith)) refl)

flood_queue-length_example :
    (s' : RedisRoom) × (flood_queue quiet 3 2 "vip" two_waiting ≡ some (3, s'))
    × (length s'.queue ≡ length two_waiting.queue + 3)
    × (s'.seq ≡ 2 + 3)
flood_queue-length_example = flood_queue-length 3 2 "vip" two_waiting (omega arith) no_vip
