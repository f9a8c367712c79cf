-- ===== src/Tests/Data.antt =====
-- Small databases: a match with a pool of 40 tickets, two of which reservation 7 keeps, and one with
-- three seats, two of which hold 50 keeps.
use arena_onsale.Prelude.{ℕ, String, [], ◌∷◌, none, some}
use arena_onsale.Tables.{Db, GeneralAdmission, GaReservation, active, Seat, Hold, available, held}
use arena_onsale.Inventory.GaService.{Surroundings, GaRequest}

abbrev pub pool : GeneralAdmission
pool = record { match_id = 1; capacity = 40; available = 38; version = 2 }

abbrev pub reservation : GaReservation
reservation = record {
  id = 7;
  match_id = 1;
  session_id = "priya";
  idempotency_key = "ga-1";
  quantity = 2;
  status = active;
  expires_at = 600_000_000;
  created_at = 0;
}

abbrev pub empty_db : Db
empty_db = record {
  matches = [];
  seats = [];
  ga_inventory = [];
  holds = [];
  ga_reservations = [];
  orders = [];
  payments = [];
  outbox = [];
}

abbrev pub ga_db : Db
ga_db = record empty_db { ga_inventory = pool ∷ []; ga_reservations = reservation ∷ [] }

-- nobody else is active; ids and times follow the attempts
abbrev pub quiet : Surroundings
quiet = record {
  between = λ i db. db;
  while_asleep = λ i db. db;
  new_id = λ i. 100;
  now = λ i. 5;
  uniform = λ i a b. a;
}

abbrev pub buy_two : GaRequest
buy_two = record { match_id = 1; quantity = 2; session_id = "rahul"; idempotency_key = "ga-2" }

abbrev pub open_seat : ℕ → String → Seat
open_seat i number = record {
  id = i;
  match_id = 1;
  section = "101";
  row = "A";
  number = number;
  status = available;
  hold_id = none;
  held_until = none;
  version = 1;
}

abbrev pub held_seat : ℕ → String → Seat
held_seat i number = record (open_seat i number) {
  status = held;
  hold_id = some 50;
  held_until = some 600_000_000;
}

abbrev pub hold : Hold
hold = record {
  id = 50;
  match_id = 1;
  session_id = "priya";
  idempotency_key = "hold-1";
  status = active;
  expires_at = 600_000_000;
  created_at = 0;
}

-- three seats, two of which hold 50 keeps
abbrev pub seat_db : Db
seat_db = record empty_db {
  seats = held_seat 1 "1" ∷ held_seat 2 "2" ∷ open_seat 3 "3" ∷ [];
  holds = hold ∷ [];
}
