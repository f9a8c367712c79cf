-- ===== src/Worker/Keeps.antt =====
-- The database across a pass of the worker.
use arena_onsale.Prelude.{ℕ, ◌≡◌, String, Bool, ap, ◌∙◌}
use arena_onsale.Settings.{Settings}
use arena_onsale.Tables.{Db}
use arena_onsale.Inventory.Locking.{SeatLockGate}
use arena_onsale.Inventory.Holds.Seats.{IsConsistent}
use arena_onsale.Checkout.Expiry.{expire_holds, expire_ga}
use arena_onsale.Checkout.Expiry.Seats.{nobody_between, expire_holds-Released}
use arena_onsale.Checkout.Expiry.Ga.{GaBooks, ga_undisturbed, expire_ga-GaBooks}
use arena_onsale.Checkout.Outbox.Drain.{UniqueEvents, publish_outbox-backlog}
use arena_onsale.WaitingRoom.Store.{WaitingRoomStore}
use arena_onsale.Worker.Frames.{ga_side, seat_side, expire_holds-ga_side, expire_ga-seat_side}
use arena_onsale.Worker.{Around, log_deliver, run_once}

-- nobody else writes during the pass
abbrev pub alone : (ℕ → Bool) → ℕ → (ℕ → String) → Around
alone skip now new_token = record {
  locked_by_others = skip;
  between_seats = nobody_between;
  between_ga = ga_undisturbed;
  now = now;
  new_token = new_token;
}

-- The database is in order, for the pools of match `m`.
pub record InOrder (m : ℕ) (db : Db) : Type 0 where
  pub consistent : IsConsistent db
  pub books : GaBooks m db
  pub events : UniqueEvents db.outbox

GaBooks-side : (m : ℕ) (db db' : Db) → ga_side db' ≡ ga_side db → GaBooks m db → GaBooks m db'
GaBooks-side m db db' e b =
    let pools = ap (λ t. t.0) e in
    let rows = ap (λ t. t.1) e in
    record {
      conserved = rw pools (rw rows b.conserved);
      one_row = λ i. rw rows (b.one_row i);
      one_pool = λ n. rw pools (b.one_pool n);
    }

IsConsistent-side :
    (db db' : Db) → seat_side db' ≡ seat_side db → IsConsistent db → IsConsistent db'
IsConsistent-side db db' e k = rw (ap (λ t. t.0) e) (rw (ap (λ t. t.1) e) k)

module _ (rooms : WaitingRoomStore) (gate : SeatLockGate) where
  open gate use {State}

  -- A pass keeps the database in order: seats tied to holds, the accounts of the pools, and the outbox with
  -- unique ids.
  pub run_once-InOrder :
      (skip : ℕ → Bool) (new_token : ℕ → String) (now m : ℕ) (s : Settings) (locks : State)
      (db : Db) (room : rooms.State)
      → InOrder m db
      → InOrder m (run_once rooms gate (alone skip now new_token) s locks db room).db
  unfolding run_once
  run_once-InOrder skip new_token now m s locks db room o =
      let db₁ : Db = (expire_holds gate nobody_between skip now s.worker_batch_size locks db).2 in
      let db₂ : Db = (expire_ga ga_undisturbed skip now s.worker_batch_size db₁).1 in
      let seats = expire_holds-Released gate skip now s.worker_batch_size locks db o.consistent in
      let side = expire_holds-ga_side gate skip now s.worker_batch_size locks db in
      let side' = expire_ga-seat_side skip now s.worker_batch_size db₁ in
      let books : GaBooks m db₂ =
        expire_ga-GaBooks skip m now s.worker_batch_size db₁ (GaBooks-side m db db₁ side o.books) in
      let events : UniqueEvents db₂.outbox =
        rw (ap (λ t. t.2) side' ∙ ap (λ t. t.2) side) o.events in
      record {
        consistent = IsConsistent-side db₁ db₂ side' seats.consistent;
        books = record {
          conserved = books.conserved;
          one_row = books.one_row;
          one_pool = books.one_pool;
        };
        events =
            (publish_outbox-backlog log_deliver skip now s.worker_batch_size db₂.outbox events).1;
      }
