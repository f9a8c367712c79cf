-- ===== src/Worker.antt =====
-- src/arena_onsale/worker.py: the passes of the worker over the database, the seat locks and the waiting
-- room. The notifier is `LogTicketNotifier` of checkout/outbox.py, which logs and raises nothing.
pub mod Frames
pub mod Keeps
pub mod Forever
use arena_onsale.Prelude.{ℕ, ◌+◌, String, Bool, true, Option, none, some, List, [], ◌∷◌}
use arena_onsale.Settings.{Settings}
use arena_onsale.Tables.{Db, OutboxEvent}
use arena_onsale.Inventory.Locking.{SeatLockGate}
use arena_onsale.Checkout.Expiry.{expire_holds, expire_ga}
use arena_onsale.Checkout.Outbox.{publish_outbox}
use arena_onsale.WaitingRoom.Store.{WaitingRoomStore}
use arena_onsale.WaitingRoom.Service.{admit_tick}

-- `LogTicketNotifier.deliver`
abbrev pub log_deliver : OutboxEvent → Bool
log_deliver e = true

-- What surrounds a pass: the rows that other transactions have locked, what they commit between its
-- statements, the clock, and the tokens that it draws.
pub record Around : Type 0 where
  pub locked_by_others : ℕ → Bool
  pub between_seats : ℕ → ℕ → Db → Db
  pub between_ga : ℕ → Db → Db
  pub now : ℕ
  pub new_token : ℕ → String

abbrev pub count_of : Option ℕ → ℕ
count_of none = 0
count_of (some n) = n

module _ (rooms : WaitingRoomStore) (gate : SeatLockGate) where
  open gate use {State}

  pub record Worked : Type 0 where
    pub handled : ℕ
    pub locks : State
    pub db : Db
    pub room : rooms.State

  unfoldable pub run_once : Around → Settings → State → Db → rooms.State → Worked
  run_once around s locks db room =
      let now = around.now in
      let (holds, locks', db₁) =
        expire_holds gate around.between_seats around.locked_by_others now s.worker_batch_size locks
          db in
      let (ga, db₂) =
        expire_ga around.between_ga around.locked_by_others now s.worker_batch_size db₁ in
      let mailed =
        publish_outbox log_deliver around.locked_by_others now s.worker_batch_size db₂.outbox in
      let (admitted, room') = admit_tick rooms s around.new_token now room in
      record {
        handled = holds + ga + count_of mailed.published + admitted;
        locks = locks';
        db = record db₂ { outbox = mailed.rows };
        room = room';
      }

  -- what a pass works on
  pub record Site : Type 0 where
    pub locks : State
    pub db : Db
    pub room : rooms.State

  -- How a pass ends: with its commit, or with an exception. That rolls the session back, and what the pass
  -- has done to the locks and to the room stays done.
  pub data Ending : Type 0 where
    commits : Ending
    raises : State → rooms.State → Ending

  -- One turn of `while True`: a pass, and what everybody else does while the worker sleeps.
  pub record Turn : Type 0 where
    pub around : Around
    pub ending : Ending
    pub meanwhile : Site → Site

  abbrev pub after_pass : Ending → Worked → Site → Site
  after_pass commits w s = record { locks = w.locks; db = w.db; room = w.room }
  after_pass (raises locks room) w s = record { locks = locks; db = s.db; room = room }

  abbrev pub take_turn : Settings → Turn → Site → Site
  take_turn cfg t s =
      t.meanwhile (after_pass t.ending (run_once t.around cfg s.locks s.db s.room) s)

  -- The loop of `main`, turn by turn.
  unfoldable pub main : Settings → List Turn → Site → Site
  main cfg [] s = s
  main cfg (t ∷ ts) s = main cfg ts (take_turn cfg t s)
