-- ===== src/Worker/Forever.antt =====
-- The database while the worker runs on.
use arena_onsale.Prelude.{ℕ, ◌≡◌, sym, subst, List, [], ◌∷◌, All}
use arena_onsale.Settings.{Settings}
use arena_onsale.Inventory.Locking.{SeatLockGate}
use arena_onsale.WaitingRoom.Store.{WaitingRoomStore}
use arena_onsale.Worker.{
  Around, Site, Ending, commits, raises, Turn, after_pass, take_turn, main, Worked, run_once,
}
use arena_onsale.Worker.Keeps.{alone, InOrder, run_once-InOrder}

module _ (rooms : WaitingRoomStore) (gate : SeatLockGate) where
  -- Nobody else writes during the pass, and what the others do after it keeps the database in order.
  pub record Polite (m : ℕ) (t : Turn rooms gate) : Type 0 where
    pub undisturbed : t.around ≡ alone t.around.locked_by_others t.around.now t.around.new_token
    pub kept : (s : Site rooms gate) → InOrder m s.db → InOrder m (t.meanwhile s).db

  after_pass-InOrder :
      (m : ℕ) (e : Ending rooms gate) (w : Worked rooms gate) (s : Site rooms gate)
      → InOrder m w.db
      → InOrder m s.db
      → InOrder m (after_pass rooms gate e w s).db
  after_pass-InOrder m commits w s done o = done
  after_pass-InOrder m (raises locks room) w s done o = o

  take_turn-InOrder :
      (m : ℕ) (cfg : Settings) (t : Turn rooms gate) (s : Site rooms gate)
      → Polite m t
      → InOrder m s.db
      → InOrder m (take_turn rooms gate cfg t s).db
  take_turn-InOrder m cfg t s polite o =
      let done : Around → Worked rooms gate =
        λ around. run_once rooms gate around cfg s.locks s.db s.room in
      let worked : InOrder m (done t.around).db =
        subst (λ around. InOrder m (done around).db) (sym polite.undisturbed)
          (run_once-InOrder rooms gate t.around.locked_by_others t.around.new_token t.around.now m
            cfg s.locks s.db s.room o) in
      polite.kept (after_pass rooms gate t.ending (done t.around) s)
        (after_pass-InOrder m t.ending (done t.around) s worked o)

  -- However long the worker runs, over any waiting room and any locks, whether its passes commit or raise,
  -- the database stays in order: seats tied to holds, the accounts of the pools, and the outbox with unique
  -- ids. Nobody else writes during a pass, and what the others do after it keeps the order.
  pub main-InOrder :
      (m : ℕ) (cfg : Settings) (ts : List (Turn rooms gate)) (s : Site rooms gate)
      → All (Polite m) ts
      → InOrder m s.db
      → InOrder m (main rooms gate cfg ts s).db
  unfolding main
  main-InOrder m cfg [] s polite o = o
  main-InOrder m cfg (t ∷ ts) s polite o =
      main-InOrder m cfg ts (take_turn rooms gate cfg t s) polite.1
        (take_turn-InOrder m cfg t s polite.0 o)
