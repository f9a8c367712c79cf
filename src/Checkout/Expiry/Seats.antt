-- ===== src/Checkout/Expiry/Seats.antt =====
-- The expiry of holds and the seats of the house.
use arena_onsale.Prelude.{
  ℕ, ◌+◌, refl, Bool, none, some, List, [], ◌∷◌, take, inl, inr, Bool-cases, ◌∙◌, is_empty,
}
use arena_onsale.Prelude.Query.{select}
use arena_onsale.Prelude.Sort.{sort_by}
use arena_onsale.Tables.{Db, Hold}
use arena_onsale.Inventory.Locking.{SeatLockGate, release_all}
use arena_onsale.Inventory.Holds.Seats.{IsConsistent}
use arena_onsale.Checkout.Finalizer.{release_assigned}
use arena_onsale.Checkout.Finalizer.Pending.{undisturbed}
use arena_onsale.Checkout.Finalizer.Release.{Released, release_assigned-Released}
use arena_onsale.Checkout.Expiry.{
  expire_each, expire_holds, has_captured_payment, hold_due, hold_before,
}

abbrev pub nobody_between : ℕ → ℕ → Db → Db
nobody_between i = undisturbed

Released-trans : (a b c : Db) → Released a b → Released b c → Released a c
Released-trans a b c r s = record {
  consistent = s.consistent;
  same_sold = s.same_sold ∙ r.same_sold;
}

module _ (gate : SeatLockGate) where
  open gate use {State}

  expire_each-Released :
      (i : ℕ) (hs : List Hold) (locks : State) (db : Db)
      → IsConsistent db
      → Released db (expire_each gate nobody_between i hs locks db).2
  unfolding expire_each
  expire_each-Released i [] locks db k = record { consistent = k; same_sold = refl }
  expire_each-Released i (h ∷ hs) locks db k =
      let r = release_assigned-Released h.id db k in
      let db' : Db = (release_assigned undisturbed h.id db).1 in
      let seats = (release_assigned undisturbed h.id db).0 in
      elim (Bool-cases (has_captured_payment (some h.id) none db)) [
        | inl paid ↦ rw paid (expire_each-Released (i + 1) hs locks db k)
        | inr unpaid ↦ elim (Bool-cases (is_empty seats)) [
          | inl none_freed ↦ rw unpaid (
              rw none_freed (
                Released-trans db db' _ r (expire_each-Released (i + 1) hs locks db' r.consistent)))
          | inr some_freed ↦ rw unpaid (
              rw some_freed (
                Released-trans db db' _ r (
                  expire_each-Released (i + 1) hs (release_all gate h.match_id seats h.id locks) db'
                    r.consistent)))
        ]
      ]

  -- A pass over the overdue holds, with nothing between its statements, keeps every seat tied to its
  -- hold and returns no sold seat to the sale, whichever rows others have locked.
  pub expire_holds-Released :
      (skip : ℕ → Bool) (now batch_size : ℕ) (locks : State) (db : Db)
      → IsConsistent db
      → Released db (expire_holds gate nobody_between skip now batch_size locks db).2
  unfolding expire_holds
  expire_holds-Released skip now batch_size locks db k =
      expire_each-Released 0
        (take batch_size (sort_by hold_before (select (hold_due skip now) db.holds))) locks db k
