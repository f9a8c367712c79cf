-- ===== src/Checkout/Expiry/Ga.antt =====
-- The expiry of general-admission reservations and the accounts of the pools.
use arena_onsale.Prelude.{
  ℕ, ◌+◌, ◌≤◌, ◌≡◌, refl, Bool, none, some, List, [], ◌∷◌, arith, take, inl, inr, Bool-cases,
  Option-cases,
}
use arena_onsale.Prelude.Query.{count_where, select, find?}
use arena_onsale.Prelude.Rows.{count_where-pos, count_where-update_where}
use arena_onsale.Prelude.Sort.{sort_by}
use arena_onsale.Tables.{Db, GaReservation, GeneralAdmission, expired, is_active}
use arena_onsale.Inventory.GaStock.{pool_of}
use arena_onsale.Inventory.GaStock.Accounts.{IsConserved}
use arena_onsale.Checkout.Finalizer.{
  release_ga, write_release_ga, reservation_is, version_guard, with_status, return_tickets,
}
use arena_onsale.Checkout.Finalizer.Ga.{Locked, release_ga-IsConserved}
use arena_onsale.Checkout.Expiry.{
  expire_each_ga, expire_ga, has_captured_payment, ga_due, reservation_before,
}

-- The accounts of the pool of match `m`, and the unique indexes that they rest on.
pub record GaBooks (m : ℕ) (db : Db) : Type 0 where
  pub conserved : IsConserved m db
  pub one_row : (i : ℕ) → count_where (reservation_is i) db.ga_reservations ≤ 1
  pub one_pool : (n : ℕ) → count_where (pool_of n) db.ga_inventory ≤ 1

abbrev pub ga_undisturbed : ℕ → Db → Db
ga_undisturbed i db = db

pub guard-le :
    (n v : ℕ) (gs : List GeneralAdmission)
    → count_where (version_guard n v) gs ≤ count_where (pool_of n) gs
guard-le n v [] = ground arith
guard-le n v (g ∷ gs) = ground (arith, guard-le n v gs)

pub write_release_ga_unique :
    (m v : ℕ) (r : GaReservation) (db : Db)
    → GaBooks m db
    → let db' = (write_release_ga r v db).1 in
      ((i : ℕ) → count_where (reservation_is i) db'.ga_reservations ≤ 1)
      × ((n : ℕ) → count_where (pool_of n) db'.ga_inventory ≤ 1)
unfolding write_release_ga
write_release_ga_unique m v r db b = (
  (λ i. ground (
    arith,
    b.one_row i,
    count_where-update_where (reservation_is r.id) (reservation_is i) (with_status expired)
        (λ x. refl) db.ga_reservations,
  )),
  (λ n. ground (
    arith,
    b.one_pool n,
    count_where-update_where (version_guard r.match_id v) (pool_of n) (return_tickets r.quantity)
        (λ x. refl) db.ga_inventory,
  )),
)

unreleased :
    (m i : ℕ) (db : Db)
    → (release_ga (λ d. d) i db).1 ≡ db
    → GaBooks m db
    → GaBooks m (release_ga (λ d. d) i db).1
unreleased m i db e b = rw e b

release_ga-GaBooks : (m i : ℕ) (db : Db) → GaBooks m db → GaBooks m (release_ga (λ d. d) i db).1
unfolding release_ga
release_ga-GaBooks m i db b = elim (Option-cases (find? (reservation_is i) db.ga_reservations)) [
  | inl e ↦ unreleased m i db (ground arith) b
  | inr (r, e) ↦ elim (Bool-cases (is_active r.status)) [
    | inr not_active ↦ unreleased m i db (ground arith) b
    | inl a ↦ elim (Option-cases (find? (pool_of r.match_id) db.ga_inventory)) [
      | inl no_pool ↦ unreleased m i db (ground arith) b
      | inr (g, e') ↦
          let u = write_release_ga_unique m g.version r db b in
          let l : Locked i db db = record {
            same = refl;
            one =
                omega
                  (arith, count_where-pos (reservation_is i) db.ga_reservations r e, b.one_row i);
          } in
          let shape : (release_ga (λ d. d) i db).1 ≡ (write_release_ga r g.version db).1 =
            ground arith in
          record {
            conserved =
                release_ga-IsConserved (λ d. d) m i db l
                  (λ n v. omega (arith, guard-le n v db.ga_inventory, b.one_pool n)) b.conserved
                  b.conserved;
            one_row = rw shape u.0;
            one_pool = rw shape u.1;
          }
    ]
  ]
]

expire_each_ga-GaBooks :
    (m i : ℕ) (rs : List GaReservation) (db : Db)
    → GaBooks m db
    → GaBooks m (expire_each_ga ga_undisturbed i rs db).1
unfolding expire_each_ga
expire_each_ga-GaBooks m i [] db b = b
expire_each_ga-GaBooks m i (r ∷ rs) db b =
    let db' : Db = (release_ga (λ d. d) r.id db).1 in
    let done = expire_each_ga-GaBooks m (i + 1) rs db' (release_ga-GaBooks m r.id db b) in
    elim (Bool-cases (has_captured_payment none (some r.id) db)) [
      | inl paid ↦ rw paid (expire_each_ga-GaBooks m (i + 1) rs db b)
      | inr unpaid ↦ rw unpaid done
    ]

-- A pass over the overdue reservations, with nothing between its statements, loses and makes up no
-- ticket of any pool, whichever rows others have locked.
pub expire_ga-GaBooks :
    (skip : ℕ → Bool) (m now batch_size : ℕ) (db : Db)
    → GaBooks m db
    → GaBooks m (expire_ga ga_undisturbed skip now batch_size db).1
unfolding expire_ga
expire_ga-GaBooks skip m now batch_size db b =
    expire_each_ga-GaBooks m 0
      (take batch_size (sort_by reservation_before (select (ga_due skip now) db.ga_reservations)))
      db b
