-- ===== src/Inventory/GaStock.antt =====
-- src/arena_onsale/inventory/ga_stock.py: the optimistic counter of a general-admission pool.
-- What other transactions commit between the snapshot and the guarded update is the argument
-- `between`; the statements of one transaction of ours see it, and a rollback keeps it.
pub mod Accounts
use arena_onsale.Prelude.{
  ℕ, ◌+◌, ◌-◌, String, Bool, true, false, ◌&&◌, ◌||◌, none, some, ◌∷◌, List, [], if◌then◌else◌, ltb,
  leb, ◌==◌,
}
use arena_onsale.Prelude.Query.{find?, update_where, count_where}
use arena_onsale.Prelude.Text.{str_eq}
use arena_onsale.Tables.{Db, GeneralAdmission, GaReservation}

pub data ClaimOutcome : Type 0 where
  claimed missing insufficient conflict : ClaimOutcome

-- `integrity_error` is the exception of an insert that breaks a unique constraint.
pub data ClaimResult : Type 0 where
  outcome : ClaimOutcome → ClaimResult
  integrity_error : ClaimResult

abbrev pub pool_of : ℕ → GeneralAdmission → Bool
pool_of m g = g.match_id == m

abbrev pub claim_guard : ℕ → ℕ → ℕ → GeneralAdmission → Bool
claim_guard m version quantity g =
    (g.match_id == m) && ((g.version == version) && leb quantity g.available)

abbrev pub take_tickets : ℕ → GeneralAdmission → GeneralAdmission
take_tickets quantity g = record g { available = g.available - quantity; version = g.version + 1 }

abbrev pub has_key : String → GaReservation → Bool
has_key key r = str_eq r.idempotency_key key

-- The guarded update, then the insert and the commit; a rollback undoes the update.
unfoldable pub write_claim : ℕ → ℕ → ℕ → GaReservation → Db → ClaimResult × Db
write_claim version m quantity reservation db =
    if count_where (claim_guard m version quantity) db.ga_inventory == 1
    then (if count_where (has_key reservation.idempotency_key) db.ga_reservations == 0
        then (
          outcome claimed,
          record db {
            ga_inventory =
                update_where (claim_guard m version quantity) (take_tickets quantity)
                  db.ga_inventory;
            ga_reservations = reservation ∷ db.ga_reservations;
          },
        )
        else (integrity_error, db))
    else (outcome conflict, db)

-- `SqlGaStock.claim`
unfoldable pub claim : (Db → Db) → ℕ → ℕ → GaReservation → Db → ClaimResult × Db
claim between m quantity reservation db = elim (find? (pool_of m) db.ga_inventory) [
  | none ↦ (outcome missing, db)
  | some snapshot ↦
      if ltb snapshot.available quantity
      then (outcome insufficient, db)
      else write_claim snapshot.version m quantity reservation (between db)
]
