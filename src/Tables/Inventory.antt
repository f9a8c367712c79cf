-- ===== src/Tables/Inventory.antt =====
-- src/arena_onsale/inventory/models.py: holds on seats and general-admission reservations.
use arena_onsale.Prelude.{ℕ, String, Bool, true, false}

pub data HoldStatus : Type 0 where
  active confirmed expired released : HoldStatus

abbrev pub is_active : HoldStatus → Bool
is_active active = true
is_active _ = false

pub record Hold : Type 0 where
  pub id : ℕ
  pub match_id : ℕ
  pub session_id : String
  pub idempotency_key : String
  pub status : HoldStatus
  pub expires_at : ℕ
  pub created_at : ℕ

pub record GaReservation : Type 0 where
  pub id : ℕ
  pub match_id : ℕ
  pub session_id : String
  pub idempotency_key : String
  pub quantity : ℕ
  pub status : HoldStatus
  pub expires_at : ℕ
  pub created_at : ℕ
