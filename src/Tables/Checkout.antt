-- ===== src/Tables/Checkout.antt =====
-- src/arena_onsale/checkout/models.py: orders, payments and the outbox.
use arena_onsale.Prelude.{ℕ, String, Bool, false, Option, ◌==◌}

pub data OrderStatus : Type 0 where
  payment_pending confirmed payment_failed compensated expired : OrderStatus

pub data PaymentStatus : Type 0 where
  pending captured failed refunded : PaymentStatus

-- `pay:{order_id}` and `refund:{key}`: two of these texts are equal when their parts are.
pub data PspKey : Type 0 where
  pay : ℕ → PspKey
  refund_of : PspKey → PspKey

abbrev pub key_eq : PspKey → PspKey → Bool
key_eq (pay i) (pay j) = i == j
key_eq (refund_of k) (refund_of l) = key_eq k l
key_eq _ _ = false

-- `psp_{key}`
pub data PspRef : Type 0 where
  psp : PspKey → PspRef

pub record Order : Type 0 where
  pub id : ℕ
  pub match_id : ℕ
  pub session_id : String
  pub idempotency_key : String
  pub hold_id : Option ℕ
  pub ga_reservation_id : Option ℕ
  pub status : OrderStatus
  pub amount_cents : ℕ
  pub version : ℕ
  pub created_at : ℕ

pub record Payment : Type 0 where
  pub order_id : ℕ
  pub idempotency_key : PspKey
  pub psp_ref : Option PspRef
  pub status : PaymentStatus
  pub amount_cents : ℕ
  pub failure_reason : Option String

-- the two payloads that checkout writes
pub data Payload : Type 0 where
  ticket : ℕ → ℕ → Payload
  failure : ℕ → String → Payload

pub record OutboxEvent : Type 0 where
  pub id : ℕ
  pub aggregate_id : ℕ
  pub event_type : String
  pub payload : Payload
  pub created_at : ℕ
  pub published_at : Option ℕ
