-- ===== src/Checkout/Psp.antt =====
-- src/arena_onsale/checkout/psp.py: the payment provider of the runtime, `MockPsp`.
pub mod Laws
use arena_onsale.Prelude.{
  ℕ, ◌+◌, ◌-◌, String, Bool, true, false, Option, none, some, List, [], ◌∷◌, if◌then◌else◌, ltb,
}
use arena_onsale.Tables.{PspKey, key_eq, PspRef, psp}

pub record ChargeResult : Type 0 where
  pub accepted : Bool
  pub psp_ref : Option PspRef
  pub message : Option String

pub record MockPsp : Type 0 where
  pub charges : List (PspKey × ChargeResult)
  pub refunds : List (PspKey × ChargeResult)
  pub capture_count : ℕ
  pub refund_count : ℕ
  pub fail_next_charges : ℕ

-- `dict.get`; a key that is in the dictionary is never written again
abbrev pub lookup : PspKey → List (PspKey × ChargeResult) → Option ChargeResult
lookup k [] = none
lookup k ((j, r) ∷ d) = if key_eq j k then some r else lookup k d

abbrev pub declined : ChargeResult
declined = record { accepted = false; psp_ref = none; message = some "mock decline" }

abbrev pub captured_for : PspKey → ChargeResult
captured_for key = record { accepted = true; psp_ref = some (psp key); message = none }

abbrev pub refunded_to : PspRef → ChargeResult
refunded_to ref = record { accepted = true; psp_ref = some ref; message = some "refunded" }

-- `MockPsp.charge`, which ignores the amount
unfoldable pub charge : PspKey → MockPsp → ChargeResult × MockPsp
charge key p = elim (lookup key p.charges) [
  | some r ↦ (r, p)
  | none ↦
      if ltb 0 p.fail_next_charges
      then (
        declined,
        record p {
          charges = (key, declined) ∷ p.charges;
          fail_next_charges = p.fail_next_charges - 1;
        },
      )
      else (
        captured_for key,
        record p {
          charges = (key, captured_for key) ∷ p.charges;
          capture_count = p.capture_count + 1;
        },
      )
]

-- `MockPsp.refund`
unfoldable pub refund : PspRef → PspKey → MockPsp → ChargeResult × MockPsp
refund ref key p = elim (lookup key p.refunds) [
  | some r ↦ (r, p)
  | none ↦ (
    refunded_to ref,
    record p { refunds = (key, refunded_to ref) ∷ p.refunds; refund_count = p.refund_count + 1 },
  )
]
