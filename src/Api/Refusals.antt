-- ===== src/Api/Refusals.antt =====
-- What a refusal at the door of a route leaves behind.
use arena_onsale.Prelude.{◌≡◌, refl, String, Bool, true, false, arith, ◌⊎◌, inl, inr}
use arena_onsale.Admission.{Admission, visitor, token_required, token_rejected}
use arena_onsale.Api.{Reply, is_refusal, admitted}

module _ {A Room S : Type 0} where
  -- What holds before a route and after each refusal of its handler holds after each refusal of the
  -- route.
  pub admitted-refused :
      (P : S → Type 0) (a : Admission × Room) (fits : Bool) (s : S) (handled : Reply A × S)
      → P s
      → (is_refusal handled.0 ≡ true → P handled.1)
      → is_refusal (admitted a fits s handled).0 ≡ true
      → P (admitted a fits s handled).2
  unfolding admitted
  admitted-refused P (visitor v, room) true s (r, s') before after e = after e
  admitted-refused P (visitor v, room) false s (r, s') before after e = before
  admitted-refused P (token_required, room) fits s (r, s') before after e = before
  admitted-refused P (token_rejected, room) fits s (r, s') before after e = before

  -- A route that replies has let the visitor in, and the schema has found its request to fit.
  pub admitted-replied :
      (a : Admission × Room) (fits : Bool) (s : S) (handled : Reply A × S)
      → is_refusal (admitted a fits s handled).0 ≡ false
      → (v : String) × (a.0 ≡ visitor v)
        × (fits ≡ true)
        × (admitted a fits s handled ≡ (handled.0, a.1, handled.1))
  unfolding admitted
  admitted-replied (visitor v, room) true s (r, s') e = (v, refl, refl, refl)
  admitted-replied (visitor v, room) false s (r, s') e = absurd (ground arith)
  admitted-replied (token_required, room) fits s (r, s') e = absurd (ground arith)
  admitted-replied (token_rejected, room) fits s (r, s') e = absurd (ground arith)

  -- A route either passes its handler's answer on, or has not touched the state.
  pub admitted-cases :
      (a : Admission × Room) (fits : Bool) (s : S) (handled : Reply A × S)
      → (admitted a fits s handled ≡ (handled.0, a.1, handled.1))
        ⊎ ((admitted a fits s handled).2 ≡ s)
  unfolding admitted
  admitted-cases (visitor v, room) true s (r, s') = inl refl
  admitted-cases (visitor v, room) false s (r, s') = inr refl
  admitted-cases (token_required, room) fits s (r, s') = inr refl
  admitted-cases (token_rejected, room) fits s (r, s') = inr refl
