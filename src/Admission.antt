-- ===== src/Admission.antt =====
-- src/arena_onsale/api/admission.py: who may pass from the waiting room to the catalog and the checkout.
pub mod Tokens
use arena_onsale.Prelude.{ℕ, String, Option, none, some, if◌then◌else◌}
use arena_onsale.Prelude.Text.{strip, is_empty_text}
use arena_onsale.WaitingRoom.Store.{WaitingRoomStore}
use arena_onsale.WaitingRoom.Service.{visitor_of}

-- the visitor, or the two answers of the `HTTPException`s
pub data Admission : Type 0 where
  visitor : String → Admission
  token_required token_rejected : Admission

module _ (store : WaitingRoomStore) where
  open store use {State}

  abbrev pub answer : Option String × State → Admission × State
  answer (some v, s) = (visitor v, s)
  answer (none, s) = (token_rejected, s)

  unfoldable pub admitted_by : ℕ → String → State → Admission × State
  admitted_by now token s = answer (visitor_of store now token s)

  -- `require_admission`, the argument being the header, if it is there
  unfoldable pub require_admission : ℕ → Option String → State → Admission × State
  unfolding admitted_by
  require_admission now none s = (token_required, s)
  require_admission now (some header) s =
      let token = strip header in
      if is_empty_text token then (token_required, s) else admitted_by now token s
