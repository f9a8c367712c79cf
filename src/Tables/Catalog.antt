-- ===== src/Tables/Catalog.antt =====
-- src/arena_onsale/catalog/models.py: matches, seats and the general-admission pool of a match.
use arena_onsale.Prelude.{ℕ, String, Bool, true, false, Option}

pub data SeatStatus : Type 0 where
  available held sold : SeatStatus

abbrev pub is_available : SeatStatus → Bool
is_available available = true
is_available _ = false

abbrev pub is_held : SeatStatus → Bool
is_held held = true
is_held _ = false

pub record Match : Type 0 where
  pub id : ℕ
  pub slug : String
  pub name : String
  pub venue : String
  pub starts_at : ℕ

pub record Seat : Type 0 where
  pub id : ℕ
  pub match_id : ℕ
  pub section : String
  pub row : String
  pub number : String
  pub status : SeatStatus
  pub hold_id : Option ℕ
  pub held_until : Option ℕ
  pub version : ℕ

pub record GeneralAdmission : Type 0 where
  pub match_id : ℕ
  pub capacity : ℕ
  pub available : ℕ
  pub version : ℕ
