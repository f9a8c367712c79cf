-- ===== src/Catalog/Seed/Chunks.antt =====
-- The inserts of the seed, and how they cut the seats.
use arena_onsale.Prelude.{
  ℕ, ◌+◌, ◌≤◌, ◌≡◌, refl, true, List, [], ◌∷◌, ◌++◌, leb, is_empty, length, All, arith,
  length-append, ap, ◌∙◌, inl, inr, Bool-cases, sym,
}
use arena_onsale.Tables.{Seat}
use arena_onsale.Catalog.Layout.{SeatSpec}
use arena_onsale.Catalog.Seed.{insert_from, send, new_seat}

-- the rows of all seats, the first with the id number `i`
abbrev pub all_rows : (ℕ → ℕ) → ℕ → ℕ → List SeatSpec → List Seat
all_rows new_id m i [] = []
all_rows new_id m i (spec ∷ specs) = new_seat new_id m i spec ∷ all_rows new_id m (i + 1) specs

pub append_one {ℓ} :
    {A : Type ℓ} (xs : List A) (y : A) (zs : List A) → (xs ++ y ∷ []) ++ zs ≡ xs ++ y ∷ zs
append_one [] y zs = ground arith
append_one (x ∷ xs) y zs = ap (λ r. x ∷ r) (append_one xs y zs)

append-empty {ℓ} : {A : Type ℓ} (xs ys : List A) → is_empty ys ≡ true → xs ++ ys ≡ xs
append-empty [] [] e = refl
append-empty (x ∷ xs) [] e = ap (λ r. x ∷ r) (append-empty xs [] e)
append-empty xs (y ∷ ys) e = cc

append_thrice {ℓ} : {A : Type ℓ} (xs ys zs : List A) → (xs ++ ys) ++ zs ≡ xs ++ (ys ++ zs)
append_thrice [] ys zs = ground arith
append_thrice (x ∷ xs) ys zs = ap (λ r. x ∷ r) (append_thrice xs ys zs)

send-insert_from :
    (size : ℕ) (new_id : ℕ → ℕ) (m i : ℕ) (chunk : List Seat) (specs : List SeatSpec)
    (rows : List Seat)
    → send (insert_from size new_id m i chunk specs) rows
      ≡ (rows ++ chunk) ++ all_rows new_id m i specs
unfolding insert_from
send-insert_from size new_id m i chunk [] rows = elim (Bool-cases (is_empty chunk)) [
  | inl e ↦ rw e (sym (append-empty (rows ++ chunk) [] refl ∙ append-empty rows chunk e))
  | inr full ↦ rw full (sym (append-empty (rows ++ chunk) [] refl))
]
send-insert_from size new_id m i chunk (spec ∷ specs) rows =
    let seat = new_seat new_id m i spec in
    let rest = all_rows new_id m (i + 1) specs in
    let joined : (rows ++ (chunk ++ seat ∷ [])) ++ rest ≡ (rows ++ chunk) ++ seat ∷ rest =
      ap (λ xs. xs ++ rest) (sym (append_thrice rows chunk (seat ∷ [])))
      ∙ append_one (rows ++ chunk) seat rest in
    elim (Bool-cases (leb size (length (chunk ++ seat ∷ [])))) [
      | inl cut ↦ rw cut (
          send-insert_from size new_id m (i + 1) [] specs (rows ++ (chunk ++ seat ∷ []))
          ∙ ap (λ xs. xs ++ rest) (append-empty (rows ++ (chunk ++ seat ∷ [])) [] refl)
          ∙ joined)
      | inr on ↦
          rw on (send-insert_from size new_id m (i + 1) (chunk ++ seat ∷ []) specs rows ∙ joined)
    ]

-- No insert is longer than a chunk or empty.
abbrev pub ChunkOk : ℕ → List Seat → Type 0
ChunkOk size c = (1 ≤ length c) × (length c ≤ size)

insert_from-ChunkOk :
    (size : ℕ) (new_id : ℕ → ℕ) (m i : ℕ) (chunk : List Seat) (specs : List SeatSpec)
    → length chunk + 1 ≤ size
    → All (ChunkOk size) (insert_from size new_id m i chunk specs)
unfolding insert_from
insert_from-ChunkOk size new_id m i [] [] h = tt
insert_from-ChunkOk size new_id m i (c ∷ chunk) [] h = ((omega arith, omega arith), tt)
insert_from-ChunkOk size new_id m i chunk (spec ∷ specs) h =
    let seat = new_seat new_id m i spec in
    let longer : length (chunk ++ seat ∷ []) ≡ length chunk + 1 =
      omega (arith, length-append chunk (seat ∷ [])) in
    elim (Bool-cases (leb size (length (chunk ++ seat ∷ [])))) [
      | inl cut ↦ rw cut (
        (omega (arith, longer), omega (arith, longer)),
        insert_from-ChunkOk size new_id m (i + 1) [] specs (omega arith),
      )
      | inr on ↦ rw on (
          insert_from-ChunkOk size new_id m (i + 1) (chunk ++ seat ∷ []) specs
            (ground (arith, longer)))
    ]

-- Cut into inserts of at most `size` rows, none of them empty, the seats arrive all, in order and once.
pub insert_from_lem :
    (size : ℕ) (new_id : ℕ → ℕ) (m : ℕ) (specs : List SeatSpec) (rows : List Seat)
    → 1 ≤ size
    → let inserts = insert_from size new_id m 0 [] specs in
      (send inserts rows ≡ rows ++ all_rows new_id m 0 specs) × All (ChunkOk size) inserts
insert_from_lem size new_id m specs rows h = (
  send-insert_from size new_id m 0 [] specs rows
      ∙ ap (λ xs. xs ++ all_rows new_id m 0 specs) (append-empty rows [] refl),
  insert_from-ChunkOk size new_id m 0 [] specs (omega arith),
)
