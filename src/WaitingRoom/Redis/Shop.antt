-- ===== src/WaitingRoom/Redis/Shop.antt =====
-- The shoppers of the two stores: the removal of those whose stay has ended, and what is read then.
pub mod Reading
pub mod Entering
use arena_onsale.Prelude.{
  ℕ, ◌≡◌, ◌≤◌, refl, String, Bool, true, false, not, Option, none, some, List, [], ◌∷◌, map, arith,
  All, ltb, leb, inl, inr, Bool-cases, Option-cases, ◌∙◌, sym, ap, subst,
}
use arena_onsale.Prelude.Query.{find?, select, count_where}
use arena_onsale.Prelude.Text.{str_eq, eq_iff}
use arena_onsale.WaitingRoom.Store.{Shopper, is_live}
use arena_onsale.WaitingRoom.Memory.{
  Store, Entry, TokenOf, shopper_of, has_expired, token_among, token_is, gc_shoppers, shopper_count,
  visitor_for_token, get_shopper, used_in, entry_of,
}
use arena_onsale.WaitingRoom.Redis
use arena_onsale.WaitingRoom.Redis.{RedisRoom, get_key, zcount, zscore, score_or_zero}
use arena_onsale.WaitingRoom.Redis.Alike.{
  SameRate-kept, Alike, Apart, Differs, Distinct, stay_of, token_entry, has_token, token_of,
  visitor_name,
}

module _ {A B : Type 0} where
  select-map :
      (f : A → B) (p : B → Bool) (q : A → Bool) (xs : List A)
      → All (λ x. p (f x) ≡ q x) xs
      → select p (map f xs) ≡ map f (select q xs)
  select-map f p q [] a = refl
  select-map f p q (x ∷ xs) a = ground (arith, a.0, select-map f p q xs a.1)

module _ {A : Type 0} where
  pub All-select : (P : A → Type 0) (p : A → Bool) (xs : List A) → All P xs → All P (select p xs)
  All-select P p [] a = tt
  All-select P p (x ∷ xs) a = elim (Bool-cases (p x)) [
    | inl in_it ↦ rw in_it (a.0, All-select P p xs a.1)
    | inr out ↦ rw out (All-select P p xs a.1)
  ]

  selected : (p : A → Bool) (xs : List A) → All (λ x. p x ≡ true) (select p xs)
  selected p [] = tt
  selected p (x ∷ xs) = elim (Bool-cases (p x)) [
    | inl in_it ↦ rw in_it (in_it, selected p xs)
    | inr out ↦ rw out (selected p xs)
  ]

  pub select-all : (p : A → Bool) (xs : List A) → All (λ x. p x ≡ true) xs → select p xs ≡ xs
  select-all p [] a = refl
  select-all p (x ∷ xs) a = rw a.0 (ap (λ ys. x ∷ ys) (select-all p xs a.1))

-- the shoppers whose stay goes on
abbrev pub staying : ℕ → List Shopper → List Shopper
staying now xs = select (λ x. not (has_expired now x)) xs

abbrev pub AllLive : ℕ → List Shopper → Type 0
AllLive now xs = All (λ x. is_live now x ≡ true) xs

all_live : (now : ℕ) (xs : List Shopper) → AllLive now (staying now xs)
all_live now [] = tt
all_live now (x ∷ xs) = elim (Bool-cases (has_expired now x)) [
  | inl gone ↦ rw gone (all_live now xs)
  | inr here ↦ rw here (ground (arith, here), all_live now xs)
]

live-staying :
    (now t : ℕ) (xs : List Shopper)
    → now ≤ t
    → select (is_live t) (staying now xs) ≡ select (is_live t) xs
live-staying now t [] h = refl
live-staying now t (x ∷ xs) h = ground (arith, h, live-staying now t xs h)

Distinct-staying : (now : ℕ) (xs : List Shopper) → Distinct xs → Distinct (staying now xs)
Distinct-staying now [] d = tt
Distinct-staying now (x ∷ xs) d = elim (Bool-cases (has_expired now x)) [
  | inl gone ↦ rw gone (Distinct-staying now xs d.1)
  | inr here ↦
      rw here
        (All-select (Differs x) (λ y. not (has_expired now y)) xs d.0, Distinct-staying now xs d.1)
]

other_token :
    (now : ℕ) (x : Shopper) (xs : List Shopper)
    → All (Differs x) xs
    → token_among (select (has_expired now) xs) (token_entry x) ≡ false
other_token now x [] a = refl
other_token now x (y ∷ ys) a =
    ground (arith, a.0, other_token now x ys a.1, eq_iff x.token y.token, eq_iff y.token x.token)

abbrev Own : ℕ → List Shopper → List Shopper → Type 0
Own now gone ys = All (λ y. token_among gone (token_entry y) ≡ has_expired now y) ys

Own-more :
    (now : ℕ) (x : Shopper) (ys gone : List Shopper)
    → All (Differs x) ys
    → Own now gone ys
    → Own now (x ∷ gone) ys
Own-more now x [] gone d a = tt
Own-more now x (y ∷ ys) gone d a = (ground (arith, d.0, a.0), Own-more now x ys gone d.1 a.1)

-- the token of a shopper is among those of the expired ones just if he is one of them
Own-tokens : (now : ℕ) (xs : List Shopper) → Distinct xs → Own now (select (has_expired now) xs) xs
Own-tokens now [] d = tt
Own-tokens now (x ∷ xs) d =
    let rest = Own-tokens now xs d.1 in
    elim (Bool-cases (has_expired now x)) [
      | inl gone ↦
          let shape : select (has_expired now) (x ∷ xs) ≡ x ∷ select (has_expired now) xs =
            rw gone refl in
          subst (λ g. Own now g (x ∷ xs)) (sym shape)
            (ground (arith, gone, eq_iff x.token x.token), Own-more now x xs _ d.0 rest)
      | inr here ↦
          let shape : select (has_expired now) (x ∷ xs) ≡ select (has_expired now) xs =
            rw here refl in
          subst (λ g. Own now g (x ∷ xs)) (sym shape)
            (ground (arith, here, other_token now x xs d.0), rest)
    ]

not-Own :
    (now : ℕ) (gone ys : List Shopper)
    → Own now gone ys
    → All (λ y. not (token_among gone (token_entry y)) ≡ not (has_expired now y)) ys
not-Own now gone [] a = tt
not-Own now gone (y ∷ ys) a = (ap not a.0, not-Own now gone ys a.1)

stays_staying :
    (now : ℕ) (xs : List Shopper)
    → select (λ e. not (leb e.score now)) (map stay_of xs) ≡ map stay_of (staying now xs)
stays_staying now [] = refl
stays_staying now (x ∷ xs) = ground (arith, stays_staying now xs)

All-Apart-staying :
    (now : ℕ) (xs : List Shopper) (q : List Entry)
    → All (Apart now xs) q
    → All (Apart now (staying now xs)) q
All-Apart-staying now xs [] a = tt
All-Apart-staying now xs (e ∷ q) a = (
  All-select (λ x. is_live now x ≡ true → str_eq x.visitor_id e.visitor_id ≡ false)
      (λ x. not (has_expired now x)) xs a.0,
  All-Apart-staying now xs q a.1,
)

-- The removal of the expired shoppers leaves the rooms alike; all whom it leaves are live.
pub gc_shoppers-Alike :
    (now limit : ℕ) (m : Store) (r : RedisRoom)
    → Alike now limit m r
    → let m' = gc_shoppers now m in
      Alike now limit m' (Redis.gc_shoppers now r) × AllLive now m'.shoppers
unfolding gc_shoppers Redis.gc_shoppers
gc_shoppers-Alike now limit m r a =
    let xs = m.shoppers in
    (
      record {
        same_queue = a.same_queue;
        same_seq = a.same_seq;
        in_line = a.in_line;
        same_stays = rw a.same_stays (stays_staying now xs);
        same_tokens = rw a.same_tokens (
            select-map token_entry (λ e. not (token_among (select (has_expired now) xs) e))
              (λ x. not (has_expired now x)) xs
              (not-Own now (select (has_expired now) xs) xs (Own-tokens now xs a.distinct)));
        distinct = Distinct-staying now xs a.distinct;
        apart = All-Apart-staying now xs m.queue a.apart;
        visitor_keys = λ t v h.
            a.visitor_keys t v h
            ∙ ap (λ ys. token_of (find? (shopper_of v) ys)) (sym (live-staying now t xs h));
        token_keys = λ t k h.
            a.token_keys t k h
            ∙ ap (λ ys. visitor_name (find? (has_token k) ys)) (sym (live-staying now t xs h));
        same_rate = SameRate-kept limit m _ r _ refl refl a.same_rate;
      },
      all_live now xs,
    )
