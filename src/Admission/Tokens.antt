-- ===== src/Admission/Tokens.antt =====
-- The tokens of shoppers at the admission check.
use arena_onsale.Prelude.{
  ℕ, ◌≡◌, refl, String, Bool, true, false, not, some, List, [], ◌∷◌, arith, All,
}
use arena_onsale.Prelude.Query.{find?, select}
use arena_onsale.Prelude.Text.{str_eq, eq_iff, strip, is_empty_text}
use arena_onsale.WaitingRoom.Store.{Shopper, is_live}
use arena_onsale.WaitingRoom.Memory.{
  memory_store, Store, TokenOf, assign, shopper_of, token_is, has_expired, token_among, put_shopper,
  gc_shoppers, visitor_for_token,
}
use arena_onsale.WaitingRoom.Service.{visitor_of}
use arena_onsale.Admission.{visitor, require_admission}

find?-select-assign {ℓ} :
    {A : Type ℓ} (p q : A → Bool) (a : A) (xs : List A)
    → p a ≡ true
    → q a ≡ true
    → find? p (select q (assign p a xs)) ≡ some a
find?-select-assign p q a [] h k = ground arith
find?-select-assign p q a (x ∷ xs) h k = ground (arith, find?-select-assign p q a xs h k)

-- no shopper has the token
abbrev pub IsFresh : String → List Shopper → Type 0
IsFresh t xs = All (λ y. str_eq t y.token ≡ false) xs

-- the entry of a shopper's token
abbrev pub entry_of : Shopper → TokenOf
entry_of x = record { token = x.token; visitor_id = x.visitor_id }

not_among_expired :
    (now : ℕ) (x : Shopper) (xs : List Shopper)
    → IsFresh x.token xs
    → token_among (select (has_expired now) xs) (entry_of x) ≡ false
not_among_expired now x [] free = refl
not_among_expired now x (y ∷ ys) free = ground (arith, free.0, not_among_expired now x ys free.1)

not_among_assigned :
    (now : ℕ) (x : Shopper) (p : Shopper → Bool) (xs : List Shopper)
    → is_live now x ≡ true
    → IsFresh x.token xs
    → token_among (select (has_expired now) (assign p x xs)) (entry_of x) ≡ false
not_among_assigned now x p [] live free = ground arith
not_among_assigned now x p (y ∷ ys) live free =
    ground
      (arith, free.0, not_among_expired now x ys free.1, not_among_assigned now x p ys live free.1)

-- A shopper who was put into the store with a token that nobody else has passes with it, white space
-- around it or not, at every time before his stay ends.
pub put_shopper-require_admission :
    (now : ℕ) (header : String) (x : Shopper) (s : Store)
    → strip header ≡ x.token
    → is_empty_text x.token ≡ false
    → is_live now x ≡ true
    → IsFresh x.token s.shoppers
    → (require_admission memory_store now (some header) (put_shopper x s)).0 ≡ visitor x.visitor_id
unfolding require_admission visitor_of put_shopper gc_shoppers visitor_for_token
put_shopper-require_admission now header x s given full live free =
    let shoppers = assign (shopper_of x.visitor_id) x s.shoppers in
    let kept : TokenOf → Bool = λ e. not (token_among (select (has_expired now) shoppers) e) in
    let token =
      find?-select-assign (token_is x.token) kept (entry_of x) s.tokens
        ((eq_iff x.token x.token).1 refl)
        (ground (arith, not_among_assigned now x (shopper_of x.visitor_id) s.shoppers live free)) in
    let shopper =
      find?-select-assign (shopper_of x.visitor_id) (λ y. not (has_expired now y)) x s.shoppers
        ((eq_iff x.visitor_id x.visitor_id).1 refl) (ground arith) in
    let known : visitor_for_token x.token (gc_shoppers now (put_shopper x s)) ≡ some x.visitor_id =
      rw (token, visitor_for_token)
        (rw (shopper, visitor_for_token) (rw ((eq_iff x.token x.token).1 refl) refl)) in
    rw given (rw full (rw known refl))
