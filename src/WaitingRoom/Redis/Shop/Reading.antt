-- ===== src/WaitingRoom/Redis/Shop/Reading.antt =====
-- What the two stores answer about the shoppers once the expired ones are gone.
use arena_onsale.Prelude.{
  ℕ, ◌≡◌, refl, String, Bool, true, false, Option, none, some, List, [], ◌∷◌, map, arith, All, inl,
  inr, Option-cases, ◌∙◌, sym, ap,
}
use arena_onsale.Prelude.Query.{find?, count_where}
use arena_onsale.Prelude.Text.{str_eq, eq_iff}
use arena_onsale.WaitingRoom.Store.{Shopper, is_live}
use arena_onsale.WaitingRoom.Memory.{
  Store, shopper_of, token_is, shopper_count, visitor_for_token, get_shopper, entry_of,
}
use arena_onsale.WaitingRoom.Redis
use arena_onsale.WaitingRoom.Redis.{RedisRoom, get_key, zcount, zscore, score_or_zero}
use arena_onsale.WaitingRoom.Redis.Alike.{
  Alike, Differs, Distinct, stay_of, token_entry, has_token, token_of, visitor_name,
}
use arena_onsale.WaitingRoom.Redis.Shop.{AllLive, select-all}

count_stays :
    (now : ℕ) (xs : List Shopper)
    → AllLive now xs
    → zcount now (map stay_of xs) ≡ count_where (is_live now) xs
count_stays now [] l = refl
count_stays now (x ∷ xs) l = ground (arith, l.0, count_stays now xs l.1)

pub same_count :
    (now limit : ℕ) (m : Store) (r : RedisRoom)
    → Alike now limit m r
    → AllLive now m.shoppers
    → shopper_count now m ≡ Redis.shopper_count now r
same_count now limit m r a l = rw a.same_stays (sym (count_stays now m.shoppers l))

find_token :
    (k : String) (xs : List Shopper)
    → find? (token_is k) (map token_entry xs)
      ≡ elim (find? (has_token k) xs) [ none ↦ none | some x ↦ some (token_entry x) ]
find_token k [] = refl
find_token k (x ∷ xs) = ground (arith, find_token k xs)

find_stay :
    (v : String) (xs : List Shopper)
    → find? (entry_of v) (map stay_of xs)
      ≡ elim (find? (shopper_of v) xs) [ none ↦ none | some x ↦ some (stay_of x) ]
find_stay v [] = refl
find_stay v (x ∷ xs) = ground (arith, find_stay v xs)

Differs-found :
    (p : Shopper → Bool) (y x : Shopper) (xs : List Shopper)
    → All (Differs y) xs
    → find? p xs ≡ some x
    → str_eq y.visitor_id x.visitor_id ≡ false
Differs-found p y x [] d e = cc
Differs-found p y x (z ∷ zs) d e = ground (
  arith,
  d.0,
  Differs-found p y x zs d.1,
  eq_iff y.visitor_id x.visitor_id,
  eq_iff x.visitor_id y.visitor_id,
)

found_self :
    (p : Shopper → Bool) (x : Shopper) (xs : List Shopper)
    → Distinct xs
    → find? p xs ≡ some x
    → find? (shopper_of x.visitor_id) xs ≡ some x
found_self p x [] d e = cc
found_self p x (y ∷ ys) d e =
    ground
      (arith, found_self p x ys d.1, Differs-found p y x ys d.0, eq_iff x.visitor_id x.visitor_id)

found_test {ℓ} :
    {A : Type ℓ} (p : A → Bool) (x : A) (xs : List A) → find? p xs ≡ some x → p x ≡ true
found_test p x [] e = cc
found_test p x (y ∷ ys) e = ground (arith, found_test p x ys)

holder_of_token :
    (k : String) (m : Store)
    → m.tokens ≡ map token_entry m.shoppers
    → Distinct m.shoppers
    → visitor_for_token k m ≡ visitor_name (find? (has_token k) m.shoppers)
unfolding visitor_for_token
holder_of_token k m e d = elim (Option-cases (find? (has_token k) m.shoppers)) [
  | inl nobody ↦ ground (arith, e, nobody, find_token k m.shoppers)
  | inr (x, found) ↦
      let own = found_self (has_token k) x m.shoppers d found in
      let his = found_test (has_token k) x m.shoppers found in
      let listed : find? (token_is k) m.tokens ≡ some (token_entry x) =
        rw e (find_token k m.shoppers ∙ rw found refl) in
      ground (arith, listed, own, his, found)
]

pub same_holder :
    (now limit : ℕ) (k : String) (m : Store) (r : RedisRoom)
    → Alike now limit m r
    → AllLive now m.shoppers
    → visitor_for_token k m ≡ Redis.visitor_for_token now k r
same_holder now limit k m r a l =
    holder_of_token k m a.same_tokens a.distinct
    ∙ ap (λ xs. visitor_name (find? (has_token k) xs)) (sym (select-all (is_live now) m.shoppers l))
    ∙ sym (a.token_keys now k (omega arith))

-- the shopper that the Redis store makes up from the key and the score
abbrev pub renamed : String → Option Shopper → Option Shopper
renamed v none = none
renamed v (some x) = some (record { visitor_id = v; token = x.token; expires_at = x.expires_at })

no_key_no_shopper :
    (now : ℕ) (v : String) (r : RedisRoom)
    → get_key now v r.visitors ≡ none
    → Redis.get_shopper now v r ≡ none
unfolding Redis.get_shopper
no_key_no_shopper now v r e = ground (arith, e)

key_and_score :
    (now : ℕ) (v : String) (x : Shopper) (r : RedisRoom)
    → get_key now v r.visitors ≡ some x.token
    → find? (entry_of v) r.shoppers ≡ some (stay_of x)
    → Redis.get_shopper now v r ≡ renamed v (some x)
unfolding Redis.get_shopper
key_and_score now v x r e k = ground (arith, e, k)

pub same_shopper :
    (now limit : ℕ) (v : String) (m : Store) (r : RedisRoom)
    → Alike now limit m r
    → AllLive now m.shoppers
    → Redis.get_shopper now v r ≡ renamed v (get_shopper v m)
unfolding get_shopper
same_shopper now limit v m r a l =
    let key : get_key now v r.visitors ≡ token_of (find? (shopper_of v) m.shoppers) =
      a.visitor_keys now v (omega arith)
      ∙ ap (λ xs. token_of (find? (shopper_of v) xs)) (select-all (is_live now) m.shoppers l) in
    let stay = find_stay v m.shoppers in
    elim (Option-cases (find? (shopper_of v) m.shoppers)) [
      | inl nobody ↦
          let gone : get_key now v r.visitors ≡ none = key ∙ ap token_of nobody in
          rw nobody (no_key_no_shopper now v r gone)
      | inr (x, found) ↦
          let kept : get_key now v r.visitors ≡ some x.token = key ∙ ap token_of found in
          let score : find? (entry_of v) r.shoppers ≡ some (stay_of x) =
            rw a.same_stays (stay ∙ rw found refl) in
          rw found (key_and_score now v x r kept score)
    ]
