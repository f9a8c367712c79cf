-- ===== src/WaitingRoom/Redis/Shop/Entering.antt =====
-- A visitor who enters the shop, in both stores.
use arena_onsale.Prelude.{
  ℕ, ◌+◌, ◌≡◌, refl, String, Bool, true, false, none, some, List, [], ◌∷◌, ◌++◌, map, arith, All,
  ltb, if◌then◌else◌, ◌∙◌, sym, ap,
}
use arena_onsale.Prelude.Query.{find?, select}
use arena_onsale.Prelude.Text.{str_eq, eq_iff}
use arena_onsale.Settings.{seconds}
use arena_onsale.WaitingRoom.Store.{Shopper, is_live}
use arena_onsale.WaitingRoom.Memory.{
  Store, Entry, assign, shopper_of, token_is, put_shopper, entry_of,
}
use arena_onsale.WaitingRoom.Redis
use arena_onsale.WaitingRoom.Redis.{RedisRoom, Key, named, get_key, set_key}
use arena_onsale.WaitingRoom.Redis.Alike.{
  SameRate-kept, Alike, Apart, Differs, Distinct, stay_of, token_entry, has_token,
}

assign-map :
    {B : Type 0} (f : Shopper → B) (p : B → Bool) (x : Shopper) (xs : List Shopper)
    → All (λ y. p (f y) ≡ false) xs
    → assign p (f x) (map f xs) ≡ map f (xs ++ x ∷ [])
assign-map f p x [] a = refl
assign-map f p x (y ∷ ys) a = ground (arith, a.0, assign-map f p x ys a.1)

assign_new :
    (p : Shopper → Bool) (x : Shopper) (xs : List Shopper)
    → All (λ y. p y ≡ false) xs
    → assign p x xs ≡ xs ++ x ∷ []
assign_new p x [] a = refl
assign_new p x (y ∷ ys) a = ground (arith, a.0, assign_new p x ys a.1)

find-set_key :
    (name value v : String) (until : ℕ) (ks : List Key)
    → find? (named v) (set_key name value until ks) ≡ (
        if str_eq name v
        then some (record { name = name; value = value; until = until })
        else find? (named v) ks)
find-set_key name value v until [] = ground arith
find-set_key name value v until (k ∷ ks) =
    ground (
      arith,
      find-set_key name value v until ks,
      eq_iff k.name name,
      eq_iff k.name v,
      eq_iff name v,
    )

get-set_key :
    (t until : ℕ) (name value v : String) (ks : List Key)
    → get_key t v (set_key name value until ks)
      ≡ (if str_eq name v then if ltb t until then some value else none else get_key t v ks)
get-set_key t until name value v ks = ground (arith, find-set_key name value v until ks)

find-appended :
    (q p : Shopper → Bool) (x : Shopper) (xs : List Shopper)
    → All (λ y. q x ≡ true → q y ≡ false) xs
    → find? q (select p (xs ++ x ∷ []))
      ≡ (if q x then if p x then some x else none else find? q (select p xs))
find-appended q p x [] a = ground arith
find-appended q p x (y ∷ ys) a = ground (arith, a.0, find-appended q p x ys a.1)

pub All-append :
    (P : Shopper → Type 0) (x : Shopper) (xs : List Shopper) → All P xs → P x → All P (xs ++ x ∷ [])
All-append P x [] a h = (h, tt)
All-append P x (y ∷ ys) a h = (a.0, All-append P x ys a.1 h)

pub str_neq_sym : (s t : String) → str_eq s t ≡ false → str_eq t s ≡ false
str_neq_sym s t e = ground (arith, eq_iff s t, eq_iff t s, e)

Distinct-append :
    (x : Shopper) (xs : List Shopper) → Distinct xs → All (Differs x) xs → Distinct (xs ++ x ∷ [])
Distinct-append x [] d a = (tt, tt)
Distinct-append x (y ∷ ys) d a = (
  All-append (Differs y) x ys d.0
      (str_neq_sym y.visitor_id x.visitor_id a.0.0, str_neq_sym y.token x.token a.0.1),
  Distinct-append x ys d.1 a.1,
)

-- who waits is not the one who enters
abbrev pub NotIn : String → List Entry → Type 0
NotIn v q = All (λ e. str_eq v e.visitor_id ≡ false) q

Apart-append :
    (now : ℕ) (x : Shopper) (xs : List Shopper) (q : List Entry)
    → All (Apart now xs) q
    → NotIn x.visitor_id q
    → All (Apart now (xs ++ x ∷ [])) q
Apart-append now x xs [] a n = tt
Apart-append now x xs (e ∷ q) a n = (
  All-append (λ y. is_live now y ≡ true → str_eq y.visitor_id e.visitor_id ≡ false) x xs a.0
      (λ live. n.0),
  Apart-append now x xs q a.1 n.1,
)

pub other_names :
    (x : Shopper) (xs : List Shopper)
    → All (Differs x) xs
    → All (λ y. str_eq y.visitor_id x.visitor_id ≡ false) xs
other_names x [] a = tt
other_names x (y ∷ ys) a = (a.0.0, other_names x ys a.1)

other_tokens :
    (x : Shopper) (xs : List Shopper)
    → All (Differs x) xs
    → All (λ y. str_eq y.token x.token ≡ false) xs
other_tokens x [] a = tt
other_tokens x (y ∷ ys) a = (a.0.1, other_tokens x ys a.1)

named_else :
    (v : String) (x : Shopper) (xs : List Shopper)
    → All (Differs x) xs
    → All (λ y. shopper_of v x ≡ true → shopper_of v y ≡ false) xs
named_else v x [] a = tt
named_else v x (y ∷ ys) a = (
  λ e. ground (
    arith,
    e,
    a.0.0,
    eq_iff x.visitor_id v,
    eq_iff y.visitor_id v,
    eq_iff y.visitor_id x.visitor_id,
  ),
  named_else v x ys a.1,
)

token_else :
    (k : String) (x : Shopper) (xs : List Shopper)
    → All (Differs x) xs
    → All (λ y. has_token k x ≡ true → has_token k y ≡ false) xs
token_else k x [] a = tt
token_else k x (y ∷ ys) a = (
  λ e. ground (arith, e, a.0.1, eq_iff x.token k, eq_iff y.token k, eq_iff y.token x.token),
  token_else k x ys a.1,
)

-- Rooms that are alike stay alike when somebody enters under a new token who neither shops nor waits,
-- and whose stay ends when the time to live of his keys does.
pub put_shopper-Alike :
    (now limit ttl : ℕ) (x : Shopper) (m : Store) (r : RedisRoom)
    → Alike now limit m r
    → All (Differs x) m.shoppers
    → NotIn x.visitor_id m.queue
    → x.expires_at ≡ now + seconds ttl
    → Alike now limit (put_shopper x m) (Redis.put_shopper now x ttl r)
unfolding put_shopper Redis.put_shopper
put_shopper-Alike now limit ttl x m r a d n e =
    let xs = m.shoppers in
    let names = other_names x xs d in
    let grown : assign (shopper_of x.visitor_id) x xs ≡ xs ++ x ∷ [] =
      assign_new (shopper_of x.visitor_id) x xs names in
    record {
      same_queue = a.same_queue;
      same_seq = a.same_seq;
      in_line = a.in_line;
      same_stays =
          rw a.same_stays
            (assign-map stay_of (entry_of x.visitor_id) x xs names ∙ ap (map stay_of) (sym grown));
      same_tokens = rw a.same_tokens (
          assign-map token_entry (token_is x.token) x xs (other_tokens x xs d)
          ∙ ap (map token_entry) (sym grown));
      distinct = rw grown (Distinct-append x xs a.distinct d);
      apart = rw grown (Apart-append now x xs m.queue a.apart n);
      visitor_keys = λ t v h. rw grown (
          ground (
            arith,
            e,
            get-set_key t (now + seconds ttl) x.visitor_id x.token v r.visitors,
            find-appended (shopper_of v) (is_live t) x xs (named_else v x xs d),
            a.visitor_keys t v h,
          ));
      token_keys = λ t k h. rw grown (
          ground (
            arith,
            e,
            get-set_key t (now + seconds ttl) x.token x.visitor_id k r.tokens,
            find-appended (has_token k) (is_live t) x xs (token_else k x xs d),
            a.token_keys t k h,
          ));
      same_rate = SameRate-kept limit m _ r _ refl refl a.same_rate;
    }

pub put_shopper_shoppers :
    (x : Shopper) (m : Store)
    → All (λ y. str_eq y.visitor_id x.visitor_id ≡ false) m.shoppers
    → (put_shopper x m).shoppers ≡ m.shoppers ++ x ∷ []
unfolding put_shopper
put_shopper_shoppers x m a = assign_new (shopper_of x.visitor_id) x m.shoppers a
