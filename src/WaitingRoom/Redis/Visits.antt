-- ===== src/WaitingRoom/Redis/Visits.antt =====
-- The service of the waiting room over the two stores: who is let in, and what a visitor is told.
pub mod Ticks
use arena_onsale.Prelude.{
  ℕ, ◌+◌, ◌-◌, ◌≡◌, ◌≤◌, ◌<◌, refl, String, Bool, true, false, Option, none, some, List, [], ◌∷◌,
  ◌++◌, arith, All, leb, min, length, if◌then◌else◌, inl, inr, Bool-cases, ◌∙◌, sym, ap, subst,
}
use arena_onsale.Prelude.Text.{str_eq}
use arena_onsale.Settings.{Settings, seconds}
use arena_onsale.WaitingRoom.Store.{Shopper, is_live}
use arena_onsale.WaitingRoom.Memory.{
  Store, Entry, memory_store, put_shopper, get_shopper, rank, gc_shoppers,
}
use arena_onsale.WaitingRoom.Service.{
  Standing, admitted, unknown, queued, queue_state, admit, state_of, not_shopping, status, report,
  Status, admits_per_second, epoch_second,
}
use arena_onsale.WaitingRoom.Redis
use arena_onsale.WaitingRoom.Redis.{RedisRoom, redis_store}
use arena_onsale.WaitingRoom.Redis.Alike.{Alike, Differs}
use arena_onsale.WaitingRoom.Redis.Shop.{AllLive, gc_shoppers-Alike}
use arena_onsale.WaitingRoom.Redis.Shop.Reading.{renamed, same_shopper, same_count}
use arena_onsale.WaitingRoom.Redis.Shop.Entering.{
  NotIn, put_shopper-Alike, put_shopper_shoppers, All-append, str_neq_sym,
}
use arena_onsale.WaitingRoom.Redis.Line.{same_rank}
use arena_onsale.WaitingRoom.Redis.Line.Served.{OnlyOnce, NotShopping}

-- the answer to a visitor, from what the store says of him
abbrev standing : Settings → ℕ → Option Shopper → Option ℕ → Standing
standing cfg now x r = elim x [
  | none ↦ elim r [ none ↦ unknown | some i ↦ queue_state cfg i ]
  | some y ↦
      if is_live now y
      then admitted y.token y.expires_at
      else elim r [ none ↦ unknown | some i ↦ queue_state cfg i ]
]

standing-renamed :
    (cfg : Settings) (now : ℕ) (v : String) (x : Option Shopper) (r : Option ℕ)
    → standing cfg now (renamed v x) r ≡ standing cfg now x r
standing-renamed cfg now v none r = refl
standing-renamed cfg now v (some x) r = refl

pub same_state :
    (cfg : Settings) (now limit : ℕ) (v : String) (m : Store) (r : RedisRoom)
    → Alike now limit m r
    → AllLive now m.shoppers
    → state_of memory_store cfg now v m ≡ state_of (redis_store now) cfg now v r
unfolding state_of
same_state cfg now limit v m r a l =
    sym (standing-renamed cfg now v (get_shopper v m) (rank v m))
    ∙ ap (λ x. standing cfg now x (rank v m)) (sym (same_shopper now limit v m r a l))
    ∙ ap (λ i. standing cfg now (Redis.get_shopper now v r) i) (same_rank now limit v m r a)

-- the tokens of the shoppers are not among those to come from number `i` on
abbrev pub TokensToCome : (ℕ → String) → ℕ → List Shopper → Type 0
TokensToCome f i xs = All (λ x. (j : ℕ) → i ≤ j → str_eq x.token (f j) ≡ false) xs

-- no two tokens of a call are the same
abbrev pub EachNew : (ℕ → String) → Type 0
EachNew f = (i j : ℕ) → i < j → str_eq (f i) (f j) ≡ false

to_come_later :
    (f : ℕ → String) (i : ℕ) (xs : List Shopper) → TokensToCome f i xs → TokensToCome f (i + 1) xs
to_come_later f i [] t = tt
to_come_later f i (x ∷ xs) t = (λ j h. t.0 j (omega (arith, h)), to_come_later f i xs t.1)

newcomer :
    (f : ℕ → String) (i : ℕ) (x : Shopper) (xs : List Shopper)
    → x.token ≡ f i
    → TokensToCome f i xs
    → NotShopping xs x.visitor_id
    → All (Differs x) xs
newcomer f i x [] e t n = tt
newcomer f i x (y ∷ ys) e t n = ((n.0, rw e (t.0 i (omega arith))), newcomer f i x ys e t.1 n.1)

still_not_shopping :
    (x : Shopper) (xs : List Shopper) (vs : List String)
    → All (NotShopping xs) vs
    → All (λ w. str_eq w x.visitor_id ≡ false) vs
    → All (NotShopping (xs ++ x ∷ [])) vs
still_not_shopping x xs [] a o = tt
still_not_shopping x xs (w ∷ ws) a o = (
  All-append (λ y. str_eq y.visitor_id w ≡ false) x xs a.0 (str_neq_sym w x.visitor_id o.0),
  still_not_shopping x xs ws a.1 o.1,
)

put_shopper-queue : (x : Shopper) (m : Store) → (put_shopper x m).queue ≡ m.queue
unfolding put_shopper
put_shopper-queue x m = refl

-- Both stores let the same visitors in, one after the other.
pub admit-Alike :
    (now limit ttl i : ℕ) (f : ℕ → String) (vs : List String) (m : Store) (r : RedisRoom)
    → Alike now limit m r
    → EachNew f
    → TokensToCome f i m.shoppers
    → OnlyOnce vs
    → All (NotShopping m.shoppers) vs
    → All (λ v. NotIn v m.queue) vs
    → Alike now limit
        (admit memory_store f i ttl (now + seconds ttl) vs m)
        (admit (redis_store now) f i ttl (now + seconds ttl) vs r)
unfolding admit
admit-Alike now limit ttl i f [] m r a new t o n q = a
admit-Alike now limit ttl i f (v ∷ vs) m r a new t o n q =
    let x : Shopper = record { visitor_id = v; token = f i; expires_at = now + seconds ttl } in
    let grown = put_shopper_shoppers x m n.0 in
    admit-Alike now limit ttl (i + 1) f vs (put_shopper x m) (Redis.put_shopper now x ttl r)
      (put_shopper-Alike now limit ttl x m r a (newcomer f i x m.shoppers refl t n.0) q.0 refl) new
      (rw grown (
        All-append (λ y. (j : ℕ) → i + 1 ≤ j → str_eq y.token (f j) ≡ false) x m.shoppers
          (to_come_later f i m.shoppers t) (λ j h. new i j (omega (arith, h)))))
      o.1 (rw grown (still_not_shopping x m.shoppers vs n.1 o.0)) (rw (put_shopper-queue x m) q.1)
