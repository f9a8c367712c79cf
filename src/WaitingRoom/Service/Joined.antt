-- ===== src/WaitingRoom/Service/Joined.antt =====
-- Who has joined waits or shops, over the memory store.
use arena_onsale.Prelude.{
  ℕ, ◌+◌, ◌≡◌, ◌≢◌, ◌≤◌, ◌<◌, refl, String, Bool, true, false, not, none, some, List, [], ◌∷◌,
  arith, leb, if◌then◌else◌, inl, inr, ◌⊎◌, Bool-cases, ◌∙◌, sym,
}
use arena_onsale.Prelude.Query.{find?, select, count_where}
use arena_onsale.Prelude.Text.{str_eq, eq_iff}
use arena_onsale.Settings.{Settings, seconds}
use arena_onsale.WaitingRoom.Store.{Shopper, is_live}
use arena_onsale.WaitingRoom.Memory.{
  Store, Entry, memory_store, entry_of, shopper_of, among, by_score, insert_entry, index, assign,
  put_shopper, gc_shoppers, pop_front, take_rate_tokens, rank, visitors, has_expired,
}
use arena_onsale.WaitingRoom.Service.Bulkhead.{
  same_queue, same_shoppers, slots, per_second, let_in, tick_nobody, tick_some,
}
use arena_onsale.WaitingRoom.Service.{admit, admit_tick, epoch_second}

-- how often a visitor stands in the queue
abbrev pub places : String → List Entry → ℕ
places v q = count_where (entry_of v) q

-- he is a live shopper
abbrev pub Shops : ℕ → String → Store → Type 0
Shops now v s = (x : Shopper) × (find? (shopper_of v) s.shoppers ≡ some x) × (is_live now x ≡ true)

-- he waits or shops
abbrev pub IsIn : ℕ → String → Store → Type 0
IsIn now v s = (1 ≤ places v s.queue) ⊎ Shops now v s

places-insert :
    (v : String) (e : Entry) (q : List Entry) → places v (insert_entry e q) ≡ places v (e ∷ q)
places-insert v e [] = refl
places-insert v e (f ∷ fs) = ground (arith, places-insert v e fs)

places-by_score : (v : String) (q : List Entry) → places v (by_score q) ≡ places v q
unfolding by_score
places-by_score v [] = refl
places-by_score v (e ∷ q) = ground (arith, places-insert v e (by_score q), places-by_score v q)

ranked : (v : String) (q : List Entry) → index v q ≡ none → places v q ≡ 0
ranked v [] e = refl
ranked v (f ∷ fs) e = ground (arith, e, ranked v fs)

-- a visitor in the queue has a rank
pub rank-places : (v : String) (s : Store) → 1 ≤ places v s.queue → rank v s ≢ none
unfolding rank
rank-places v s h e = omega (arith, h, ranked v (by_score s.queue) e, places-by_score v s.queue)

abbrev taken_name : String → List Entry → Bool
taken_name v taken = among taken (record { visitor_id = v; score = 0 })

same_name :
    (taken : List Entry) (v : String) (e : Entry)
    → entry_of v e ≡ true
    → among taken e ≡ taken_name v taken
same_name [] v e h = refl
same_name (x ∷ xs) v e h = ground (arith, h, same_name xs v e h, eq_iff e.visitor_id v)

-- those of his places that a pop leaves
left_places :
    (taken : List Entry) (v : String) (q : List Entry)
    → taken_name v taken ≡ false
    → places v (select (λ e. not (among taken e)) q) ≡ places v q
left_places taken v [] h = refl
left_places taken v (e ∷ q) h = ground (arith, h, same_name taken v e, left_places taken v q h)

-- the name is one of the names
abbrev names : String → List String → Bool
names v [] = false
names v (w ∷ ws) = if str_eq w v then true else names v ws

taken-names : (v : String) (taken : List Entry) → taken_name v taken ≡ names v (visitors taken)
taken-names v [] = refl
taken-names v (x ∷ xs) =
    ground (arith, taken-names v xs, eq_iff v x.visitor_id, eq_iff x.visitor_id v)

find-assign :
    (v : String) (x : Shopper) (xs : List Shopper)
    → find? (shopper_of v) (assign (shopper_of x.visitor_id) x xs)
      ≡ (if str_eq x.visitor_id v then some x else find? (shopper_of v) xs)
find-assign v x [] = ground arith
find-assign v x (y ∷ ys) = ground (
  arith,
  find-assign v x ys,
  eq_iff x.visitor_id v,
  eq_iff y.visitor_id v,
  eq_iff y.visitor_id x.visitor_id,
)

Shops-put :
    (now : ℕ) (v : String) (x : Shopper) (s : Store)
    → is_live now x ≡ true
    → (str_eq x.visitor_id v ≡ true) ⊎ Shops now v s
    → Shops now v (put_shopper x s)
unfolding put_shopper
Shops-put now v x s live (inl own) = (x, ground (arith, own, find-assign v x s.shoppers), live)
Shops-put now v x s live (inr (y, found, live')) = elim (Bool-cases (str_eq x.visitor_id v)) [
  | inl own ↦ (x, ground (arith, own, find-assign v x s.shoppers), live)
  | inr other ↦ (y, ground (arith, other, found, find-assign v x s.shoppers), live')
]

admit-Shops :
    (now i ttl until : ℕ) (f : ℕ → String) (v : String) (vs : List String) (s : Store)
    → now < until
    → (names v vs ≡ true) ⊎ Shops now v s
    → Shops now v (admit memory_store f i ttl until vs s)
unfolding admit
admit-Shops now i ttl until f v [] s h (inl absurd_) = absurd cc
admit-Shops now i ttl until f v [] s h (inr k) = k
admit-Shops now i ttl until f v (w ∷ ws) s h k =
    let x : Shopper = record { visitor_id = w; token = f i; expires_at = until } in
    let live : is_live now x ≡ true = ground (arith, h) in
    admit-Shops now (i + 1) ttl until f v ws (put_shopper x s) h (elim k [
      | inl named ↦ elim (Bool-cases (str_eq w v)) [
        | inl own ↦ inr (Shops-put now v x s live (inl own))
        | inr other ↦ inl (ground (arith, named, other))
      ]
      | inr shops ↦ inr (Shops-put now v x s live (inr shops))
    ])

admit-queue :
    (i ttl until : ℕ) (f : ℕ → String) (vs : List String) (s : Store)
    → (admit memory_store f i ttl until vs s).queue ≡ s.queue
unfolding admit put_shopper
admit-queue i ttl until f [] s = refl
admit-queue i ttl until f (v ∷ vs) s = admit-queue (i + 1) ttl until f vs _

find-staying :
    (now : ℕ) (p : Shopper → Bool) (x : Shopper) (xs : List Shopper)
    → find? p xs ≡ some x
    → is_live now x ≡ true
    → find? p (select (λ y. not (has_expired now y)) xs) ≡ some x
find-staying now p x [] e l = cc
find-staying now p x (y ∷ ys) e l = ground (arith, e, l, find-staying now p x ys)

pub gc-IsIn : (now : ℕ) (v : String) (s : Store) → IsIn now v s → IsIn now v (gc_shoppers now s)
unfolding gc_shoppers
gc-IsIn now v s (inl waits) = inl waits
gc-IsIn now v s (inr (x, found, live)) =
    inr (x, find-staying now (shopper_of v) x s.shoppers found live, live)

module _ (cfg : Settings) (f : ℕ → String) (now : ℕ) (v : String)
    (stays : 1 ≤ cfg.shopping_ttl_seconds) where
  abbrev until : ℕ
  until = now + seconds cfg.shopping_ttl_seconds

  admit_one-IsIn :
      (n : ℕ) (s : Store)
      → IsIn now v s
      → let (taken, s') = pop_front n s in
        IsIn now v (admit memory_store f 0 cfg.shopping_ttl_seconds until (visitors taken) s')
  unfolding pop_front
  admit_one-IsIn n s k =
      let (taken, s') = pop_front n s in
      let ends : now < until = omega (arith, stays) in
      let entered = admit-Shops now 0 cfg.shopping_ttl_seconds until f v (visitors taken) s' ends in
      elim k [
        | inl waits ↦ elim (Bool-cases (taken_name v taken)) [
          | inl called ↦ inr (entered (inl (sym (taken-names v taken) ∙ called)))
          | inr left ↦ inl (
              rw (admit-queue 0 cfg.shopping_ttl_seconds until f (visitors taken) s')
                (omega (arith, waits, left_places taken v s.queue left)))
        ]
        | inr shops ↦ inr (entered (inr shops))
      ]

  taken-IsIn :
      (second limit wanted : ℕ) (s : Store)
      → IsIn now v s
      → IsIn now v (take_rate_tokens second limit wanted s).1
  taken-IsIn second limit wanted s k =
      rw (same_queue second limit wanted s) (rw (same_shoppers second limit wanted s) k)

  -- A tick loses nobody.
  pub tick-IsIn : (s : Store) → IsIn now v s → IsIn now v (admit_tick memory_store cfg f now s).1
  tick-IsIn s k =
      let rated =
        taken-IsIn (epoch_second now) (per_second cfg f now s) (slots cfg f now s)
          (gc_shoppers now s) (gc-IsIn now v s k) in
      elim (Bool-cases (leb (let_in cfg f now s) 0)) [
        | inl nobody ↦ rw (tick_nobody cfg f now s nobody) rated
        | inr some_in ↦
            rw (tick_some cfg f now s some_in) (admit_one-IsIn (let_in cfg f now s) _ rated)
      ]
