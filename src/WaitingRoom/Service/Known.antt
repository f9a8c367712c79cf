-- ===== src/WaitingRoom/Service/Known.antt =====
-- The answer to a join, over the memory store.
use arena_onsale.Prelude.{
  ℕ, ◌≡◌, ◌≢◌, ◌≤◌, refl, String, Bool, not, some, List, [], ◌∷◌, ◌++◌, arith, inl, inr,
  Option-cases, ap,
}
use arena_onsale.Prelude.Query.{find?, select}
use arena_onsale.Prelude.Text.{eq_iff}
use arena_onsale.Settings.{Settings}
use arena_onsale.WaitingRoom.Store.{Shopper}
use arena_onsale.WaitingRoom.Memory.{
  Store, Entry, TokenOf, memory_store, entry_of, gc_shoppers, enqueue, next_score, rank,
  get_shopper, has_expired, token_among,
}
use arena_onsale.WaitingRoom.Service.{
  Standing, admitted, queued, unknown, Status, state_of, status, admit_tick, join_as,
}
use arena_onsale.WaitingRoom.Redis.Calls.{after_status, join_shape}
use arena_onsale.WaitingRoom.Service.Joined.{places, IsIn, rank-places, gc-IsIn, tick-IsIn}

-- who waits or shops is not unknown
known_state :
    (cfg : Settings) (now : ℕ) (v : String) (s : Store)
    → IsIn now v s
    → state_of memory_store cfg now v s ≢ unknown
unfolding state_of get_shopper
known_state cfg now v s (inl waits) e = elim (Option-cases (rank v s)) [
  | inl no_rank ↦ rank-places v s waits no_rank
  | inr (i, ranked) ↦ ground (arith, e, ranked)
]
known_state cfg now v s (inr (x, found, live)) e = ground (arith, e, found, live)

pub status-IsIn :
    (cfg : Settings) (now : ℕ) (v : String) (s : Store)
    → IsIn now v s
    → (status memory_store cfg now v s).0.state ≢ unknown
unfolding status
status-IsIn cfg now v s k = known_state cfg now v (gc_shoppers now s) (gc-IsIn now v s k)

enqueue-places : (v : String) (score : ℕ) (s : Store) → 1 ≤ places v (enqueue v score s).1.queue
unfolding enqueue
enqueue-places v score s = elim (Option-cases (find? (entry_of v) s.queue)) [
  | inl new ↦ ground (arith, new, last_place v score s.queue)
  | inr (e, found) ↦ ground (arith, found, found_place v e s.queue)
]
  where
    last_place :
        (v : String) (score : ℕ) (q : List Entry)
        → 1 ≤ places v (q ++ record { visitor_id = v; score = score } ∷ [])
    last_place v score [] = ground (arith, eq_iff v v)
    last_place v score (e ∷ q) = ground (arith, last_place v score q)

    found_place :
        (v : String) (e : Entry) (q : List Entry) → find? (entry_of v) q ≡ some e → 1 ≤ places v q
    found_place v e [] k = cc
    found_place v e (f ∷ q) k = ground (arith, k, found_place v e q)

module _ (cfg : Settings) (f : ℕ → String) (now : ℕ) (v : String)
    (stays : 1 ≤ cfg.shopping_ttl_seconds) where
  told_known :
      (st : Standing) (x : Status) (s : Store)
      → x.state ≡ st
      → (after_status memory_store cfg f now v st x s).0.state ≢ unknown
  told_known unknown x s e k =
      let (score, s₂) = next_score s in
      let s₃ : Store = (enqueue v score s₂).1 in
      status-IsIn cfg now v (admit_tick memory_store cfg f now s₃).1
        (tick-IsIn cfg f now v stays s₃ (inl (enqueue-places v score s₂))) k
  told_known (admitted token until) x s e k = ground (arith, e, k)
  told_known (queued position wait) x s e k = ground (arith, e, k)

  -- Who joins is told that he is in, or his place in the queue.
  pub join_as-known : (s : Store) → (join_as memory_store cfg f now v s).0.state ≢ unknown
  join_as-known s =
      let (x, s') = status memory_store cfg now v s in
      rw (join_shape memory_store cfg f now v s) (told_known x.state x s' refl)

select_again : {A : Type 0} (p : A → Bool) (xs : List A) → select p (select p xs) ≡ select p xs
select_again p [] = refl
select_again p (x ∷ xs) = ground (arith, select_again p xs)

nobody_expired :
    (now : ℕ) (xs : List Shopper)
    → select (has_expired now) (select (λ x. not (has_expired now x)) xs) ≡ []
nobody_expired now [] = refl
nobody_expired now (x ∷ xs) = ground (arith, nobody_expired now xs)

all_tokens : (ts : List TokenOf) → select (λ e. not (token_among [] e)) ts ≡ ts
all_tokens [] = refl
all_tokens (t ∷ ts) = ap (λ us. t ∷ us) (all_tokens ts)

gc_again : (now : ℕ) (s : Store) → gc_shoppers now (gc_shoppers now s) ≡ gc_shoppers now s
unfolding gc_shoppers
gc_again now s =
    let rest = select (λ x. not (has_expired now x)) s.shoppers in
    let kept = select (λ e. not (token_among (select (has_expired now) s.shoppers) e)) s.tokens in
    rw (nobody_expired now s.shoppers) (
      rw (all_tokens kept) (
        ap (λ xs. record s { shoppers = xs; tokens = kept })
          (select_again (λ x. not (has_expired now x)) s.shoppers)))

-- asked again at the same time, the answer is the same
pub status-status :
    (cfg : Settings) (now : ℕ) (v : String) (s : Store)
    → let (x, s') = status memory_store cfg now v s in status memory_store cfg now v s' ≡ (x, s')
unfolding status
status-status cfg now v s = rw (gc_again now s) refl

told_again :
    (cfg : Settings) (f : ℕ → String) (now : ℕ) (v : String) (st : Standing) (x : Status)
    (s : Store)
    → status memory_store cfg now v s ≡ (x, s)
    → let (y, s') = after_status memory_store cfg f now v st x s in
      status memory_store cfg now v s' ≡ (y, s')
told_again cfg f now v unknown x s e =
    let (score, s₂) = next_score s in
    let s₃ : Store = (enqueue v score s₂).1 in
    status-status cfg now v (admit_tick memory_store cfg f now s₃).1
told_again cfg f now v (admitted token until) x s e = e
told_again cfg f now v (queued position wait) x s e = e

-- the status that is asked right after a join is the join's
pub status-join_as :
    (cfg : Settings) (f : ℕ → String) (now : ℕ) (v : String) (s : Store)
    → let (x, s') = join_as memory_store cfg f now v s in status memory_store cfg now v s' ≡ (x, s')
status-join_as cfg f now v s =
    let (x, s') = status memory_store cfg now v s in
    rw (join_shape memory_store cfg f now v s)
      (told_again cfg f now v x.state x s' (status-status cfg now v s))
