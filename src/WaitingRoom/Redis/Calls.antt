-- ===== src/WaitingRoom/Redis/Calls.antt =====
-- Whole calls of the service over the two stores, and sequences of them.
pub mod Answers
use arena_onsale.Prelude.{
  ℕ, ◌+◌, ◌≡◌, ◌≤◌, ◌<◌, refl, String, Bool, true, false, Option, none, some, List, [], ◌∷◌, arith,
  All, length, if◌then◌else◌, inl, inr, Bool-cases, Option-cases, ◌∙◌, sym, ap, subst,
}
use arena_onsale.Prelude.Query.{find?}
use arena_onsale.Prelude.Text.{str_eq, strip, is_empty_text}
use arena_onsale.Settings.{Settings}
use arena_onsale.WaitingRoom.Store.{Shopper, is_live, WaitingRoomStore}
use arena_onsale.WaitingRoom.Memory.{
  Store, Entry, memory_store, gc_shoppers, get_shopper, rank, shopper_of, queue_size, shopper_count,
}
use arena_onsale.WaitingRoom.Service.{
  Standing, admitted, unknown, queued, queue_state, Status, Stats, state_of, status, report,
  join_as, join, visitor_of, stats, admit_tick, admits_per_second,
}
use arena_onsale.WaitingRoom.Redis
use arena_onsale.WaitingRoom.Redis.{RedisRoom, redis_store}
use arena_onsale.WaitingRoom.Redis.Alike.{Alike, Apart}
use arena_onsale.WaitingRoom.Redis.Shop.{AllLive, gc_shoppers-Alike}
use arena_onsale.WaitingRoom.Redis.Shop.Reading.{same_count, same_holder}
use arena_onsale.WaitingRoom.Redis.Shop.Entering.{NotIn}
use arena_onsale.WaitingRoom.Redis.Line.{rank-NotIn, joined, enqueue_new, enqueue-Alike}
use arena_onsale.WaitingRoom.Redis.Visits.{same_state, EachNew, TokensToCome}
use arena_onsale.WaitingRoom.Redis.Visits.Ticks.{
  BothAlike, admit_tick-Alike, admit_tick-tokens, gc-tokens,
}

-- the same answer, and rooms that are alike
module _ {A : Type 0} where
  abbrev pub SameAnswer : ℕ → ℕ → A × Store → A × RedisRoom → Type 0
  SameAnswer now limit x y = (x.0 ≡ y.0) × Alike now limit x.1 y.1

same_report :
    (now limit : ℕ) (st : Standing) (v : String) (m : Store) (r : RedisRoom)
    → Alike now limit m r
    → AllLive now m.shoppers
    → (report memory_store st v now m).0 ≡ (report (redis_store now) st v now r).0
same_report now limit st v m r a l =
    ap (λ n. record { state = st; visitor_id = v; in_queue = length m.queue; in_shop = n })
      (same_count now limit m r a l)
    ∙ ap
        (λ q. record {
          state = st;
          visitor_id = v;
          in_queue = length q;
          in_shop = Redis.shopper_count now r;
        })
        (sym a.same_queue)

-- An answer to `status` is the same over both stores; the rooms stay alike, without the expired.
pub status-Same :
    (cfg : Settings) (now limit : ℕ) (v : String) (m : Store) (r : RedisRoom)
    → Alike now limit m r
    → SameAnswer now limit (status memory_store cfg now v m) (status (redis_store now) cfg now v r)
unfolding status
status-Same cfg now limit v m r a =
    let (a', l) = gc_shoppers-Alike now limit m r a in
    let m' = gc_shoppers now m in
    let r' = Redis.gc_shoppers now r in
    let told = same_state cfg now limit v m' r' a' l in
    (
      same_report now limit (state_of memory_store cfg now v m') v m' r' a' l
          ∙ ap (λ st. (report (redis_store now) st v now r').0) told,
      a',
    )

absent : (v : String) (m : Store) → get_shopper v m ≡ none → find? (shopper_of v) m.shoppers ≡ none
unfolding get_shopper
absent v m e = e

found_live :
    (now : ℕ) (p : Shopper → Bool) (x : Shopper) (xs : List Shopper)
    → AllLive now xs
    → find? p xs ≡ some x
    → is_live now x ≡ true
found_live now p x [] l e = cc
found_live now p x (y ∷ ys) l e = ground (arith, l.0, found_live now p x ys l.1)

-- who is unknown neither shops nor waits
unknown_state :
    (cfg : Settings) (now : ℕ) (v : String) (m : Store)
    → AllLive now m.shoppers
    → state_of memory_store cfg now v m ≡ unknown
    → (get_shopper v m ≡ none) × (rank v m ≡ none)
unfolding state_of get_shopper
unknown_state cfg now v m l e = elim (Option-cases (find? (shopper_of v) m.shoppers)) [
  | inl nobody ↦ (nobody, ground (arith, e, nobody))
  | inr (x, found) ↦
      absurd (ground (arith, e, found, found_live now (shopper_of v) x m.shoppers l found))
]

nobody_named :
    (now n : ℕ) (v : String) (xs : List Shopper)
    → find? (shopper_of v) xs ≡ none
    → Apart now xs (record { visitor_id = v; score = n })
nobody_named now n v [] e = tt
nobody_named now n v (x ∷ xs) e =
    (λ live. ground (arith, e), nobody_named now n v xs (ground (arith, e)))

module _ (store : WaitingRoomStore) (cfg : Settings) (f : ℕ → String) (now : ℕ) (v : String) where
  -- what a join does for a visitor who is unknown
  abbrev pub joins : store.State → Status × store.State
  joins s =
      let (score, s₂) = store.next_score s in
      let (_, s₃) = store.enqueue v score s₂ in
      let (_, s₄) = admit_tick store cfg f now s₃ in status store cfg now v s₄

  abbrev pub after_status : Standing → Status → store.State → Status × store.State
  after_status unknown current s = joins s
  after_status (admitted token until) current s = (current, s)
  after_status (queued position wait) current s = (current, s)

  pub join_shape :
      (s : store.State)
      → let (current, s') = status store cfg now v s in
        join_as store cfg f now v s ≡ after_status current.state current s'
  unfolding join_as
  join_shape s = ground arith

module _ (cfg : Settings) (f : ℕ → String) (now : ℕ) (v : String) where
  abbrev per_second : ℕ
  per_second = admits_per_second cfg.waiting_room_admit_per_minute

  memory_joins :
      (m : Store)
      → NotIn v m.queue
      → joins memory_store cfg f now v m
        ≡ status memory_store cfg now v (admit_tick memory_store cfg f now (joined v m)).1
  memory_joins m n =
      ap (λ s. status memory_store cfg now v (admit_tick memory_store cfg f now s).1)
        (enqueue_new v m n)

  joins-Same :
      (m : Store) (r : RedisRoom)
      → Alike now per_second m r
      → EachNew f
      → TokensToCome f 0 m.shoppers
      → NotIn v m.queue
      → find? (shopper_of v) m.shoppers ≡ none
      → SameAnswer now per_second
          (joins memory_store cfg f now v m)
          (joins (redis_store now) cfg f now v r)
  joins-Same m r a new t n e =
      let a' =
        enqueue-Alike now per_second v m r a n (nobody_named now (m.seq + 1) v m.shoppers e) in
      let (_, a'') = admit_tick-Alike cfg f now (joined v m) _ a' new t in
      rw (memory_joins m n) (status-Same cfg now per_second v _ _ a'')

  after_status-Same :
      (st : Standing) (x : Status) (m : Store) (r : RedisRoom)
      → Alike now per_second m r
      → EachNew f
      → TokensToCome f 0 m.shoppers
      → (st ≡ unknown → NotIn v m.queue × (find? (shopper_of v) m.shoppers ≡ none))
      → SameAnswer now per_second
          (after_status memory_store cfg f now v st x m)
          (after_status (redis_store now) cfg f now v st x r)
  after_status-Same unknown x m r a new t h = joins-Same m r a new t (h refl).0 (h refl).1
  after_status-Same (admitted token until) x m r a new t h = (refl, a)
  after_status-Same (queued position wait) x m r a new t h = (refl, a)

  -- A join is answered alike over both stores, if its tokens are new.
  pub join_as-Same :
      (m : Store) (r : RedisRoom)
      → Alike now per_second m r
      → EachNew f
      → TokensToCome f 0 m.shoppers
      → SameAnswer now per_second
          (join_as memory_store cfg f now v m)
          (join_as (redis_store now) cfg f now v r)
  unfolding status
  join_as-Same m r a new t =
      let (a', l) = gc_shoppers-Alike now per_second m r a in
      let m' = gc_shoppers now m in
      let r' = Redis.gc_shoppers now r in
      let x = (status memory_store cfg now v m).0 in
      let y = (status (redis_store now) cfg now v r).0 in
      let told : x ≡ y = (status-Same cfg now per_second v m r a).0 in
      let newcomer : x.state ≡ unknown
          → NotIn v m'.queue × (find? (shopper_of v) m'.shoppers ≡ none) =
        λ e.
          let (nobody, no_rank) = unknown_state cfg now v m' l e in
          (rank-NotIn v m' a'.in_line no_rank, absent v m' nobody) in
      rw (join_shape memory_store cfg f now v m) (
        rw (join_shape (redis_store now) cfg f now v r) (
          subst
            (λ z.
              SameAnswer now per_second (after_status memory_store cfg f now v x.state x m')
                (after_status (redis_store now) cfg f now v z.state z r'))
            told
            (after_status-Same x.state x m' r' a' new
              (gc-tokens now (λ k. (j : ℕ) → 0 ≤ j → str_eq k (f j) ≡ false) m t) newcomer)))
