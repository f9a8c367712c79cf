-- ===== src/WaitingRoom/Service/Bulkhead.antt =====
-- The two limits of `admit_tick`: how many shop at a time, and how many are let in each second.
use arena_onsale.Prelude.{subst, sym}
use arena_onsale.Prelude.{
  ℕ, ◌+◌, ◌-◌, ◌≤◌, ◌≡◌, refl, String, Bool, true, false, List, [], ◌∷◌, leb, length, min, max,
  arith, not, ap, ◌∙◌, Bool-cases, inl, inr,
}
use arena_onsale.Prelude.Query.{count_where, select}
use arena_onsale.Settings.{Settings, seconds}
use arena_onsale.WaitingRoom.Store.{Shopper, is_live}
use arena_onsale.WaitingRoom.Memory.{
  Store, Entry, RateOf, assign, rate_of, used_in, put_shopper, gc_shoppers, shopper_count,
  take_rate_tokens, queue_size, pop_front, has_expired, memory_store, visitors,
}
use arena_onsale.WaitingRoom.Memory.Order.{pop_front-length}
use arena_onsale.WaitingRoom.Service.{admit, admit_tick, admits_per_second, epoch_second}

count_where-assign {ℓ} :
    {A : Type ℓ} (p q : A → Bool) (a : A) (xs : List A)
    → count_where q (assign p a xs) ≤ count_where q xs + 1
count_where-assign p q a [] = ground arith
count_where-assign p q a (x ∷ xs) = ground (arith, count_where-assign p q a xs)

pub used_in-assign :
    (t n : ℕ) (rs : List RateOf)
    → used_in t (assign (rate_of t) (record { second = t; used = n }) rs) ≡ n
used_in-assign t n [] = ground arith
used_in-assign t n (r ∷ rs) = ground (arith, used_in-assign t n rs)

shopper_count-admit :
    (f : ℕ → String) (i ttl until now : ℕ) (es : List String) (s : Store)
    → shopper_count now (admit memory_store f i ttl until es s) ≤ shopper_count now s + length es
unfolding admit put_shopper
shopper_count-admit f i ttl until now [] s = omega arith
shopper_count-admit f i ttl until now (e ∷ es) s = omega (
  arith,
  shopper_count-admit f (i + 1) ttl until now es _,
  count_where-assign _ (is_live now) _ s.shoppers,
)

rate-admit :
    (f : ℕ → String) (i ttl until : ℕ) (es : List String) (s : Store)
    → (admit memory_store f i ttl until es s).rate ≡ s.rate
unfolding admit put_shopper
rate-admit f i ttl until [] s = refl
rate-admit f i ttl until (e ∷ es) s = rate-admit f (i + 1) ttl until es _

-- What a call takes is added to the second's count, at most `wanted`, and the count does not pass
-- the limit.
pub take_rate_tokens_lem :
    (t limit wanted : ℕ) (s : Store)
    → let (granted, s') = take_rate_tokens t limit wanted s in
      (used_in t s'.rate ≡ used_in t s.rate + granted)
      × (granted ≤ wanted)
      × (used_in t s'.rate ≤ max limit (used_in t s.rate))
unfolding take_rate_tokens
take_rate_tokens_lem t limit wanted s =
    ground
      (arith, used_in-assign t (used_in t s.rate + min wanted (limit - used_in t s.rate)) s.rate)

-- A second whose tokens are spent gives none, and a call that asks for what is left spends them.
take_rate_tokens-spent :
    (t limit wanted : ℕ) (s : Store)
    → limit ≤ used_in t s.rate
    → (take_rate_tokens t limit wanted s).0 ≡ 0
unfolding take_rate_tokens
take_rate_tokens-spent t limit wanted s h = ground arith

take_rate_tokens-all :
    (t limit wanted : ℕ) (s : Store)
    → limit ≤ wanted
    → limit ≤ used_in t (take_rate_tokens t limit wanted s).1.rate
unfolding take_rate_tokens
take_rate_tokens-all t limit wanted s h =
    ground
      (arith, used_in-assign t (used_in t s.rate + min wanted (limit - used_in t s.rate)) s.rate)

pub same_shoppers :
    (t limit wanted : ℕ) (s : Store) → (take_rate_tokens t limit wanted s).1.shoppers ≡ s.shoppers
unfolding take_rate_tokens
same_shoppers t limit wanted s = ground arith

pub same_queue :
    (t limit wanted : ℕ) (s : Store) → (take_rate_tokens t limit wanted s).1.queue ≡ s.queue
unfolding take_rate_tokens
same_queue t limit wanted s = ground arith

live-gc :
    (now : ℕ) (xs : List Shopper)
    → count_where (is_live now) (select (λ x. not (has_expired now x)) xs)
      ≡ count_where (is_live now) xs
live-gc now [] = refl
live-gc now (x ∷ xs) = ground (arith, live-gc now xs)

pub shopper_count-gc :
    (now : ℕ) (s : Store) → shopper_count now (gc_shoppers now s) ≡ shopper_count now s
unfolding gc_shoppers
shopper_count-gc now s = live-gc now s.shoppers

length-visitors : (es : List Entry) → length (visitors es) ≡ length es
length-visitors [] = refl
length-visitors (e ∷ es) = omega (arith, length-visitors es)

pop_front-frame :
    (n : ℕ) (s : Store)
    → ((pop_front n s).1.shoppers ≡ s.shoppers) × ((pop_front n s).1.rate ≡ s.rate)
unfolding pop_front
pop_front-frame n s = (refl, refl)

gc-frame :
    (now : ℕ) (s : Store)
    → ((gc_shoppers now s).queue ≡ s.queue) × ((gc_shoppers now s).rate ≡ s.rate)
unfolding gc_shoppers
gc-frame now s = (refl, refl)

module _ (cfg : Settings) (f : ℕ → String) (now : ℕ) (s : Store) where
  abbrev pub slots : ℕ
  slots = cfg.checkout_concurrency_limit - shopper_count now (gc_shoppers now s)

  abbrev pub per_second : ℕ
  per_second = admits_per_second cfg.waiting_room_admit_per_minute

  abbrev pub rated : ℕ × Store
  rated = take_rate_tokens (epoch_second now) per_second slots (gc_shoppers now s)

  abbrev pub let_in : ℕ
  let_in = min rated.0 (min (queue_size rated.1) slots)

  abbrev pub entered : Store
  entered =
      let (taken, s₃) = pop_front let_in rated.1 in
      admit memory_store f 0 cfg.shopping_ttl_seconds (now + seconds cfg.shopping_ttl_seconds)
        (visitors taken) s₃

  pub tick_nobody : leb let_in 0 ≡ true → admit_tick memory_store cfg f now s ≡ (0, rated.1)
  unfolding admit_tick
  tick_nobody h = rw h

  pub tick_some :
      leb let_in 0 ≡ false
      → admit_tick memory_store cfg f now s
        ≡ (length (visitors (pop_front let_in rated.1).0), entered)
  unfolding admit_tick
  tick_some h = rw h

  rated_shoppers : shopper_count now rated.1 ≡ shopper_count now s
  rated_shoppers =
      ap (λ xs. count_where (is_live now) xs)
        (same_shoppers (epoch_second now) per_second slots (gc_shoppers now s))
      ∙ shopper_count-gc now s

  rated_rate :
      used_in (epoch_second now) rated.1.rate ≤ max per_second (used_in (epoch_second now) s.rate)
  rated_rate = omega (
    arith,
    (take_rate_tokens_lem (epoch_second now) per_second slots (gc_shoppers now s)).2,
    ap (λ rs. used_in (epoch_second now) rs) (gc-frame now s).1,
  )

  rated_queue : queue_size rated.1 ≡ queue_size s
  rated_queue =
      ap (λ q. length q)
        (same_queue (epoch_second now) per_second slots (gc_shoppers now s) ∙ (gc-frame now s).0)

  entered_shoppers : shopper_count now entered ≤ shopper_count now s + let_in
  entered_shoppers =
      let taken = (pop_front let_in rated.1).0 in
      let frame = pop_front-frame let_in rated.1 in
      omega (
        arith,
        shopper_count-admit f 0 cfg.shopping_ttl_seconds (now + seconds cfg.shopping_ttl_seconds)
            now (visitors taken) (pop_front let_in rated.1).1,
        ap (λ xs. count_where (is_live now) xs) frame.0,
        rated_shoppers,
        pop_front-length let_in rated.1,
        length-visitors taken,
      )

  entered_rate : entered.rate ≡ rated.1.rate
  entered_rate =
      rate-admit f 0 cfg.shopping_ttl_seconds (now + seconds cfg.shopping_ttl_seconds) _ _
      ∙ (pop_front-frame let_in rated.1).1

  -- A tick lets nobody in beyond the bulkhead: it leaves at most `checkout_concurrency_limit` live
  -- shoppers, or no more than there were. In each second it spends at most the second's tokens, and
  -- it lets in no more visitors than wait in the queue.
  pub admit_tick-bulkhead :
      let (n, s') = admit_tick memory_store cfg f now s in
      (shopper_count now s' ≤ max cfg.checkout_concurrency_limit (shopper_count now s))
      × (used_in (epoch_second now) s'.rate ≤ max per_second (used_in (epoch_second now) s.rate))
      × (n ≤ queue_size s)
  admit_tick-bulkhead = elim (Bool-cases (leb let_in 0)) [
    | inl h ↦ rw (tick_nobody h) (omega (arith, rated_shoppers), rated_rate, omega arith)
    | inr h ↦ rw (tick_some h) (
      omega (arith, entered_shoppers, shopper_count-gc now s),
      omega (arith, ap (λ rs. used_in (epoch_second now) rs) entered_rate, rated_rate),
      omega (
        arith,
        pop_front-length let_in rated.1,
        rated_queue,
        length-visitors (pop_front let_in rated.1).0,
      ),
    )
  ]

  spent :
      per_second ≤ slots
      → per_second ≤ used_in (epoch_second now) (admit_tick memory_store cfg f now s).1.rate
  spent h =
      let full = take_rate_tokens-all (epoch_second now) per_second slots (gc_shoppers now s) h in
      elim (Bool-cases (leb let_in 0)) [
        | inl none_in ↦ rw (tick_nobody none_in) full
        | inr some_in ↦
            rw (tick_some some_in)
              (omega (arith, ap (λ rs. used_in (epoch_second now) rs) entered_rate, full))
      ]

-- What comes after `s` within second number `second`: more ticks, and whatever else happens to the queue
-- and to the shoppers; nothing but a tick takes tokens.
pub data Within (cfg : Settings) (second : ℕ) (s : Store) : Store → Type 0 where
  at_once : Within cfg second s s
  ticked :
      (g : ℕ → String) (now : ℕ) (t : Store)
      → Within cfg second s t
      → epoch_second now ≡ second
      → Within cfg second s (admit_tick memory_store cfg g now t).1
  changed : (t t' : Store) → Within cfg second s t → t'.rate ≡ t.rate → Within cfg second s t'

no_less_used :
    (cfg : Settings) (g : ℕ → String) (now : ℕ) (t : Store)
    → used_in (epoch_second now) t.rate
      ≤ used_in (epoch_second now) (admit_tick memory_store cfg g now t).1.rate
no_less_used cfg g now t =
    let more =
      (take_rate_tokens_lem (epoch_second now) (per_second cfg g now t) (slots cfg g now t)
        (gc_shoppers now t)).0 in
    let frame = ap (λ rs. used_in (epoch_second now) rs) (gc-frame now t).1 in
    elim (Bool-cases (leb (let_in cfg g now t) 0)) [
      | inl none_in ↦ rw (tick_nobody cfg g now t none_in) (omega (arith, more, frame))
      | inr some_in ↦ rw (tick_some cfg g now t some_in) (
          omega (
            arith,
            more,
            frame,
            ap (λ rs. used_in (epoch_second now) rs) (entered_rate cfg g now t),
          ))
    ]

still_spent :
    (cfg : Settings) (second n : ℕ) (s t : Store)
    → n ≤ used_in second s.rate
    → Within cfg second s t
    → n ≤ used_in second t.rate
still_spent cfg second n s t h at_once = h
still_spent cfg second n s _ h (ticked g now t before e) =
    subst (λ x. n ≤ used_in x (admit_tick memory_store cfg g now t).1.rate) e
      (omega (
        arith,
        no_less_used cfg g now t,
        subst (λ x. n ≤ used_in x t.rate) (sym e) (still_spent cfg second n s t h before),
      ))
still_spent cfg second n s t' h (changed t _ before e) =
    rw e (still_spent cfg second n s t h before)

spent_out :
    (cfg : Settings) (g : ℕ → String) (now : ℕ) (t : Store)
    → admits_per_second cfg.waiting_room_admit_per_minute ≤ used_in (epoch_second now) t.rate
    → (admit_tick memory_store cfg g now t).0 ≡ 0
spent_out cfg g now t done =
    let none_left =
      take_rate_tokens-spent (epoch_second now) (per_second cfg g now t) (slots cfg g now t)
        (gc_shoppers now t)
        (omega (arith, done, ap (λ rs. used_in (epoch_second now) rs) (gc-frame now t).1)) in
    rw (tick_nobody cfg g now t (ground (arith, none_left))) refl

-- One tick asks for a token for each free place, however short the queue is: where the free places
-- are at least the second's tokens, a tick spends all of these, and every later tick of the same second
-- lets nobody in, whoever has joined and whoever has left by then, and however many ticks came between.
pub admit_tick-admit_tick_waits :
    (cfg : Settings) (f g : ℕ → String) (now later : ℕ) (s t : Store)
    → admits_per_second cfg.waiting_room_admit_per_minute
      ≤ cfg.checkout_concurrency_limit - shopper_count now s
    → Within cfg (epoch_second now) (admit_tick memory_store cfg f now s).1 t
    → epoch_second later ≡ epoch_second now
    → (admit_tick memory_store cfg g later t).0 ≡ 0
admit_tick-admit_tick_waits cfg f g now later s t h path e =
    let n = admits_per_second cfg.waiting_room_admit_per_minute in
    let done = spent cfg f now s (omega (arith, shopper_count-gc now s)) in
    spent_out cfg g later t (
      subst (λ x. n ≤ used_in x t.rate) (sym e)
        (still_spent cfg (epoch_second now) n (admit_tick memory_store cfg f now s).1 t done path))
