-- ===== src/WaitingRoom/Memory.antt =====
-- src/arena_onsale/waiting_room/memory.py: the waiting room in memory.
-- Scores are the counter `seq`, times are microseconds; a dictionary is the list of its entries in
-- order of insertion.
pub mod Order
use arena_onsale.Prelude.{
  ℕ, suc, ◌+◌, ◌-◌, ◌/◌, String, Bool, true, false, not, ◌&&◌, Option, none, some, List, [], ◌∷◌,
  ◌++◌, map, if◌then◌else◌, ltb, leb, ◌==◌, length, take, min, max,
}
use arena_onsale.WaitingRoom.Store.{Shopper, is_live, WaitingRoomStore}
use arena_onsale.Prelude.Query.{find?, select, update_where, count_where}
use arena_onsale.Prelude.Text.{str_eq}

pub record Entry : Type 0 where
  pub visitor_id : String
  pub score : ℕ

pub record TokenOf : Type 0 where
  pub token : String
  pub visitor_id : String

pub record RateOf : Type 0 where
  pub second : ℕ
  pub used : ℕ

pub record Store : Type 0 where
  pub queue : List Entry
  pub shoppers : List Shopper
  pub tokens : List TokenOf
  pub seq : ℕ
  pub rate : List RateOf

abbrev pub entry_of : String → Entry → Bool
entry_of v e = str_eq e.visitor_id v

abbrev pub shopper_of : String → Shopper → Bool
shopper_of v s = str_eq s.visitor_id v

abbrev pub token_is : String → TokenOf → Bool
token_is t e = str_eq e.token t

abbrev pub rate_of : ℕ → RateOf → Bool
rate_of t r = r.second == t

-- `d[k] = v`, in place if the key is there and at the end if not
abbrev pub assign {ℓ} : {A : Type ℓ} → (A → Bool) → A → List A → List A
assign p a [] = a ∷ []
assign p a (x ∷ xs) = if p x then a ∷ xs else x ∷ assign p a xs

unfoldable pub next_score : Store → ℕ × Store
next_score s = (s.seq + 1, record s { seq = s.seq + 1 })

unfoldable pub enqueue : String → ℕ → Store → Bool × Store
enqueue v score s = elim (find? (entry_of v) s.queue) [
  | some e ↦ (false, s)
  | none ↦ (true, record s { queue = s.queue ++ record { visitor_id = v; score = score } ∷ [] })
]

-- `sorted(self.queue, key=...)` is stable
abbrev pub insert_entry : Entry → List Entry → List Entry
insert_entry e [] = e ∷ []
insert_entry e (x ∷ xs) = if leb e.score x.score then e ∷ x ∷ xs else x ∷ insert_entry e xs

unfoldable pub by_score : List Entry → List Entry
by_score [] = []
by_score (e ∷ es) = insert_entry e (by_score es)

abbrev pub index : String → List Entry → Option ℕ
index v [] = none
index v (e ∷ es) =
    if str_eq e.visitor_id v
    then some 0
    else elim (index v es) [ none ↦ none | some i ↦ some (suc i) ]

unfoldable pub rank : String → Store → Option ℕ
unfolding by_score
rank v s = index v (by_score s.queue)

abbrev pub queue_size : Store → ℕ
queue_size s = length s.queue

abbrev pub visitors : List Entry → List String
visitors = map (λ e. e.visitor_id)

-- `del self.queue[visitor_id]` for each of the visitors
abbrev pub among : List Entry → Entry → Bool
among [] e = false
among (x ∷ xs) e = if str_eq e.visitor_id x.visitor_id then true else among xs e

unfoldable pub pop_front : ℕ → Store → List Entry × Store
unfolding by_score
pop_front n s =
    let taken = take n (by_score s.queue) in
    (taken, record s { queue = select (λ e. not (among taken e)) s.queue })

unfoldable pub put_shopper : Shopper → Store → Store
put_shopper x s = record s {
  shoppers = assign (shopper_of x.visitor_id) x s.shoppers;
  tokens =
      assign (token_is x.token) (record { token = x.token; visitor_id = x.visitor_id }) s.tokens;
}

unfoldable pub get_shopper : String → Store → Option Shopper
get_shopper v s = find? (shopper_of v) s.shoppers

unfoldable pub visitor_for_token : String → Store → Option String
visitor_for_token t s = elim (find? (token_is t) s.tokens) [
  | none ↦ none
  | some e ↦ elim (find? (shopper_of e.visitor_id) s.shoppers) [
    | none ↦ none
    | some x ↦ if str_eq x.token t then some e.visitor_id else none
  ]
]

abbrev pub has_expired : ℕ → Shopper → Bool
has_expired now x = leb x.expires_at now

abbrev pub token_among : List Shopper → TokenOf → Bool
token_among [] e = false
token_among (x ∷ xs) e = if str_eq e.token x.token then true else token_among xs e

unfoldable pub gc_shoppers : ℕ → Store → Store
gc_shoppers now s = record s {
  shoppers = select (λ x. not (has_expired now x)) s.shoppers;
  tokens = select (λ e. not (token_among (select (has_expired now) s.shoppers) e)) s.tokens;
}

abbrev pub shopper_count : ℕ → Store → ℕ
shopper_count now s = count_where (is_live now) s.shoppers

abbrev pub used_in : ℕ → List RateOf → ℕ
used_in t rs = elim (find? (rate_of t) rs) [ none ↦ 0 | some r ↦ r.used ]

unfoldable pub take_rate_tokens : ℕ → ℕ → ℕ → Store → ℕ × Store
take_rate_tokens second limit wanted s =
    if leb wanted 0
    then (0, s)
    else (if leb limit 0
        then (0, s)
        else (let current = used_in second s.rate in
            let granted = min wanted (limit - current) in
            (
              granted,
              record s {
                rate =
                    assign (rate_of second) (record { second = second; used = current + granted })
                      s.rate;
              },
            )))

-- `InMemoryWaitingRoomStore`
abbrev pub memory_store : WaitingRoomStore
memory_store = record {
  State = Store;
  next_score = next_score;
  enqueue = enqueue;
  rank = rank;
  queue_size = queue_size;
  pop_front = λ n s. let (taken, s') = pop_front n s in (visitors taken, s');
  put_shopper = λ x ttl s. put_shopper x s;
  get_shopper = get_shopper;
  visitor_for_token = visitor_for_token;
  gc_shoppers = gc_shoppers;
  shopper_count = shopper_count;
  take_rate_tokens = take_rate_tokens;
}
