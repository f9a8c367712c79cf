-- ===== src/WaitingRoom/Redis/Line/Served.antt =====
-- The visitors whom a tick takes from the queue.
use arena_onsale.Prelude.{
  ℕ, zero, suc, ◌≡◌, refl, String, Bool, false, not, List, [], ◌∷◌, arith, All, take, leb, inl, inr,
  Bool-cases, ◌∙◌, sym, ap,
}
use arena_onsale.Prelude.Query.{select}
use arena_onsale.Prelude.Text.{str_eq, eq_iff}
use arena_onsale.WaitingRoom.Store.{Shopper}
use arena_onsale.WaitingRoom.Memory.{Store, Entry, among, by_score, pop_front, visitors}
use arena_onsale.WaitingRoom.Redis
use arena_onsale.WaitingRoom.Redis.{RedisRoom, by_rank, zpopmin}
use arena_onsale.WaitingRoom.Redis.Alike.{SameRate-kept, Alike, Apart, Behind, InLine}
use arena_onsale.WaitingRoom.Redis.Shop.{AllLive}
use arena_onsale.WaitingRoom.Redis.Shop.Entering.{NotIn}
use arena_onsale.WaitingRoom.Redis.Line.{by_score-InLine, by_rank-InLine}

All-select : (P : Entry → Type 0) (p : Entry → Bool) (q : List Entry) → All P q → All P (select p q)
All-select P p [] a = tt
All-select P p (e ∷ q) a = elim (Bool-cases (p e)) [
  | inl stays ↦ rw stays (a.0, All-select P p q a.1)
  | inr goes ↦ rw goes (All-select P p q a.1)
]

All-take : (P : Entry → Type 0) (n : ℕ) (q : List Entry) → All P q → All P (take n q)
All-take P zero q a = tt
All-take P (suc n) [] a = tt
All-take P (suc n) (e ∷ q) a = (a.0, All-take P n q a.1)

InLine-select : (k : ℕ) (p : Entry → Bool) (q : List Entry) → InLine k q → InLine k (select p q)
InLine-select k p [] l = tt
InLine-select k p (e ∷ q) l = elim (Bool-cases (p e)) [
  | inl stays ↦ rw stays (l.0, All-select (Behind e) p q l.1, InLine-select k p q l.2)
  | inr goes ↦ rw goes (InLine-select k p q l.2)
]

-- each visitor once
abbrev pub OnlyOnce : List String → Type 0
OnlyOnce [] = Unit
OnlyOnce (v ∷ vs) = All (λ w. str_eq w v ≡ false) vs × OnlyOnce vs

names-Behind :
    (e : Entry) (q : List Entry)
    → All (Behind e) q
    → All (λ w. str_eq w e.visitor_id ≡ false) (visitors q)
names-Behind e [] a = tt
names-Behind e (f ∷ fs) a = (a.0.1, names-Behind e fs a.1)

InLine-OnlyOnce : (k : ℕ) (q : List Entry) → InLine k q → OnlyOnce (visitors q)
InLine-OnlyOnce k [] l = tt
InLine-OnlyOnce k (e ∷ q) l = (names-Behind e q l.1, InLine-OnlyOnce k q l.2)

InLine-take : (k n : ℕ) (q : List Entry) → InLine k q → InLine k (take n q)
InLine-take k zero q l = tt
InLine-take k (suc n) [] l = tt
InLine-take k (suc n) (e ∷ q) l = (l.0, All-take (Behind e) n q l.1, InLine-take k n q l.2)

nobody_among : (q : List Entry) → select (λ e. not (among [] e)) q ≡ q
nobody_among [] = refl
nobody_among (e ∷ q) = ap (λ t. e ∷ t) (nobody_among q)

left_behind :
    (taken q : List Entry) → All (λ e. among taken e ≡ false) (select (λ e. not (among taken e)) q)
left_behind taken [] = tt
left_behind taken (e ∷ q) = elim (Bool-cases (among taken e)) [
  | inl goes ↦ rw goes (left_behind taken q)
  | inr stays ↦ rw stays (stays, left_behind taken q)
]

gone_from :
    (taken q : List Entry)
    → All (λ e. among taken e ≡ false) q
    → All (λ v. NotIn v q) (visitors taken)
gone_from [] q a = tt
gone_from (x ∷ xs) q a = (first x xs q a, gone_from xs q (rest x xs q a))
  where
    first :
        (x : Entry) (xs q : List Entry)
        → All (λ e. among (x ∷ xs) e ≡ false) q
        → NotIn x.visitor_id q
    first x xs [] a = tt
    first x xs (e ∷ q) a = (
      ground (arith, a.0, eq_iff e.visitor_id x.visitor_id, eq_iff x.visitor_id e.visitor_id),
      first x xs q a.1,
    )

    rest :
        (x : Entry) (xs q : List Entry)
        → All (λ e. among (x ∷ xs) e ≡ false) q
        → All (λ e. among xs e ≡ false) q
    rest x xs [] a = tt
    rest x xs (e ∷ q) a = (ground (arith, a.0), rest x xs q a.1)

-- no shopper has the name
abbrev pub NotShopping : List Shopper → String → Type 0
NotShopping xs v = All (λ x. str_eq x.visitor_id v ≡ false) xs

not_shopping :
    (now : ℕ) (xs : List Shopper) (e : Entry)
    → AllLive now xs
    → Apart now xs e
    → NotShopping xs e.visitor_id
not_shopping now [] e l a = tt
not_shopping now (x ∷ xs) e l a = (a.0 l.0, not_shopping now xs e l.1 a.1)

not_shopping_any :
    (now : ℕ) (xs : List Shopper) (q : List Entry)
    → AllLive now xs
    → All (Apart now xs) q
    → All (NotShopping xs) (visitors q)
not_shopping_any now xs [] l a = tt
not_shopping_any now xs (e ∷ q) l a = (not_shopping now xs e l a.0, not_shopping_any now xs q l a.1)

-- What a pop leaves in the room, and who they are that it takes.
pub record Popped (now limit n : ℕ) (m : Store) (r : RedisRoom) : Type 0 where
  pub same_visitors : (Redis.pop_front n r).0 ≡ visitors (pop_front n m).0
  pub alike : Alike now limit (pop_front n m).1 (Redis.pop_front n r).1
  pub only_once : OnlyOnce (visitors (pop_front n m).0)
  pub gone : All (λ v. NotIn v (pop_front n m).1.queue) (visitors (pop_front n m).0)
  pub new_to_shop : All (NotShopping m.shoppers) (visitors (pop_front n m).0)

redis_pop :
    (n : ℕ) (m : Store) (r : RedisRoom)
    → r.queue ≡ m.queue
    → InLine m.seq m.queue
    → Redis.pop_front n r
      ≡ (visitors (pop_front n m).0, record r { queue = (pop_front n m).1.queue })
unfolding Redis.pop_front zpopmin pop_front
redis_pop zero m r e l = rw (nobody_among m.queue) (ap (λ q. ([], record r { queue = q })) e)
redis_pop (suc n) m r e l =
    let order : by_rank r.queue ≡ by_score m.queue =
      ap by_rank e ∙ by_rank-InLine m.seq m.queue l ∙ sym (by_score-InLine m.seq m.queue l) in
    let some_asked : leb (suc n) 0 ≡ false = ground arith in
    rw some_asked (
      ap
        (λ q. (
          visitors (take (suc n) q),
          record r { queue = select (λ x. not (among (take (suc n) q) x)) r.queue },
        ))
        order
      ∙ ap
          (λ q. (
            visitors (take (suc n) (by_score m.queue)),
            record r { queue = select (λ x. not (among (take (suc n) (by_score m.queue)) x)) q },
          ))
          e)

pub pop_front-Popped :
    (now limit n : ℕ) (m : Store) (r : RedisRoom)
    → Alike now limit m r
    → AllLive now m.shoppers
    → Popped now limit n m r
unfolding pop_front
pop_front-Popped now limit n m r a l =
    let q = m.queue in
    let sorted = by_score-InLine m.seq q a.in_line in
    let taken = take n (by_score q) in
    let same = redis_pop n m r a.same_queue a.in_line in
    record {
      same_visitors = ap (λ t. t.0) same;
      alike = rw same (record {
        same_queue = refl;
        same_seq = a.same_seq;
        in_line = InLine-select m.seq (λ e. not (among taken e)) q a.in_line;
        same_stays = a.same_stays;
        same_tokens = a.same_tokens;
        distinct = a.distinct;
        apart = All-select (Apart now m.shoppers) (λ e. not (among taken e)) q a.apart;
        visitor_keys = a.visitor_keys;
        token_keys = a.token_keys;
        same_rate = SameRate-kept limit m _ r _ refl refl a.same_rate;
      });
      only_once = rw sorted (InLine-OnlyOnce m.seq (take n q) (InLine-take m.seq n q a.in_line));
      gone = gone_from taken _ (left_behind taken q);
      new_to_shop = rw sorted (
          not_shopping_any now m.shoppers (take n q) l
            (All-take (Apart now m.shoppers) n q a.apart));
    }
