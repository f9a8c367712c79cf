-- ===== src/WaitingRoom/Redis/Line.antt =====
-- The queue of the two stores: in the order of its scores, it is read and served alike.
pub mod Served
use arena_onsale.Prelude.{
  ℕ, zero, suc, ◌+◌, ◌≡◌, ◌≤◌, ◌<◌, refl, String, Bool, true, false, not, Option, none, some, List,
  [], ◌∷◌, ◌++◌, arith, All, take, leb, inl, inr, Bool-cases, Option-cases, ◌∙◌, sym, ap,
}
use arena_onsale.Prelude.Query.{find?, select}
use arena_onsale.Prelude.Text.{str_eq, eq_iff}
use arena_onsale.WaitingRoom.Store.{Shopper, is_live}
use arena_onsale.WaitingRoom.Memory.{
  Store, Entry, entry_of, among, by_score, insert_entry, enqueue, rank, pop_front, visitors, index,
  next_score,
}
use arena_onsale.WaitingRoom.Redis
use arena_onsale.WaitingRoom.Redis.{RedisRoom, by_rank, insert_member, zrank, zadd_nx, zpopmin}
use arena_onsale.WaitingRoom.Redis.Alike.{SameRate-kept, Alike, Apart, Behind, InLine}
use arena_onsale.WaitingRoom.Redis.Shop.{AllLive}
use arena_onsale.WaitingRoom.Redis.Shop.Entering.{NotIn}

first_by_score : (e : Entry) (q : List Entry) → All (Behind e) q → insert_entry e q ≡ e ∷ q
first_by_score e [] a = refl
first_by_score e (f ∷ fs) a = ground (arith, a.0)

first_by_rank : (e : Entry) (q : List Entry) → All (Behind e) q → insert_member e q ≡ e ∷ q
first_by_rank e [] a = refl
first_by_rank e (f ∷ fs) a = ground (arith, a.0)

by_score-InLine : (n : ℕ) (q : List Entry) → InLine n q → by_score q ≡ q
unfolding by_score
by_score-InLine n [] l = refl
by_score-InLine n (e ∷ q) l = rw (by_score-InLine n q l.2) (first_by_score e q l.1)

by_rank-InLine : (n : ℕ) (q : List Entry) → InLine n q → by_rank q ≡ q
unfolding by_rank
by_rank-InLine n [] l = refl
by_rank-InLine n (e ∷ q) l = rw (by_rank-InLine n q l.2) (first_by_rank e q l.1)

pub same_rank :
    (now limit : ℕ) (v : String) (m : Store) (r : RedisRoom)
    → Alike now limit m r
    → rank v m ≡ Redis.rank v r
unfolding rank zrank
same_rank now limit v m r a = rw a.same_queue (
    ap (index v)
      (by_score-InLine m.seq m.queue a.in_line ∙ sym (by_rank-InLine m.seq m.queue a.in_line)))

not_ranked : (v : String) (q : List Entry) → index v q ≡ none → NotIn v q
not_ranked v [] e = tt
not_ranked v (f ∷ fs) e = (
  ground (arith, e, eq_iff f.visitor_id v, eq_iff v f.visitor_id),
  not_ranked v fs (ground (arith, e)),
)

-- a visitor without a rank is not in the queue
pub rank-NotIn : (v : String) (m : Store) → InLine m.seq m.queue → rank v m ≡ none → NotIn v m.queue
unfolding rank
rank-NotIn v m l e = not_ranked v m.queue (ap (index v) (sym (by_score-InLine m.seq m.queue l)) ∙ e)

no_entry : (v : String) (q : List Entry) → NotIn v q → find? (entry_of v) q ≡ none
no_entry v [] n = refl
no_entry v (e ∷ q) n =
    ground (arith, n.0, no_entry v q n.1, eq_iff e.visitor_id v, eq_iff v e.visitor_id)

All-end : (P : Entry → Type 0) (e : Entry) (q : List Entry) → All P q → P e → All P (q ++ e ∷ [])
All-end P e [] a h = (h, tt)
All-end P e (f ∷ fs) a h = (a.0, All-end P e fs a.1 h)

InLine-end :
    (n : ℕ) (v : String) (q : List Entry)
    → InLine n q
    → NotIn v q
    → InLine (n + 1) (q ++ record { visitor_id = v; score = n + 1 } ∷ [])
InLine-end n v [] l a = (omega arith, tt, tt)
InLine-end n v (e ∷ q) l a = (
  omega (arith, l.0),
  All-end (Behind e) (record { visitor_id = v; score = n + 1 }) q l.1 (omega (arith, l.0), a.0),
  InLine-end n v q l.2 a.1,
)

-- the room in memory once `v` has taken the next score and joined the queue
abbrev pub joined : String → Store → Store
joined v m = record m {
  seq = m.seq + 1;
  queue = m.queue ++ record { visitor_id = v; score = m.seq + 1 } ∷ [];
}

pub enqueue_new :
    (v : String) (m : Store)
    → NotIn v m.queue
    → (enqueue v (next_score m).0 (next_score m).1).1 ≡ joined v m
unfolding enqueue next_score
enqueue_new v m n = ground (arith, no_entry v m.queue n)

-- Rooms that are alike stay alike when a visitor joins who neither waits nor shops.
pub enqueue-Alike :
    (now limit : ℕ) (v : String) (m : Store) (r : RedisRoom)
    → Alike now limit m r
    → NotIn v m.queue
    → Apart now m.shoppers (record { visitor_id = v; score = m.seq + 1 })
    → Alike now limit (joined v m) (Redis.enqueue v (Redis.next_score r).0 (Redis.next_score r).1).1
unfolding Redis.enqueue Redis.next_score zadd_nx
enqueue-Alike now limit v m r a n apart =
    let absent : find? (entry_of v) r.queue ≡ none = rw a.same_queue (no_entry v m.queue n) in
    record {
      same_queue = ground (arith, absent, a.same_queue, a.same_seq);
      same_seq = ground (arith, absent, a.same_seq);
      in_line = InLine-end m.seq v m.queue a.in_line n;
      same_stays = a.same_stays;
      same_tokens = a.same_tokens;
      distinct = a.distinct;
      apart = All-end (Apart now m.shoppers) _ m.queue a.apart apart;
      visitor_keys = a.visitor_keys;
      token_keys = a.token_keys;
      same_rate = SameRate-kept limit m _ r _ refl refl a.same_rate;
    }
