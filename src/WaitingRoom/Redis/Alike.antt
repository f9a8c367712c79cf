-- ===== src/WaitingRoom/Redis/Alike.antt =====
-- When a room in memory and a room in Redis are the same room, and that time keeps them so.
use arena_onsale.Prelude.{
  ℕ, ◌≡◌, ◌≤◌, ◌<◌, String, Bool, true, false, Option, none, some, List, [], ◌∷◌, map, arith, All,
}
use arena_onsale.Prelude.Query.{find?, select}
use arena_onsale.Prelude.Text.{str_eq}
use arena_onsale.WaitingRoom.Store.{Shopper, is_live}
use arena_onsale.WaitingRoom.Memory.{Store, Entry, TokenOf, shopper_of, used_in}
use arena_onsale.WaitingRoom.Rate.Race.{value_of}
use arena_onsale.WaitingRoom.Service.{epoch_second}
use arena_onsale.WaitingRoom.Redis.{RedisRoom, get_key, stored_key, has_ended}

-- a shopper's member of the sorted set, and the entry of his token in memory
abbrev pub stay_of : Shopper → Entry
stay_of x = record { visitor_id = x.visitor_id; score = x.expires_at }

abbrev pub token_entry : Shopper → TokenOf
token_entry x = record { token = x.token; visitor_id = x.visitor_id }

abbrev pub has_token : String → Shopper → Bool
has_token t x = str_eq x.token t

abbrev pub token_of : Option Shopper → Option String
token_of none = none
token_of (some x) = some x.token

abbrev pub visitor_name : Option Shopper → Option String
visitor_name none = none
visitor_name (some x) = some x.visitor_id

-- another visitor with another token
abbrev pub Differs : Shopper → Shopper → Type 0
Differs x y = (str_eq y.visitor_id x.visitor_id ≡ false) × (str_eq y.token x.token ≡ false)

-- each visitor once, each token once
abbrev pub Distinct : List Shopper → Type 0
Distinct [] = Unit
Distinct (x ∷ xs) = All (Differs x) xs × Distinct xs

-- each visitor once, in the order of the scores, the last of which is at most `n`
abbrev pub Behind : Entry → Entry → Type 0
Behind e f = (e.score < f.score) × (str_eq f.visitor_id e.visitor_id ≡ false)

abbrev pub InLine : ℕ → List Entry → Type 0
InLine n [] = Unit
InLine n (e ∷ es) = (e.score ≤ n) × All (Behind e) es × InLine n es

-- who waits does not shop
abbrev pub Apart : ℕ → List Shopper → Entry → Type 0
Apart now xs e = All (λ x. is_live now x ≡ true → str_eq x.visitor_id e.visitor_id ≡ false) xs

-- The count of a second; its key lasts as long as the second.
pub record SameRate (limit second : ℕ) (m : Store) (r : RedisRoom) : Type 0 where
  pub counted :
      (stored_key second r.rate).counter.given_back ≤ (stored_key second r.rate).counter.added
  pub same_count : used_in second m.rate ≡ value_of (stored_key second r.rate).counter
  pub in_limit : value_of (stored_key second r.rate).counter ≤ limit
  pub lasts :
      (t : ℕ) → epoch_second t ≡ second → has_ended t (stored_key second r.rate).until ≡ false

pub record Alike (now limit : ℕ) (m : Store) (r : RedisRoom) : Type 0 where
  pub same_queue : r.queue ≡ m.queue
  pub same_seq : r.seq ≡ m.seq
  pub in_line : InLine m.seq m.queue
  pub same_stays : r.shoppers ≡ map stay_of m.shoppers
  pub same_tokens : m.tokens ≡ map token_entry m.shoppers
  pub distinct : Distinct m.shoppers
  pub apart : All (Apart now m.shoppers) m.queue
  -- from now on, GET finds the token of a visitor, and the visitor of a token, while the stay lasts
  pub visitor_keys :
      (t : ℕ) (v : String)
      → now ≤ t
      → get_key t v r.visitors ≡ token_of (find? (shopper_of v) (select (is_live t) m.shoppers))
  pub token_keys :
      (t : ℕ) (k : String)
      → now ≤ t
      → get_key t k r.tokens ≡ visitor_name (find? (has_token k) (select (is_live t) m.shoppers))
  pub same_rate : (second : ℕ) → SameRate limit second m r

-- Stays that have ended do not begin again.
Apart-later :
    (now later : ℕ) (xs : List Shopper) (e : Entry)
    → now ≤ later
    → Apart now xs e
    → Apart later xs e
Apart-later now later [] e h a = tt
Apart-later now later (x ∷ xs) e h a =
    (λ live. a.0 (ground (arith, live, h)), Apart-later now later xs e h a.1)

All-Apart-later :
    (now later : ℕ) (xs : List Shopper) (q : List Entry)
    → now ≤ later
    → All (Apart now xs) q
    → All (Apart later xs) q
All-Apart-later now later xs [] h a = tt
All-Apart-later now later xs (e ∷ q) h a =
    (Apart-later now later xs e h a.0, All-Apart-later now later xs q h a.1)

-- Rooms that are alike stay alike while time passes.
pub Alike-later :
    (now later limit : ℕ) (m : Store) (r : RedisRoom)
    → now ≤ later
    → Alike now limit m r
    → Alike later limit m r
Alike-later now later limit m r h a = record {
  same_queue = a.same_queue;
  same_seq = a.same_seq;
  in_line = a.in_line;
  same_stays = a.same_stays;
  same_tokens = a.same_tokens;
  distinct = a.distinct;
  apart = All-Apart-later now later m.shoppers m.queue h a.apart;
  visitor_keys = λ t v k. a.visitor_keys t v (omega (arith, h, k));
  token_keys = λ t v k. a.token_keys t v (omega (arith, h, k));
  same_rate = a.same_rate;
}

-- A change of other tables leaves the counts alike.
pub SameRate-kept :
    (limit : ℕ) (m m' : Store) (r r' : RedisRoom)
    → m'.rate ≡ m.rate
    → r'.rate ≡ r.rate
    → ((second : ℕ) → SameRate limit second m r)
    → (second : ℕ) → SameRate limit second m' r'
SameRate-kept limit m m' r r' e f a second =
    let k = a second in
    record {
      counted = rw f k.counted;
      same_count = rw e (rw f k.same_count);
      in_limit = rw f k.in_limit;
      lasts = λ t h. rw f (k.lasts t h);
    }
