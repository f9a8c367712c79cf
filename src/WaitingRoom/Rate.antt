-- ===== src/WaitingRoom/Rate.antt =====
-- `take_rate_tokens` of waiting_room/redis_store.py, whose two commands other clients may come
-- between. The key of a second is what clients have added and what they have given back; its value is
-- the difference, which may pass below 0 as in Redis.
pub mod Race
use arena_onsale.Prelude.{ℕ, ◌+◌, ◌-◌, max, Bool, true, false, if◌then◌else◌, leb}

pub record Counter : Type 0 where
  pub added : ℕ
  pub given_back : ℕ

-- `INCRBY key wanted`
abbrev pub incrby : ℕ → Counter → Counter
incrby wanted c = record c { added = c.added + wanted }

-- `INCRBY key -overflow`
abbrev pub decrby : ℕ → Counter → Counter
decrby overflow c = record c { given_back = c.given_back + overflow }

-- `current - limit` where `current` is above `limit`, and 0 where it is not
abbrev pub overflow_of : ℕ → Counter → ℕ
overflow_of limit current = current.added - (current.given_back + limit)

abbrev pub granted_of : ℕ → ℕ → Counter → ℕ
granted_of limit wanted current =
    if leb current.added (current.given_back + limit)
    then wanted
    else wanted - overflow_of limit current

-- the second command, sent where `current` is above `limit`
abbrev pub give_back : ℕ → Counter → Counter → Counter
give_back limit current c =
    if leb current.added (current.given_back + limit)
    then c
    else decrby (overflow_of limit current) c

-- The whole call; `between` is what other clients do between its commands.
unfoldable pub take_tokens : (Counter → Counter) → ℕ → ℕ → Counter → ℕ × Counter
take_tokens between limit wanted c =
    if leb wanted 0
    then (0, c)
    else (if leb limit 0
        then (0, c)
        else (let current = incrby wanted c in
            (granted_of limit wanted current, give_back limit current (between current))))
