-- ===== src/Checkout/Outbox.antt =====
-- src/arena_onsale/checkout/outbox.py: hand committed events to the notifier, then mark them.
-- `deliver` is the notifier: `true` when it returns, `false` when it raises. `locked_by_others` says
-- which rows `SKIP LOCKED` passes over.
pub mod Drain
use arena_onsale.Prelude.{
  ℕ, ◌+◌, Bool, true, false, not, ◌&&◌, ◌||◌, Option, none, some, List, [], ◌∷◌, if◌then◌else◌, leb,
  ltb, ◌==◌, take, is_none,
}
use arena_onsale.Prelude.Query.{select, update_where}
use arena_onsale.Prelude.Sort.{sort_by}
use arena_onsale.Tables.{Db, OutboxEvent}

abbrev pub event_is : ℕ → OutboxEvent → Bool
event_is i e = e.id == i

abbrev pub is_unpublished : OutboxEvent → Bool
is_unpublished e = is_none e.published_at

abbrev pub unlocked : (ℕ → Bool) → OutboxEvent → Bool
unlocked locked_by_others e = is_unpublished e && not (locked_by_others e.id)

-- `order_by(OutboxEvent.created_at, OutboxEvent.id)`
abbrev pub event_before : OutboxEvent → OutboxEvent → Bool
event_before e x =
    ltb e.created_at x.created_at || ((e.created_at == x.created_at) && leb e.id x.id)

-- What a call has done: the events handed over, how many it reports (`none` when the notifier has
-- raised), and the rows as the session would flush them.
pub record Pass : Type 0 where
  pub delivered : List OutboxEvent
  pub published : Option ℕ
  pub rows : List OutboxEvent

abbrev pub mark : ℕ → OutboxEvent → OutboxEvent
mark now e = record e { published_at = some now }

unfoldable pub publish_each :
    (OutboxEvent → Bool) → ℕ → ℕ → List OutboxEvent → List OutboxEvent → Pass
publish_each deliver now published [] rows = record {
  delivered = [];
  published = some published;
  rows = rows;
}
publish_each deliver now published (e ∷ es) rows =
    let rest =
      publish_each deliver now (published + 1) es (update_where (event_is e.id) (mark now) rows) in
    if deliver e
    then record rest { delivered = e ∷ rest.delivered }
    else record { delivered = []; published = none; rows = rows }

unfoldable pub publish_outbox : (OutboxEvent → Bool) → (ℕ → Bool) → ℕ → ℕ → List OutboxEvent → Pass
unfolding publish_each
publish_outbox deliver locked_by_others now batch_size rows =
    if leb batch_size 0
    then record { delivered = []; published = some 0; rows = rows }
    else publish_each deliver now 0
        (take batch_size (sort_by event_before (select (unlocked locked_by_others) rows))) rows
