-- ===== src/Checkout/Outbox/Drain.antt =====
-- The backlog of the outbox across a pass, and across many.
use arena_onsale.Prelude.{
  ℕ, zero, suc, ◌+◌, ◌-◌, ◌*◌, ◌≤◌, ◌≡◌, refl, Bool, true, false, ◌&&◌, some, List, [], ◌∷◌, arith,
  take, length, min, ◌==◌, leb, inl, inr, Bool-cases, length-take, ap,
}
use arena_onsale.Prelude.Query.{select, update_where, count_where, length-select}
use arena_onsale.Prelude.Rows.{count_where-update_where}
use arena_onsale.Prelude.Sort.{
  sort_by, count_where-sort_by, length-sort_by, count_where-length, count_where-take,
  count_where-take_all, count_where-select, count_where-select_all,
}
use arena_onsale.Tables.{OutboxEvent}
use arena_onsale.Checkout.Outbox.{
  Pass, event_is, is_unpublished, unlocked, event_before, mark, publish_each, publish_outbox,
}

-- the unpublished row of an id
abbrev pub pending_is : ℕ → OutboxEvent → Bool
pending_is i e = event_is i e && is_unpublished e

-- `id` is the primary key
abbrev pub UniqueEvents : List OutboxEvent → Type 0
UniqueEvents rows = (i : ℕ) → count_where (event_is i) rows ≤ 1

abbrev pub backlog : List OutboxEvent → ℕ
backlog rows = count_where is_unpublished rows

pending-le :
    (i : ℕ) (rows : List OutboxEvent)
    → count_where (pending_is i) rows ≤ count_where (event_is i) rows
pending-le i [] = omega arith
pending-le i (x ∷ xs) = ground (arith, pending-le i xs)

mark-none :
    (now i : ℕ) (rows : List OutboxEvent)
    → count_where (event_is i) rows ≡ 0
    → backlog (update_where (event_is i) (mark now) rows) ≡ backlog rows
mark-none now i [] h = refl
mark-none now i (x ∷ xs) h = ground (arith, mark-none now i xs)

backlog-mark :
    (now i : ℕ) (rows : List OutboxEvent)
    → count_where (event_is i) rows ≤ 1
    → 1 ≤ count_where (pending_is i) rows
    → backlog (update_where (event_is i) (mark now) rows) + 1 ≡ backlog rows
backlog-mark now i [] u p = absurd (omega arith)
backlog-mark now i (x ∷ xs) u p =
    ground (arith, backlog-mark now i xs, mark-none now i xs, pending-le i xs)

mark-other :
    (now i j : ℕ) (rows : List OutboxEvent)
    → (i == j) ≡ false
    → count_where (pending_is j) (update_where (event_is i) (mark now) rows)
      ≡ count_where (pending_is j) rows
mark-other now i j [] d = refl
mark-other now i j (x ∷ xs) d = ground (arith, mark-other now i j xs d)

-- the batch that a pass works through, against the rows of the table
record Batch (es rows : List OutboxEvent) : Type 0 where
  unpublished : count_where is_unpublished es ≡ length es
  in_table : (i : ℕ) → count_where (pending_is i) es ≤ count_where (pending_is i) rows
  unique : UniqueEvents rows

Batch-next :
    (now : ℕ) (e : OutboxEvent) (es rows : List OutboxEvent)
    → Batch (e ∷ es) rows
    → Batch es (update_where (event_is e.id) (mark now) rows)
      × (backlog (update_where (event_is e.id) (mark now) rows) + 1 ≡ backlog rows)
Batch-next now e es rows b =
    let open_e : is_unpublished e ≡ true =
      ground (arith, b.unpublished, count_where-length is_unpublished es) in
    let here : 1 ≤ count_where (pending_is e.id) rows = ground (arith, b.in_table e.id) in
    (
      record {
        unpublished = ground (arith, b.unpublished, count_where-length is_unpublished es);
        in_table = λ i. elim (Bool-cases (e.id == i)) [
          | inl same ↦ ground (arith, b.in_table i, b.unique i, pending-le i rows)
          | inr other ↦ ground (arith, b.in_table i, mark-other now e.id i rows other)
        ];
        unique = λ i. ground (
          arith,
          b.unique i,
          count_where-update_where (event_is e.id) (event_is i) (mark now) (λ x. refl) rows,
        );
      },
      backlog-mark now e.id rows (b.unique e.id) here,
    )

-- What a pass has done to the table, `start` events having been reported before it.
record Marked (start : ℕ) (rows : List OutboxEvent) (pass : Pass) : Type 0 where
  count : backlog pass.rows + length pass.delivered ≡ backlog rows
  unique : UniqueEvents pass.rows
  reported : (n : ℕ) → pass.published ≡ some n → n ≡ start + length pass.delivered

publish_each-Marked :
    (deliver : OutboxEvent → Bool) (now start : ℕ) (es rows : List OutboxEvent)
    → Batch es rows
    → Marked start rows (publish_each deliver now start es rows)
unfolding publish_each
publish_each-Marked deliver now start [] rows b = record {
  count = omega arith;
  unique = b.unique;
  reported = λ n e. ground arith;
}
publish_each-Marked deliver now start (e ∷ es) rows b =
    let next = Batch-next now e es rows b in
    let rest =
      publish_each-Marked deliver now (start + 1) es (update_where (event_is e.id) (mark now) rows)
        next.0 in
    elim (Bool-cases (deliver e)) [
      | inl done ↦ rw done (record {
        count = omega (arith, rest.count, next.1);
        unique = rest.unique;
        reported = λ n eq. omega (arith, rest.reported n eq);
      })
      | inr raised ↦
          rw raised
            (record { count = omega arith; unique = b.unique; reported = λ n eq. ground arith })
    ]

abbrev batch_of : (ℕ → Bool) → ℕ → List OutboxEvent → List OutboxEvent
batch_of skip batch_size rows = take batch_size (sort_by event_before (select (unlocked skip) rows))

Batch-start :
    (skip : ℕ → Bool) (batch_size : ℕ) (rows : List OutboxEvent)
    → UniqueEvents rows
    → Batch (batch_of skip batch_size rows) rows
Batch-start skip batch_size rows u =
    let found = select (unlocked skip) rows in
    record {
      unpublished = count_where-take_all is_unpublished batch_size (sort_by event_before found) (
          omega (
            arith,
            count_where-sort_by event_before is_unpublished found,
            length-sort_by event_before found,
            count_where-select_all is_unpublished (unlocked skip) rows (λ x e. ground arith),
          ));
      in_table = λ i. omega (
        arith,
        count_where-take (pending_is i) batch_size (sort_by event_before found),
        count_where-sort_by event_before (pending_is i) found,
        count_where-select (pending_is i) (unlocked skip) rows,
      );
      unique = u;
    }

-- Each event that a pass hands over is marked and no other: the backlog shrinks by the events handed
-- over, whether or not the notifier raises on the way, the ids stay unique, and a pass that returns
-- reports that number. A raised pass has marked only events that it handed over.
pub publish_outbox-backlog :
    (deliver : OutboxEvent → Bool) (skip : ℕ → Bool) (now batch_size : ℕ) (rows : List OutboxEvent)
    → UniqueEvents rows
    → let pass = publish_outbox deliver skip now batch_size rows in
      (backlog pass.rows + length pass.delivered ≡ backlog rows)
      × UniqueEvents pass.rows
      × ((n : ℕ) → pass.published ≡ some n → n ≡ length pass.delivered)
unfolding publish_outbox
publish_outbox-backlog deliver skip now batch_size rows u = elim (Bool-cases (leb batch_size 0)) [
  | inl none_wanted ↦ rw none_wanted (omega arith, u, λ n e. ground arith)
  | inr wanted ↦
      let m =
        publish_each-Marked deliver now 0 (batch_of skip batch_size rows) rows
          (Batch-start skip batch_size rows u) in
      rw wanted (m.count, m.unique, λ n e. omega (arith, m.reported n e))
]

all_delivered :
    (deliver : OutboxEvent → Bool) (now start : ℕ) (es rows : List OutboxEvent)
    → ((e : OutboxEvent) → deliver e ≡ true)
    → (publish_each deliver now start es rows).delivered ≡ es
unfolding publish_each
all_delivered deliver now start [] rows w = refl
all_delivered deliver now start (e ∷ es) rows w =
    rw (w e) (ap (λ r. e ∷ r) (all_delivered deliver now (start + 1) es _ w))

abbrev no_locks : ℕ → Bool
no_locks i = false

count-unlocked : (rows : List OutboxEvent) → count_where (unlocked no_locks) rows ≡ backlog rows
count-unlocked [] = refl
count-unlocked (x ∷ xs) = ground (arith, count-unlocked xs)

-- `k` passes with no other worker about
unfoldable pub passes : (OutboxEvent → Bool) → ℕ → ℕ → ℕ → List OutboxEvent → List OutboxEvent
passes deliver now batch_size zero rows = rows
passes deliver now batch_size (suc k) rows =
    passes deliver now batch_size k (publish_outbox deliver no_locks now batch_size rows).rows

one_pass :
    (deliver : OutboxEvent → Bool) (now batch_size : ℕ) (rows : List OutboxEvent)
    → ((e : OutboxEvent) → deliver e ≡ true)
    → UniqueEvents rows
    → length (publish_outbox deliver no_locks now batch_size rows).delivered
      ≡ min batch_size (backlog rows)
unfolding publish_outbox
one_pass deliver now batch_size rows w u = elim (Bool-cases (leb batch_size 0)) [
  | inl none_wanted ↦ rw none_wanted (ground arith)
  | inr wanted ↦ rw wanted (
      omega (
        arith,
        ap (λ es. length es)
            (all_delivered deliver now 0 (batch_of no_locks batch_size rows) rows w),
        length-take batch_size (sort_by event_before (select (unlocked no_locks) rows)),
        length-sort_by event_before (select (unlocked no_locks) rows),
        length-select (unlocked no_locks) rows,
        count-unlocked rows,
      ))
]

-- The outbox empties: with a notifier that works and no other worker, each pass takes a whole batch off
-- the backlog, so after `k` passes what is left is the backlog less `k` batches.
pub passes-backlog :
    (deliver : OutboxEvent → Bool) (now batch_size k : ℕ) (rows : List OutboxEvent)
    → ((e : OutboxEvent) → deliver e ≡ true)
    → UniqueEvents rows
    → backlog (passes deliver now batch_size k rows) ≡ backlog rows - k * batch_size
unfolding passes
passes-backlog deliver now batch_size zero rows w u = omega arith
passes-backlog deliver now batch_size (suc k) rows w u =
    let pass = publish_outbox deliver no_locks now batch_size rows in
    let one = publish_outbox-backlog deliver no_locks now batch_size rows u in
    let more = passes-backlog deliver now batch_size k pass.rows w one.1 in
    omega (arith, one.0, one_pass deliver now batch_size rows w u, more)
