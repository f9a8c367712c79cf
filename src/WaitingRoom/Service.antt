-- ===== src/WaitingRoom/Service.antt =====
-- src/arena_onsale/waiting_room/service.py and keys.py, over any store: join, status, stats and the admit tick.
-- `now` is the clock, the same throughout a call; `new_token` numbers the fresh tokens of a call.
pub mod Bulkhead
pub mod Joined
pub mod Known
use arena_onsale.Prelude.{
  ℕ, ◌+◌, ◌-◌, ◌/◌, String, Bool, true, false, not, ◌&&◌, Option, none, some, List, [], ◌∷◌,
  if◌then◌else◌, ltb, leb, length, min, max,
}
use arena_onsale.Prelude.Text.{strip, is_empty_text}
use arena_onsale.Settings.{Settings, seconds}
use arena_onsale.WaitingRoom.Store.{Shopper, is_live, WaitingRoomStore}

pub data Standing : Type 0 where
  -- token and end of the stay
  admitted : String → ℕ → Standing
  -- position from 1, and the estimated wait in seconds
  queued : ℕ → ℕ → Standing
  unknown : Standing

pub record Status : Type 0 where
  pub state : Standing
  pub visitor_id : String
  pub in_queue : ℕ
  pub in_shop : ℕ

-- `admits_per_second` of keys.py
unfoldable pub admits_per_second : ℕ → ℕ
admits_per_second per_minute = max 1 ((per_minute + 59) / 60)

abbrev pub queue_state : Settings → ℕ → Standing
queue_state cfg r =
    let per_second = admits_per_second cfg.waiting_room_admit_per_minute in
    let position = r + 1 in queued position ((position + per_second - 1) / per_second)

-- `int(now)`
abbrev pub epoch_second : ℕ → ℕ
epoch_second now = now / 1_000_000

pub record Stats : Type 0 where
  pub in_queue : ℕ
  pub in_shop : ℕ
  pub admit_per_minute : ℕ
  pub bulkhead : ℕ

module _ (store : WaitingRoomStore) where
  open store use {
    State, next_score, enqueue, rank, queue_size, pop_front, put_shopper, get_shopper,
    visitor_for_token, gc_shoppers, shopper_count, take_rate_tokens,
  }

  abbrev pub report : Standing → String → ℕ → State → Status × State
  report st v now s = (
    record { state = st; visitor_id = v; in_queue = queue_size s; in_shop = shopper_count now s },
    s,
  )

  unfoldable pub not_shopping : Settings → String → State → Standing
  not_shopping cfg v s = elim (rank v s) [ none ↦ unknown | some r ↦ queue_state cfg r ]

  -- the answer of `status` once the expired shoppers are gone
  unfoldable pub state_of : Settings → ℕ → String → State → Standing
  unfolding not_shopping
  state_of cfg now v s = elim (get_shopper v s) [
    | none ↦ not_shopping cfg v s
    | some x ↦ if is_live now x then admitted x.token x.expires_at else not_shopping cfg v s
  ]

  -- `WaitingRoomService.status`
  unfoldable pub status : Settings → ℕ → String → State → Status × State
  unfolding state_of
  status cfg now v s = let s' = gc_shoppers now s in report (state_of cfg now v s') v now s'

  -- the loop of `admit_tick` over those whom it lets in
  unfoldable pub admit : (ℕ → String) → ℕ → ℕ → ℕ → List String → State → State
  admit new_token i ttl expires_at [] s = s
  admit new_token i ttl expires_at (v ∷ vs) s =
      admit new_token (i + 1) ttl expires_at vs (
        put_shopper (record { visitor_id = v; token = new_token i; expires_at = expires_at }) ttl s)

  -- `WaitingRoomService.admit_tick`
  unfoldable pub admit_tick : Settings → (ℕ → String) → ℕ → State → ℕ × State
  unfolding admit
  admit_tick cfg new_token now s =
      let s₁ = gc_shoppers now s in
      let slots = cfg.checkout_concurrency_limit - shopper_count now s₁ in
      let (rate_slots, s₂) =
        take_rate_tokens (epoch_second now) (admits_per_second cfg.waiting_room_admit_per_minute)
          slots s₁ in
      let n = min rate_slots (min (queue_size s₂) slots) in
      if leb n 0
      then (0, s₂)
      else (let (taken, s₃) = pop_front n s₂ in
          let ttl = cfg.shopping_ttl_seconds in
          (length taken, admit new_token 0 ttl (now + seconds ttl) taken s₃))

  -- a join with a name: `join` after the check
  unfoldable pub join_as : Settings → (ℕ → String) → ℕ → String → State → Status × State
  unfolding status
  join_as cfg new_token now v s =
      let (current, s₁) = status cfg now v s in
      elim current.state [
        | unknown ↦
            let (score, s₂) = next_score s₁ in
            let (_, s₃) = enqueue v score s₂ in
            let (_, s₄) = admit_tick cfg new_token now s₃ in status cfg now v s₄
        | _ ↦ (current, s₁)
      ]

  -- `WaitingRoomService.join`; `none` is the `ValueError` of a blank name
  unfoldable pub join : Settings → (ℕ → String) → ℕ → String → State → Option (Status × State)
  unfolding join_as
  join cfg new_token now visitor_id s =
      let v = strip visitor_id in
      if is_empty_text v then none else some (join_as cfg new_token now v s)

  -- `WaitingRoomService.visitor_for_token`
  unfoldable pub visitor_of : ℕ → String → State → Option String × State
  visitor_of now token s = let s' = gc_shoppers now s in (visitor_for_token token s', s')

  -- `WaitingRoomService.stats`
  unfoldable pub stats : Settings → ℕ → State → Stats × State
  stats cfg now s =
      let s' = gc_shoppers now s in
      (
        record {
          in_queue = queue_size s';
          in_shop = shopper_count now s';
          admit_per_minute = cfg.waiting_room_admit_per_minute;
          bulkhead = cfg.checkout_concurrency_limit;
        },
        s',
      )
