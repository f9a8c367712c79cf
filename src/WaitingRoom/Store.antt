-- ===== src/WaitingRoom/Store.antt =====
-- src/arena_onsale/waiting_room/store.py: the protocol that the service is written against. The memory
-- store and the Redis store fill it.
use arena_onsale.Prelude.{ℕ, String, Bool, Option, List, ltb}

pub record Shopper : Type 0 where
  pub visitor_id : String
  pub token : String
  pub expires_at : ℕ

-- `shopper.expires_at > now`
abbrev pub is_live : ℕ → Shopper → Bool
is_live now x = ltb now x.expires_at

pub record WaitingRoomStore : Type 1 where
  pub State : Type 0
  pub next_score : State → ℕ × State
  -- true if the visitor was newly queued
  pub enqueue : String → ℕ → State → Bool × State
  -- the index from the front, from 0
  pub rank : String → State → Option ℕ
  pub queue_size : State → ℕ
  pub pop_front : ℕ → State → List String × State
  -- the shopper and the seconds to live
  pub put_shopper : Shopper → ℕ → State → State
  pub get_shopper : String → State → Option Shopper
  pub visitor_for_token : String → State → Option String
  pub gc_shoppers : ℕ → State → State
  pub shopper_count : ℕ → State → ℕ
  -- the second, its limit, and the tokens wanted
  pub take_rate_tokens : ℕ → ℕ → ℕ → State → ℕ × State
