-- ===== src/Settings.antt =====
-- src/arena_onsale/shared/settings.py: the knobs that the modelled code reads, with their defaults.
-- Times are microseconds since the epoch, the resolution of `datetime`.
use arena_onsale.Prelude.{ℕ, ◌*◌}

pub record Settings : Type 0 where
  pub hold_ttl_seconds : ℕ
  pub seat_map_ttl_seconds : ℕ
  pub ga_max_attempts : ℕ
  pub ga_retry_min_ms : ℕ
  pub ga_retry_max_ms : ℕ
  pub ga_max_quantity : ℕ
  pub ticket_price_cents : ℕ
  pub waiting_room_admit_per_minute : ℕ
  pub checkout_concurrency_limit : ℕ
  pub shopping_ttl_seconds : ℕ
  pub worker_batch_size : ℕ

abbrev pub default_settings : Settings
default_settings = record {
  hold_ttl_seconds = 600;
  seat_map_ttl_seconds = 3;
  ga_max_attempts = 3;
  ga_retry_min_ms = 50;
  ga_retry_max_ms = 200;
  ga_max_quantity = 8;
  ticket_price_cents = 15_000;
  waiting_room_admit_per_minute = 50_000;
  checkout_concurrency_limit = 3_000;
  shopping_ttl_seconds = 900;
  worker_batch_size = 50;
}

-- `timedelta(seconds=n)`
abbrev pub seconds : ℕ → ℕ
seconds n = n * 1_000_000
