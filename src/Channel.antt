-- ===== src/Channel.antt =====
-- src/upstream/mod.rs, Channel: the health of one upstream channel and its circuit breaker. An
-- `Instant` is a number of milliseconds; `now` is the argument that stands for `Instant::now()`.
pub mod Laws
pub mod Backoff
use multi_proxy.Dsn.{Dsn}
use multi_proxy.Base.{
  Bool, Option, false, if◌then◌else◌, leb, ltb, min, none, some, true, ℕ, ◌+◌, ◌-◌, ◌/◌, ◌^◌,
}

pub data Health : Type 0 where
  healthy unhealthy unknown : Health

pub record Channel : Type 0 where
  pub id : ℕ
  pub dsn : Dsn
  pub health : Health
  pub failure_count : ℕ
  pub last_success : Option ℕ
  pub last_failure : Option ℕ

abbrev pub max_u32 : ℕ
max_u32 = 2 ^ 32 - 1

-- `Channel::new`
unfoldable pub new : ℕ → Dsn → Channel
new id dsn = record {
  id = id;
  dsn = dsn;
  health = unknown;
  failure_count = 0;
  last_success = none;
  last_failure = none;
}

unfoldable pub mark_healthy : ℕ → Channel → Channel
mark_healthy now c = record c { health = healthy; failure_count = 0; last_success = some now }

unfoldable pub mark_unhealthy : ℕ → Channel → Channel
mark_unhealthy now c = record c {
  health = unhealthy;
  failure_count = min (c.failure_count + 1) max_u32;
  last_failure = some now;
}

-- The seconds to wait after a failure: `3u64.saturating_pow(n.min(6)).min(300)`, and 300 past 5.
unfoldable pub backoff : ℕ → ℕ
backoff failures = if ltb 5 failures then 300 else min (min (3 ^ min failures 6) (2 ^ 64 - 1)) 300

-- `last.elapsed().as_secs()`
unfoldable pub elapsed_secs : ℕ → ℕ → ℕ
elapsed_secs last now = (now - last) / 1000

expired : Option ℕ → ℕ → ℕ → Bool
unfolding elapsed_secs
expired (some last) wait now = leb wait (elapsed_secs last now)
expired none wait now = true

unfoldable pub is_healthy : Health → Bool
is_healthy healthy = true
is_healthy unhealthy = false
is_healthy unknown = false

unfoldable pub is_unhealthy : Health → Bool
is_unhealthy healthy = false
is_unhealthy unhealthy = true
is_unhealthy unknown = false

-- `Channel::should_retry`
unfoldable pub should_retry : ℕ → Channel → Bool
unfolding expired is_unhealthy
should_retry now c =
    if is_unhealthy c.health then expired c.last_failure (backoff c.failure_count) now else true
