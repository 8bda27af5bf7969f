-- ===== src/Channel/Backoff.antt =====
-- When the circuit breaker lets a channel be tried.
use native.Mathlib.Nat.{pow-suc, zero-add, suc-add}
use multi_proxy.Channel.{
  Health, healthy, unknown, is_unhealthy, expired, Channel, unhealthy, backoff, should_retry,
}
use multi_proxy.Base.{
  Option, none, false, Bool-cases, inl, inr, ◌<◌, arith, min, refl, some, suc, true, zero, ℕ, ◌*◌,
  ◌+◌, ◌-◌, ◌^◌, ◌↔◌, ◌≡◌, ◌≤◌,
}

pow-ge : (n : ℕ) → 729 ≤ 3 ^ suc (suc (suc (suc (suc (suc n)))))
pow-ge zero = omega arith
pow-ge (suc n) = omega (arith, pow-ge n, pow-suc 3 (suc (suc (suc (suc (suc (suc n)))))))

-- The wait is 3 ^ n seconds for n failures, capped at 300: no power overflows on the way.
pub backoff-pow : (n : ℕ) → backoff n ≡ min (3 ^ n) 300
unfolding backoff
backoff-pow zero = refl
backoff-pow (suc zero) = refl
backoff-pow (suc (suc zero)) = refl
backoff-pow (suc (suc (suc zero))) = refl
backoff-pow (suc (suc (suc (suc zero)))) = refl
backoff-pow (suc (suc (suc (suc (suc zero))))) = refl
backoff-pow (suc (suc (suc (suc (suc (suc n)))))) = ground (arith, pow-ge n)

pub backoff-le : (n : ℕ) → backoff n ≤ 300
backoff-le n = omega (arith, backoff-pow n)

pow-le-pow : (m k : ℕ) → 3 ^ m ≤ 3 ^ (k + m)
pow-le-pow m zero = rw zero-add (omega arith)
pow-le-pow m (suc k) = rw suc-add (omega (arith, pow-le-pow m k, pow-suc 3 (k + m)))

-- More failures never shorten the wait.
pub backoff_mono : (m n : ℕ) → m ≤ n → backoff m ≤ backoff n
backoff_mono m n h =
    let split : n - m + m ≡ n = omega arith in
    let le : 3 ^ m ≤ 3 ^ n = rw split at (pow-le-pow m (n - m)) in
    omega (arith, backoff-pow m, backoff-pow n)

-- A channel that is in its backoff window: unhealthy, and its last failure is less than 3 ^ n seconds ago
-- for n failures in a row, or less than 300 seconds where that is longer.
abbrev pub Waits : ℕ → Channel → Type 0
Waits now c =
    (c.health ≡ unhealthy)
    × ((last : ℕ) × (c.last_failure ≡ some last)
        × (now - last < 1000 * min (3 ^ c.failure_count) 300))

is_unhealthy_iff : (h : Health) → (is_unhealthy h ≡ true) ↔ (h ≡ unhealthy)
unfolding is_unhealthy
is_unhealthy_iff healthy = (λ e. cc, λ e. cc)
is_unhealthy_iff unhealthy = (λ e. refl, λ e. refl)
is_unhealthy_iff unknown = (λ e. cc, λ e. cc)

expired_iff :
    (failure : Option ℕ) (n now : ℕ)
    → (expired failure (backoff n) now ≡ false)
      ↔ ((last : ℕ) × (failure ≡ some last) × (now - last < 1000 * min (3 ^ n) 300))
unfolding expired
expired_iff none n now = (λ e. cc, λ (last, e, h). cc)
expired_iff (some last) n now = (
  λ e. (last, refl, ground (arith, backoff-pow n)),
  λ (other, e, h). let same : last ≡ other = cc in ground (arith, backoff-pow n),
)

-- Whatever channel: it may not be tried exactly while it is unhealthy, has a last failure, and less than
-- 3 ^ n seconds (at most 300) lie behind that failure, for n failures in a row. So an unhealthy channel
-- may be tried once the whole wait is over, and a healthy or unknown one always.
pub should_retry_iff : (now : ℕ) (c : Channel) → (should_retry now c ≡ false) ↔ Waits now c
unfolding should_retry
should_retry_iff now c = elim (Bool-cases (is_unhealthy c.health)) [
  | inl down ↦
      let bad : c.health ≡ unhealthy = (is_unhealthy_iff c.health).0 down in
      rw down (
        λ e. (bad, (expired_iff c.last_failure c.failure_count now).0 e),
        λ h. (expired_iff c.last_failure c.failure_count now).1 h.1,
      )
  | inr up ↦ rw up (λ e. cc, λ h. let down = (is_unhealthy_iff c.health).1 h.0 in cc)
]

-- A channel that may be tried may be tried at any later time.
pub should_retry_mono :
    (now later : ℕ) (c : Channel)
    → now ≤ later
    → should_retry now c ≡ true
    → should_retry later c ≡ true
unfolding should_retry
should_retry_mono now later c le h = ground arith

-- A channel whose last failure is 300 seconds or more ago may be tried, however often it failed.
pub should_retry_after :
    (now last : ℕ) (c : Channel)
    → c.last_failure ≡ some last
    → last + 300000 ≤ now
    → should_retry now c ≡ true
unfolding should_retry
should_retry_after now last c e le = ground (arith, backoff-le c.failure_count)
