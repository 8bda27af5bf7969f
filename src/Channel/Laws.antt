-- ===== src/Channel/Laws.antt =====
-- The invariant of a channel's health record.
use multi_proxy.Channel.{
  Channel, Health, healthy, unhealthy, unknown, new, mark_healthy, mark_unhealthy, max_u32,
}
use multi_proxy.Dsn.{Dsn}
use multi_proxy.Base.{List, Option, [], arith, min, none, refl, suc, ℕ, ◌<◌, ◌∷◌, ◌≡◌, ◌≢◌, ◌≤◌}

-- What the four health fields hold together.
abbrev pub Agrees : Health → ℕ → Option ℕ → Option ℕ → Type 0
Agrees healthy failures success failure = (failures ≡ 0) × (success ≢ none)
Agrees unhealthy failures success failure = (0 < failures) × (failures ≤ max_u32) × (failure ≢ none)
Agrees unknown failures success failure = (failures ≡ 0) × (success ≡ none) × (failure ≡ none)

abbrev pub IsSound : Channel → Type 0
IsSound c = Agrees c.health c.failure_count c.last_success c.last_failure

pub new-IsSound : (id : ℕ) (d : Dsn) → IsSound (new id d)
unfolding new
new-IsSound id d = (refl, refl, refl)

pub mark_healthy-IsSound : (now : ℕ) (c : Channel) → IsSound (mark_healthy now c)
unfolding mark_healthy
mark_healthy-IsSound now c = (refl, λ e. cc)

pub mark_unhealthy-IsSound : (now : ℕ) (c : Channel) → IsSound (mark_unhealthy now c)
unfolding mark_unhealthy
mark_unhealthy-IsSound now c = (omega arith, omega arith, λ e. cc)

-- A verdict on a channel, and when it came.
pub data Mark : Type 0 where
  up down : ℕ → Mark

pub apply : Mark → Channel → Channel
apply (up now) c = mark_healthy now c
apply (down now) c = mark_unhealthy now c

-- A history, its newest mark first.
pub apply_all : List Mark → Channel → Channel
unfolding apply
apply_all [] c = c
apply_all (m ∷ ms) c = apply m (apply_all ms c)

-- The failures since the last success.
abbrev pub streak : List Mark → ℕ
streak [] = 0
streak (up now ∷ ms) = 0
streak (down now ∷ ms) = suc (streak ms)

-- After any history the failure count is the number of failures since the last success, held at
-- the largest u32.
pub failure_count-streak :
    (id : ℕ) (d : Dsn) (ms : List Mark)
    → (apply_all ms (new id d)).failure_count ≡ min (streak ms) max_u32
unfolding apply_all new mark_healthy mark_unhealthy
failure_count-streak id d [] = refl
failure_count-streak id d (up now ∷ ms) = refl
failure_count-streak id d (down now ∷ ms) = omega (arith, failure_count-streak id d ms)

pub apply-IsSound : (m : Mark) (c : Channel) → IsSound (apply m c)
unfolding apply
apply-IsSound (up now) c = mark_healthy-IsSound now c
apply-IsSound (down now) c = mark_unhealthy-IsSound now c

-- After any history the health, the failure count and the two times agree: healthy means no failure
-- since a success, unhealthy a positive count that fits 32 bits and a known failure, unknown no mark.
pub apply_all-IsSound : (id : ℕ) (d : Dsn) (ms : List Mark) → IsSound (apply_all ms (new id d))
unfolding apply_all
apply_all-IsSound id d [] = new-IsSound id d
apply_all-IsSound id d (m ∷ ms) = apply-IsSound m (apply_all ms (new id d))
