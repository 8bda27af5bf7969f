-- ===== src/Health/Shared.antt =====
-- A health check keeps the shared state well formed.
use multi_proxy.Health.{
  Completion, record_health, join_all, check_round, ticker, begin_checks, next_check,
}
use multi_proxy.Manager.Laws.{good, bad, mark}
use multi_proxy.Net.{Env, World, elapse, pause, crash}
use multi_proxy.Net.{Outcome, done, fail, panic, hang, next}
use multi_proxy.Net.Run.{
  Kept, Keeps, Kept-refl, Kept-trans, elapse-Kept, mark-Kept, >>=-Keeps, if-Keeps,
}
use multi_proxy.Base.{Bool, List, Option, [], false, none, some, true, ℕ, ◌-◌, ◌==◌, ◌∷◌, refl, ◌≡◌}

record_health-Kept :
    (id : ℕ) (h : Option Bool) (w : World)
    → Kept w (record w { manager = record_health id w.now h w.manager })
unfolding record_health mark
record_health-Kept id (some true) w = mark-Kept good id w
record_health-Kept id (some false) w = mark-Kept bad id w
record_health-Kept id none w = Kept-refl w

module _ (env : Env) where
  join_all-Keeps : (cs : List Completion) → Keeps (join_all env cs)
  unfolding join_all
  join_all-Keeps [] w = Kept-refl w
  join_all-Keeps (c ∷ cs) w = Kept-trans (elapse-Kept env (c.now - w.now) w) (
      Kept-trans (record_health-Kept c.id c.healthy (elapse env (c.now - w.now) w))
        (join_all-Keeps cs _))

  check_round-Keeps :
      (join : List Completion → List Completion) (limit : ℕ) → Keeps (check_round env join limit)
  unfolding check_round
  check_round-Keeps join limit w = join_all-Keeps _ w

  ticker-Keeps : (period : ℕ) → Keeps (ticker env period)
  unfolding ticker
  ticker-Keeps period = if-Keeps (period == 0) crash (pause env 0) Kept-refl (elapse-Kept env 0)

  pub begin_checks-Keeps :
      (join : List Completion → List Completion) (period limit : ℕ)
      → Keeps (begin_checks env join period limit)
  unfolding begin_checks
  begin_checks-Keeps join period limit =
      >>=-Keeps (check_round env join limit) _ (check_round-Keeps join limit)
        (λ u. ticker-Keeps period)

  pub next_check-Keeps :
      (join : List Completion → List Completion) (wait limit : ℕ)
      → Keeps (next_check env join wait limit)
  unfolding next_check
  next_check-Keeps join wait limit w =
      Kept-trans (elapse-Kept env wait w) (check_round-Keeps join limit _)

  join_all-done : (cs : List Completion) (w : World) → (join_all env cs w).0 ≡ done tt
  unfolding join_all
  join_all-done [] w = refl
  join_all-done (c ∷ cs) w = join_all-done cs _

  then_panic :
      (r : Outcome (Unit {0}) × World) → r.0 ≡ done tt → (next r (λ u. ticker env 0)).0 ≡ panic
  unfolding ticker
  then_panic (done u, w) e = refl
  then_panic (fail t, w) e = cc
  then_panic (panic, w) e = refl
  then_panic (hang, w) e = cc

  -- With a period of zero the task panics behind its first check.
  pub begin_checks-panic :
      (join : List Completion → List Completion) (limit : ℕ) (w : World)
      → (begin_checks env join 0 limit w).0 ≡ panic
  unfolding begin_checks check_round
  begin_checks-panic join limit w = then_panic (check_round env join limit w) (join_all-done _ w)
