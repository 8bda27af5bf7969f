-- ===== src/System/Invariant.antt =====
-- What holds in every state that the running program reaches.
use multi_proxy.Config.{Table, File, Args}
use multi_proxy.Dsn.{Url}
use multi_proxy.Health.Shared.{begin_checks-Keeps, begin_checks-panic, next_check-Keeps}
use multi_proxy.Main.{Service, serving, start}
use multi_proxy.Main.Startup.{Starts, start-Starts}
use multi_proxy.Manager.Laws.{IsValid, dsns}
use multi_proxy.Health.{Completion}
use multi_proxy.Net.{Env, World}
use multi_proxy.Net.Run.{Kept, Kept-refl, Kept-trans}
use multi_proxy.Proxy.Server.Dispatch.{handle_request-Keeps, copy_tunnel-Keeps}
use multi_proxy.Ssh.Shared.{reap-Keeps}
use multi_proxy.System.{
  ticking, gone, System, Step, turned, served, copied, closed, began, checked, reaped, aborted,
  Reach, here, later, initial, limit_ms, period_ms, after_begin, begin_checks, launch, listen_addr,
}
use multi_proxy.Base.{
  List, Result, Text, arith, false, ok, subst, sym, ℕ, ◌≡◌, ◌≢◌, ◌≤◌, ap, ◌∙◌, >>=-eq-ok,
}

gone_off : gone ≢ ticking
gone_off e = cc

module _ (service : Service) where
  moved_to : (s t u : System) → t ≡ u → Kept s.world u.world → Kept s.world t.world
  moved_to s t u e h = subst (λ x. Kept s.world x.world) (sym e) h

  -- Every step keeps the shared state.
  Step-Kept : (s t : System) → Step service s t → Kept s.world t.world
  Step-Kept s t (turned e h eq) = moved_to s t _ eq (Kept-refl s.world)
  Step-Kept s t (served env req h eq) =
      moved_to s t _ eq (handle_request-Keeps env req service.strategy (limit_ms service) s.world)
  Step-Kept s t (copied env ts us upstream h eq) =
      moved_to s t _ eq (copy_tunnel-Keeps env upstream s.world)
  Step-Kept s t (closed n h eq) = moved_to s t _ eq (Kept-refl s.world)
  Step-Kept s t (began env join h eq) =
      moved_to s t _ eq (begin_checks-Keeps env join (period_ms service) (limit_ms service) s.world)
  Step-Kept s t (checked env join wait h le eq) =
      moved_to s t _ eq (next_check-Keeps env join wait (limit_ms service) s.world)
  Step-Kept s t (reaped env wait h le eq) = moved_to s t _ eq (reap-Keeps env wait s.world)
  Step-Kept s t (aborted h eq) = moved_to s t _ eq (Kept-refl s.world)

  pub Reach-Kept : {s t : System} → Reach service s t → Kept s.world t.world
  Reach-Kept {s} here = Kept-refl s.world
  Reach-Kept (later {t} {u} r st) = Kept-trans (Reach-Kept r) (Step-Kept t u st)

  -- Once the loop has ended, no step begins it again or adds a connection.
  Step-stopped :
      (s t : System)
      → Step service s t
      → s.server.running ≡ false
      → (t.server.running ≡ false) × (t.server.connections ≤ s.server.connections)
  Step-stopped s t (turned e h eq) off = cc
  Step-stopped s t (served env req h eq) off = ground arith
  Step-stopped s t (copied env ts us upstream h eq) off = ground arith
  Step-stopped s t (closed n h eq) off = ground arith
  Step-stopped s t (began env join h eq) off = ground arith
  Step-stopped s t (checked env join wait h le eq) off = ground arith
  Step-stopped s t (reaped env wait h le eq) off = ground arith
  Step-stopped s t (aborted h eq) off = ground arith

  -- Once the accept loop has ended, it stays so and no connection is added, whatever the other tasks do.
  pub Reach-stopped :
      {s t : System}
      → Reach service s t
      → s.server.running ≡ false
      → (t.server.running ≡ false) × (t.server.connections ≤ s.server.connections)
  Reach-stopped here off = (off, omega arith)
  Reach-stopped (later {t} {u} r st) off =
      let (still, le) = Reach-stopped r off in
      let (off', le') = Step-stopped t u st still in (off', omega arith)

  -- The first check of a zero period ends the task.
  stopped :
      (env : Env) (join : List Completion → List Completion) (w : World)
      → service.probe_interval ≡ 0
      → after_begin (begin_checks env join (period_ms service) (limit_ms service) w).0 ≡ gone
  stopped env join w zero_period =
      let zero : period_ms service ≡ 0 = omega arith in
      ap (λ p. after_begin (begin_checks env join p (limit_ms service) w).0) zero
      ∙ ap after_begin (begin_checks-panic env join (limit_ms service) w)

  Step-not_ticking :
      (s t : System)
      → service.probe_interval ≡ 0
      → Step service s t
      → s.checker ≢ ticking
      → t.checker ≢ ticking
  Step-not_ticking s t zero_period (turned e h eq) off =
      λ on. off (sym (ap (λ (x : System). x.checker) eq) ∙ on)
  Step-not_ticking s t zero_period (served env req h eq) off =
      λ on. off (sym (ap (λ (x : System). x.checker) eq) ∙ on)
  Step-not_ticking s t zero_period (copied env ts us upstream h eq) off =
      λ on. off (sym (ap (λ (x : System). x.checker) eq) ∙ on)
  Step-not_ticking s t zero_period (closed n h eq) off =
      λ on. off (sym (ap (λ (x : System). x.checker) eq) ∙ on)
  Step-not_ticking s t zero_period (began env join h eq) off = λ on.
      gone_off
        (sym (stopped env join s.world zero_period) ∙ sym (ap (λ (x : System). x.checker) eq) ∙ on)
  Step-not_ticking s t zero_period (checked env join wait h le eq) off = absurd (off h)
  Step-not_ticking s t zero_period (reaped env wait h le eq) off =
      λ on. off (sym (ap (λ (x : System). x.checker) eq) ∙ on)
  Step-not_ticking s t zero_period (aborted h eq) off =
      λ on. gone_off (sym (ap (λ (x : System). x.checker) eq) ∙ on)

  never_ticking :
      (now : ℕ) {t : System}
      → service.probe_interval ≡ 0
      → Reach service (initial service now) t
      → t.checker ≢ ticking
  never_ticking now zero_period here = λ e. cc
  never_ticking now zero_period (later {t} {u} r st) =
      Step-not_ticking t u zero_period st (never_ticking now zero_period r)

  -- With a probe interval of zero the health checker is never in its loop, in whatever order the tasks
  -- run; and wherever the program stands, on any network, a start of the checker ends with its task gone
  -- behind the first check.
  pub Reach-not_ticking :
      (now : ℕ) {t : System}
      → service.probe_interval ≡ 0
      → Reach service (initial service now) t
      → (t.checker ≢ ticking)
        × ((env : Env) (join : List Completion → List Completion)
            → after_begin (begin_checks env join (period_ms service) (limit_ms service) t.world).0
              ≡ gone)
  Reach-not_ticking now {t} zero_period r =
      (never_ticking now zero_period r, λ env join. stopped env join t.world zero_period)

launch-initial :
    (parse_ip : Text → Result Text) (service : Service) (now : ℕ) (s : System)
    → launch parse_ip service now ≡ ok s
    → s ≡ initial service now
unfolding launch
launch-initial parse_ip service now s e =
    let (addr, parsed, same) =
      >>=-eq-ok (listen_addr parse_ip service) (λ addr. ok (initial service now)) e in
    cc

module _ (parse_toml : Text → Result Table) (parse_url : Text → Result Url) where
  -- The invariant of the running program: the manager is well formed, its channels are those of the
  -- configured upstreams, in order, and its settings are those that it was started with.
  pub record Runs (service : Service) (t : System) : Type 0 where
    pub valid : IsValid t.world.manager
    pub same_dsns : dsns t.world.manager ≡ dsns service.manager
    pub same_config : t.world.manager.config ≡ service.manager.config

  -- Whatever the program is started with, if it starts to serve, then in every state that its tasks reach,
  -- in any order and on any network, the manager is well formed and its channels are the configured
  -- upstreams in their order, each with the DSN that was parsed: those of the configuration that is
  -- loaded from the file and the arguments, which is the one that the manager keeps.
  pub Reach-Runs :
      (parse_ip : Text → Result Text) (file : File) (args : Args) (service : Service) (now : ℕ)
      (s t : System)
      → start parse_toml parse_url file args ≡ ok (serving service)
      → launch parse_ip service now ≡ ok s
      → Reach service s t
      → Starts parse_toml parse_url file args service × Runs service t
  Reach-Runs parse_ip file args service now s t e launched r =
      let starts = start-Starts parse_toml parse_url file args service e in
      let first : s ≡ initial service now = launch-initial parse_ip service now s launched in
      let kept : Kept (initial service now).world t.world =
        subst (λ x. Kept x.world t.world) first (Reach-Kept service r) in
      (
        starts,
        record {
          valid = kept.valid starts.valid;
          same_dsns = kept.same_dsns;
          same_config = kept.same_config;
        },
      )
