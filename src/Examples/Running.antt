-- ===== src/Examples/Running.antt =====
-- Examples: the running program, its accept loop and its health checks.
use mathlib.Core.List.Permᴰ
use multi_proxy.Examples.Data.{world, channel, http_network, socks5_dsn}
use multi_proxy.Examples.Startup.{args, parse_toml, parse_url, service, started}
use multi_proxy.Config.{absent}
use multi_proxy.Dsn.{socks5}
use multi_proxy.Health.{Completion, check_round, begin_checks}
use multi_proxy.Health.Joins.{IsCalm}
use multi_proxy.Health.Probes.{Found, get_elem?-check_round}
use multi_proxy.Main.{Service}
use multi_proxy.Main.Startup.{Starts}
use multi_proxy.Proxy.Serve.{accepted, accept_error, shutdown, serve_loop, turn}
use multi_proxy.Proxy.Serve.Shutdown.{serve_loop-shutdown, accepts}
use multi_proxy.System.{
  launch, System, Reach, here, later, initial, turned, began, ticking, limit_ms, period_ms,
  after_begin, gone,
}
use multi_proxy.Net.{Env}
use multi_proxy.System.Invariant.{Runs, Reach-Runs, Reach-not_ticking}
use multi_proxy.Base.{List, [], refl, some, ℕ, ◌∷◌, ◌≡◌, ◌≢◌, false, true, get_elem?, ◌≤◌, ok}

serve_loop-shutdown_example :
    serve_loop
      (accepted ∷ accept_error ∷ accepted ∷ shutdown ∷ accepted ∷ [])
      (record { running = true; connections = 1 })
    ≡ record { running = false; connections = 3 }
unfolding accepts
serve_loop-shutdown_example =
    serve_loop-shutdown (accepted ∷ accept_error ∷ accepted ∷ []) (accepted ∷ [])
      (record { running = true; connections = 1 }) ((λ e. cc), ((λ e. cc), ((λ e. cc), tt)))

calm : IsCalm http_network
calm n = refl

abbrev in_turn : List Completion → List Completion
in_turn cs = cs

get_elem?-check_round_example :
    (t : ℕ) × (12000 ≤ t)
    × (get_elem? (check_round http_network in_turn 3000 world).1.manager.channels 1
        ≡ some (Found true t (channel 1 (socks5 socks5_dsn))))
get_elem?-check_round_example =
    get_elem?-check_round http_network calm in_turn 3000 1 (channel 1 (socks5 socks5_dsn)) world
      Permᴰ.refl (refl, (refl, tt)) refl

-- One connection is accepted, and then the health checker begins.
abbrev one_accepted : Service → System
one_accepted svc = record (initial svc 0) { server = record { running = true; connections = 1 } }

abbrev checks_begun : Service → System
checks_begun svc = record (one_accepted svc) {
  world =
      (begin_checks http_network in_turn (period_ms svc) (limit_ms svc) (one_accepted svc).world).1;
  checker =
      after_begin
        (begin_checks http_network in_turn (period_ms svc) (limit_ms svc)
          (one_accepted svc).world).0;
}

reached : (svc : Service) → Reach svc (initial svc 0) (checks_begun svc)
unfolding turn
reached svc = later (later here (turned accepted refl refl)) (began http_network in_turn refl refl)

launched : launch ok service 0 ≡ ok (initial service 0)
unfolding launch
launched = refl

Reach-Runs_example :
    Starts parse_toml parse_url absent args service
    × Runs parse_toml parse_url service (checks_begun service)
Reach-Runs_example =
    Reach-Runs parse_toml parse_url ok absent args service 0 (initial service 0)
      (checks_begun service) started launched (reached service)

abbrev never_again : Service
never_again = record service { probe_interval = 0 }

Reach-not_ticking_example :
    ((checks_begun never_again).checker ≢ ticking)
    × ((env : Env) (join : List Completion → List Completion)
        → after_begin
            (begin_checks env join
              (period_ms never_again)
              (limit_ms never_again)
              (checks_begun never_again).world).0
          ≡ gone)
Reach-not_ticking_example = Reach-not_ticking never_again 0 refl (reached never_again)
