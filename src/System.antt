-- ===== src/System.antt =====
-- The running program: src/main.rs from `serve` on, the accept loop of src/proxy.rs, the tasks of the
-- connections and tunnels and the two background tasks of src/upstream/health.rs and src/upstream/ssh.rs, which
-- share one manager and one SSH pool. A step runs a task up to its next idle point; what the other tasks
-- do meanwhile is in the environment of the step, which each step chooses anew.
pub mod Invariant
use multi_proxy.Health.{Completion, begin_checks, next_check}
use multi_proxy.Main.{Service}
use multi_proxy.Net.{Env, World, Outcome, done, fail, panic, hang, Stream}
use multi_proxy.Proxy.Forward.{Request}
use multi_proxy.Proxy.Response.{Response}
use multi_proxy.Proxy.Serve.{Server, Turn, turn}
use multi_proxy.Proxy.Server.{handle_request, copy_tunnel}
use multi_proxy.Ssh.{reap, reap_period}
use multi_proxy.Base.{
  ◌>>=◌, Bool, List, false, none, suc, true, ℕ, ◌*◌, ◌<◌, ◌≤◌, ◌≡◌, [], some, ◌++◌, ◌∷◌, Result,
  Text, ok,
}

-- The task of the health checker: before its first check, in its loop, or gone.
pub data Task : Type 0 where
  starting ticking gone : Task

pub record System : Type 0 where
  pub world : World
  pub server : Server
  pub checker : Task
  pub reaper : Bool
  pub tunnels : List Stream

-- The timeout and the period in milliseconds; the configuration has seconds.
abbrev pub limit_ms : Service → ℕ
limit_ms service = 1000 * service.connect_timeout

abbrev pub period_ms : Service → ℕ
period_ms service = 1000 * service.probe_interval

abbrev pub after_begin : Outcome (Unit {0}) → Task
after_begin (done u) = ticking
after_begin (fail e) = gone
after_begin panic = gone
after_begin hang = gone

-- The stream that a response hands over to a copying task.
abbrev pub handed_over : Outcome Response → List Stream → List Stream
handed_over (done resp) tunnels = elim resp.tunnel [
  | none ↦ tunnels
  | some upstream ↦ upstream ∷ tunnels
]
handed_over (fail e) tunnels = tunnels
handed_over panic tunnels = tunnels
handed_over hang tunnels = tunnels

-- What happens next.
pub data Step (service : Service) (s t : System) : Type 0 where
  -- `serve`, while its loop runs.
  turned :
      (e : Turn)
      → s.server.running ≡ true
      → t ≡ record s { server = turn e s.server }
      → Step service s t
  -- A connection's task serves one request, or ends.
  served :
      (env : Env) (req : Request)
      → 0 < s.server.connections
      → t ≡ record s {
        world = (handle_request env req service.strategy (limit_ms service) s.world).1;
        tunnels =
            handed_over
              (handle_request env req service.strategy (limit_ms service) s.world).0
              s.tunnels;
      }
      → Step service s t
  -- The copying task of a tunnel.
  copied :
      (env : Env) (ts us : List Stream) (upstream : Stream)
      → s.tunnels ≡ ts ++ upstream ∷ us
      → t ≡ record s { world = (copy_tunnel env upstream s.world).1; tunnels = ts ++ us }
      → Step service s t
  closed :
      (n : ℕ)
      → s.server.connections ≡ suc n
      → t ≡ record s { server = record s.server { connections = n } }
      → Step service s t
  -- `start_health_checker`.
  began :
      (env : Env) (join : List Completion → List Completion)
      → s.checker ≡ starting
      → t ≡ record s {
        world = (begin_checks env join (period_ms service) (limit_ms service) s.world).1;
        checker =
            after_begin (begin_checks env join (period_ms service) (limit_ms service) s.world).0;
      }
      → Step service s t
  checked :
      (env : Env) (join : List Completion → List Completion) (wait : ℕ)
      → s.checker ≡ ticking
      → wait ≤ period_ms service
      → t ≡ record s { world = (next_check env join wait (limit_ms service) s.world).1 }
      → Step service s t
  -- `start_idle_reaper`.
  reaped :
      (env : Env) (wait : ℕ)
      → s.reaper ≡ true
      → wait ≤ reap_period env
      → t ≡ record s { world = (reap env wait s.world).1 }
      → Step service s t
  -- `main` aborts both once `serve` has returned.
  aborted :
      s.server.running ≡ false → t ≡ record s { checker = gone; reaper = false } → Step service s t

-- What `main` hands to its tasks.
abbrev pub initial : Service → ℕ → System
initial service now = record {
  world = record { now = now; awaits = 0; manager = service.manager; pool = none };
  server = record { running = true; connections = 0 };
  checker = starting;
  reaper = true;
  tunnels = [];
}

-- `SocketAddr::new(config.host.parse()?, config.port)`; parsing an IP address is the standard library's.
unfoldable pub listen_addr : (Text → Result Text) → Service → Result (Text × ℕ)
listen_addr parse_ip service = do
  ip ← parse_ip service.manager.config.host
  ok (ip, service.manager.config.port)

-- `main` from the start of the tasks up to `serve`: it ends at once if the address is none.
unfoldable pub launch : (Text → Result Text) → Service → ℕ → Result System
unfolding listen_addr
launch parse_ip service now = do addr ← listen_addr parse_ip service; ok (initial service now)

pub data Reach (service : Service) (s : System) : System → Type 0 where
  here : Reach service s s
  later : {t u : System} → Reach service s t → Step service t u → Reach service s u
