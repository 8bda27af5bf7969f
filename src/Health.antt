-- ===== src/Health.antt =====
-- src/upstream/health.rs, and `probe` of http.rs, socks5.rs and ssh.rs beside it: the TCP probes of
-- all channels. The probes run as tasks of their own and end in any order: `join` is the order in which
-- tokio's JoinSet hands their ends over. `run_check` is a whole check with nobody else about, and
-- `check_round` one among the other tasks.
pub mod Schedule
pub mod Joins
pub mod Probes
pub mod Shared
use multi_proxy.Channel.{Channel}
use multi_proxy.Dsn.{Dsn, http, socks5, ssh, HttpDsn, Socks5Dsn, SshDsn}
use multi_proxy.Manager
use multi_proxy.Manager.{ChannelManager}
use multi_proxy.Proxy.Http.{host_port}
use multi_proxy.Net.{
  Env, World, Stream, M, pure, next, attempt, connect, ◌>>=◌, Outcome, crash, elapse, pause, done,
  fail, panic, hang, ◌>>◌,
}
use multi_proxy.Base.{
  Bool, List, Option, Result, Text, [], err, false, none, ok, some, true, ℕ, ◌∷◌, if◌then◌else◌,
  ◌+◌, ◌-◌, ◌==◌,
}

answered : Result Stream → M Bool
answered (ok s) = pure true
answered (err e) = pure false

module _ (env : Env) where
  -- `matches!(timeout(limit, TcpStream::connect(addr)).await, Ok(Ok(_)))`
  probe : Text → ℕ → ℕ → M Bool
  unfolding answered
  probe host port limit = attempt (connect env limit (host_port host port) [] []) >>= answered

  unfoldable pub probe_http : HttpDsn → ℕ → M Bool
  unfolding probe
  probe_http dsn limit = probe dsn.host dsn.port limit

  unfoldable pub probe_socks5 : Socks5Dsn → ℕ → M Bool
  unfolding probe
  probe_socks5 dsn limit = probe dsn.host dsn.port limit

  unfoldable pub probe_ssh : SshDsn → ℕ → M Bool
  unfolding probe
  probe_ssh dsn limit = probe dsn.host dsn.port limit

  unfoldable pub check_channel : Dsn → ℕ → M Bool
  unfolding probe_http probe_socks5 probe_ssh
  check_channel (http dsn) limit = probe_http dsn limit
  check_channel (socks5 dsn) limit = probe_socks5 dsn limit
  check_channel (ssh dsn) limit = probe_ssh dsn limit

-- The end of one probe: the channel, what the probe found (`none` if its task panicked), and when.
pub record Completion : Type 0 where
  pub id : ℕ
  pub healthy : Option Bool
  pub now : ℕ

pub record_health : ℕ → ℕ → Option Bool → ChannelManager → ChannelManager
record_health id now (some true) m = Manager.mark_healthy now id m
record_health id now (some false) m = Manager.mark_unhealthy now id m
record_health id now none m = m

-- The loop of `run_check` over `join_next`.
unfoldable pub run_check : List Completion → ChannelManager → ChannelManager
unfolding record_health
run_check [] m = m
run_check (c ∷ cs) m = run_check cs (record_health c.id c.now c.healthy m)

-- What a probe's task hands over; none if it panicked.
probe_result : Outcome Bool → Option Bool
probe_result (done healthy) = some healthy
probe_result (fail e) = none
probe_result panic = none
probe_result hang = none

module _ (env : Env) where
  -- The task of one channel.
  spawn : ℕ → Channel → World → Completion
  unfolding probe_result
  spawn limit c w =
      let ended = check_channel env c.dsn limit w in
      record { id = c.id; healthy = probe_result ended.0; now = ended.1.now }

  -- The tasks of all channels start at once; each has awaits of its own.
  unfoldable pub spawn_all : ℕ → List Channel → World → List Completion
  unfolding spawn
  spawn_all limit [] w = []
  spawn_all limit (c ∷ cs) w =
      spawn limit c w ∷ spawn_all limit cs (record w { awaits = w.awaits + 1 })

  -- `while let Some(res) = set.join_next().await`, from the list of the ends.
  unfoldable pub join_all : List Completion → M (Unit {0})
  unfolding record_health
  join_all [] w = pure tt w
  join_all (c ∷ cs) w =
      let w1 = elapse env (c.now - w.now) w in
      join_all cs (record w1 { manager = record_health c.id w1.now c.healthy w1.manager })

  -- `run_check(&manager, timeout).await`, with the probes it starts.
  unfoldable pub check_round : (List Completion → List Completion) → ℕ → M (Unit {0})
  check_round join limit w = join_all (join (spawn_all limit w.manager.channels w)) w

  -- `interval(period)` panics for a period of zero; its first tick comes at once.
  unfoldable pub ticker : ℕ → M (Unit {0})
  ticker period = if period == 0 then crash else pause env 0

  -- The task of `start_health_checker` up to its loop, and one round of the loop.
  unfoldable pub begin_checks : (List Completion → List Completion) → ℕ → ℕ → M (Unit {0})
  begin_checks join period limit = do check_round join limit; ticker period

  -- `wait` is what is left of the period when the task asks for the next tick.
  unfoldable pub next_check : (List Completion → List Completion) → ℕ → ℕ → M (Unit {0})
  next_check join wait limit = do pause env wait; check_round join limit
