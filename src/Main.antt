-- ===== src/Main.antt =====
-- src/main.rs: from the command line to the shared manager. Logging is not modelled;
-- the listening address and the tasks that share the manager are in System.
pub mod Startup
use multi_proxy.Channel
use multi_proxy.Channel.{Channel}
use multi_proxy.Config
use multi_proxy.Config.{ConfigStrategy, Config, Table, File, Args}
use multi_proxy.Dsn.{Dsn, Url}
use multi_proxy.Manager
use multi_proxy.Manager.{ChannelManager}
use multi_proxy.Strategy.{Strategy}
use multi_proxy.Str.{is_empty}
use multi_proxy.Base.{◌>>=◌, List, Result, Text, [], if◌then◌else◌, not, ok, suc, ℕ, ◌&&◌, ◌∷◌}

-- strategy.rs, `Strategy::from`
unfoldable pub from : ConfigStrategy → Strategy
from ConfigStrategy.order = Strategy.order
from ConfigStrategy.hash = Strategy.hash

-- `.enumerate().map(|(i, dsn)| Channel::new(i, dsn))`
unfoldable pub number_from : ℕ → List Dsn → List Channel
number_from i [] = []
number_from i (d ∷ ds) = Channel.new i d ∷ number_from (suc i) ds

-- What `serve` is started with.
pub record Service : Type 0 where
  pub manager : ChannelManager
  pub strategy : Strategy
  pub probe_interval : ℕ
  pub connect_timeout : ℕ

pub data Start : Type 0 where
  no_upstreams : Start
  serving : Service → Start

start_with : Config → List Channel → Start
unfolding is_empty from
start_with config channels =
    if is_empty channels && not config.direct_first
    then no_upstreams
    else serving (record {
      manager = Manager.new channels config;
      strategy = from config.strategy;
      probe_interval = config.probe_interval;
      connect_timeout = config.connect_timeout;
    })

-- `main` up to the start of its tasks.
unfoldable pub start : (Text → Result Table) → (Text → Result Url) → File → Args → Result Start
unfolding start_with number_from
start parse_toml parse_url file args = do
  config ← Config.load parse_toml file args
  dsns ← Config.parse_upstreams parse_url config
  ok (start_with config (number_from 0 dsns))
