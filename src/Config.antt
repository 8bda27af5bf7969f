-- ===== src/Config.antt =====
-- src/config.rs: settings from the file, the command line and the environment. The crates toml and
-- clap are outside: the parameter `parse_toml` returns the file's table, field by field as far as a
-- field is there, and `Args` holds what clap merged from flags and environment.
pub mod Laws
use multi_proxy.Str.{text_eq, to_ascii_lowercase}
use multi_proxy.Str.Decimal.{parse_uint, max_u16}
use multi_proxy.Dsn
use multi_proxy.Dsn.{Dsn, Url, unwrap_or}
use multi_proxy.Base.{
  Bool, List, Option, Result, Text, [], err, false, if◌then◌else◌, map, none, ok, ok_or, some, text,
  ℕ, ◌++◌, ◌>>=◌, ◌∷◌,
}

pub data ConfigStrategy : Type 0 where
  order hash : ConfigStrategy

pub record Config : Type 0 where
  pub host : Text
  pub port : ℕ
  pub strategy : ConfigStrategy
  pub direct_first : Bool
  pub probe_interval : ℕ
  pub connect_timeout : ℕ
  pub upstreams : List Text

abbrev pub default_host : Text
default_host = text "127.0.0.1"

abbrev pub default_port : ℕ
default_port = 12380

abbrev pub default_probe_interval : ℕ
default_probe_interval = 600

abbrev pub default_connect_timeout : ℕ
default_connect_timeout = 3

-- `Config::default()`
abbrev pub default : Config
default = record {
  host = default_host;
  port = default_port;
  strategy = order;
  direct_first = false;
  probe_interval = default_probe_interval;
  connect_timeout = default_connect_timeout;
  upstreams = [];
}

-- A character of a strategy's name in lower case. Of the characters beyond ASCII only the Kelvin
-- sign has an ASCII lower case, `k`, which neither name holds, so they may stay as they are.
strategy_named : Text → Text → Result ConfigStrategy
strategy_named s lower =
    if text_eq lower (text "order")
    then ok order
    else if text_eq lower (text "hash")
    then ok hash
    else err (text "Unknown strategy: " ++ s)

unfoldable pub strategy_from_str : Text → Result ConfigStrategy
unfolding strategy_named to_ascii_lowercase
strategy_from_str s = strategy_named s (map to_ascii_lowercase s)

-- The table of a configuration file: each field of `Config` that the file sets.
pub record Table : Type 0 where
  pub host : Option Text
  pub port : Option ℕ
  pub strategy : Option ConfigStrategy
  pub direct_first : Option Bool
  pub probe_interval : Option ℕ
  pub connect_timeout : Option ℕ
  pub upstreams : Option (List Text)

-- The `#[serde(default …)]` attributes of `Config`; `upstreams` has none and must be there.
unfoldable pub deserialize : Table → Result Config
unfolding unwrap_or
deserialize t = do
  upstreams ← ok_or t.upstreams (text "missing field `upstreams`")
  ok (record {
    host = unwrap_or default_host t.host;
    port = unwrap_or default_port t.port;
    strategy = unwrap_or order t.strategy;
    direct_first = unwrap_or false t.direct_first;
    probe_interval = unwrap_or default_probe_interval t.probe_interval;
    connect_timeout = unwrap_or default_connect_timeout t.connect_timeout;
    upstreams = upstreams;
  })

-- The file that `--config` names, as the file system shows it.
pub data File : Type 0 where
  absent : File
  unreadable : Text → File
  content : Text → File

pub record Args : Type 0 where
  pub host : Option Text
  pub port : Option Text
  pub strategy : Option Text
  pub direct_first : Option Bool
  pub upstream : List Text

-- `.map_err(|e| format!("{prefix}{e}"))`
unfoldable pub map_err {ℓ} : {A : Type ℓ} → Text → Result A → Result A
map_err prefix (ok a) = ok a
map_err prefix (err e) = err (prefix ++ e)

unfoldable pub override_host : Option Text → Config → Config
override_host none c = c
override_host (some host) c = record c { host = host }

unfoldable pub override_port : Option Text → Config → Result Config
unfolding map_err
override_port none c = ok c
override_port (some port) c = do
  n ← map_err (text "Invalid PORT '" ++ (port ++ text "': ")) (parse_uint max_u16 port)
  ok (record c { port = n })

unfoldable pub override_strategy : Option Text → Config → Result Config
override_strategy none c = ok c
override_strategy (some s) c = strategy_from_str s >>= λ st. ok (record c { strategy = st })

unfoldable pub override_direct_first : Option Bool → Config → Config
override_direct_first none c = c
override_direct_first (some v) c = record c { direct_first = v }

module _ (parse_toml : Text → Result Table) where
  unfoldable pub load_file : File → Result Config
  unfolding map_err deserialize
  load_file absent = ok default
  load_file (unreadable e) = err (text "Failed to read config: " ++ e)
  load_file (content s) = map_err (text "Failed to parse config: ") (parse_toml s >>= deserialize)

  -- `Config::load`
  unfoldable pub load : File → Args → Result Config
  unfolding load_file override_host override_port override_strategy override_direct_first
  load file args = do
    c ← load_file file
    c ← override_port args.port (override_host args.host c)
    c ← override_strategy args.strategy c
    let c' = override_direct_first args.direct_first c
    ok (record c' { upstreams = c'.upstreams ++ args.upstream })

-- `.iter().map(|s| s.parse()).collect()`: the first error ends it.
unfoldable pub parse_all : (Text → Result Dsn) → List Text → Result (List Dsn)
parse_all parse [] = ok []
parse_all parse (s ∷ ss) = do d ← parse s; ds ← parse_all parse ss; ok (d ∷ ds)

-- `Config::parse_upstreams`
unfoldable pub parse_upstreams : (Text → Result Url) → Config → Result (List Dsn)
unfolding parse_all
parse_upstreams parse_url c = parse_all (Dsn.from_str parse_url) c.upstreams
