-- ===== src/Config/Laws.antt =====
-- Priorities and errors of the configuration.
use multi_proxy.Dsn
use multi_proxy.Dsn.{Dsn, Url, unwrap_or}
use multi_proxy.Str.Decimal.{parse_uint, max_u16}
use multi_proxy.Config.{
  Config, Args, parse_all, parse_upstreams, strategy_from_str, Table, override_port,
  override_strategy, load, map_err, File, load_file, override_host,
}
use multi_proxy.Base.{
  List, Result, Text, [], arith, map, none, ok, refl, some, ◌++◌, ◌↔◌, ◌∷◌, ◌≡◌, >>=-eq-ok, Option,
}

-- All upstreams are parsed, or the first error is the result: success means that each DSN parsed.
pub parse_all-ok :
    (parse : Text → Result Dsn) (ss : List Text) (ds : List Dsn)
    → (parse_all parse ss ≡ ok ds) ↔ (map parse ss ≡ map ok ds)
unfolding parse_all
parse_all-ok parse [] [] = (λ e. refl, λ e. refl)
parse_all-ok parse [] (d ∷ ds) = (λ e. ground arith, λ e. ground arith)
parse_all-ok parse (s ∷ ss) [] = (λ e. ground arith, λ e. ground arith)
parse_all-ok parse (s ∷ ss) (d ∷ ds) =
    let (there, back) = parse_all-ok parse ss ds in
    (λ e. ground (arith, there), λ e. ground (arith, back))

pub parse_upstreams-ok :
    (parse_url : Text → Result Url) (c : Config) (ds : List Dsn)
    → (parse_upstreams parse_url c ≡ ok ds) ↔ (map (Dsn.from_str parse_url) c.upstreams ≡ map ok ds)
unfolding parse_upstreams
parse_upstreams-ok parse_url c ds = parse_all-ok (Dsn.from_str parse_url) c.upstreams ds

-- Where the port and the strategy come from: the override, read, or the base.
abbrev pub PortFrom : Config → Option Text → Config → Type 0
PortFrom base none c = c.port ≡ base.port
PortFrom base (some p) c = parse_uint max_u16 p ≡ ok c.port

abbrev pub StrategyFrom : Config → Option Text → Config → Type 0
StrategyFrom base none c = c.strategy ≡ base.strategy
StrategyFrom base (some s) c = strategy_from_str s ≡ ok c.strategy

-- The loaded configuration beside the file's, or the defaults where there is no file.
pub record Merged (base : Config) (args : Args) (c : Config) : Type 0 where
  pub host : c.host ≡ unwrap_or base.host args.host
  pub direct_first : c.direct_first ≡ unwrap_or base.direct_first args.direct_first
  pub upstreams : c.upstreams ≡ base.upstreams ++ args.upstream
  pub probe_interval : c.probe_interval ≡ base.probe_interval
  pub connect_timeout : c.connect_timeout ≡ base.connect_timeout
  pub port : PortFrom base args.port c
  pub strategy : StrategyFrom base args.strategy c

PortFrom-same :
    (arg : Option Text) (b b' c c' : Config)
    → b'.port ≡ b.port
    → c'.port ≡ c.port
    → PortFrom b' arg c'
    → PortFrom b arg c
PortFrom-same none b b' c c' e f h = cc
PortFrom-same (some p) b b' c c' e f h = cc

StrategyFrom-same :
    (arg : Option Text) (b b' c c' : Config)
    → b'.strategy ≡ b.strategy
    → c'.strategy ≡ c.strategy
    → StrategyFrom b' arg c'
    → StrategyFrom b arg c
StrategyFrom-same none b b' c c' e f h = cc
StrategyFrom-same (some s) b b' c c' e f h = cc

-- What an override by a text leaves alone.
abbrev SameButPort : Config → Config → Type 0
SameButPort c c' =
    (c'.host ≡ c.host)
    × (c'.direct_first ≡ c.direct_first)
    × (c'.upstreams ≡ c.upstreams)
    × (c'.probe_interval ≡ c.probe_interval)
    × (c'.connect_timeout ≡ c.connect_timeout)
    × (c'.strategy ≡ c.strategy)

override_port_parts :
    (arg : Option Text) (c c' : Config)
    → override_port arg c ≡ ok c'
    → SameButPort c c' × PortFrom c arg c'
unfolding override_port map_err
override_port_parts none c c' e = (ground arith, ground arith)
override_port_parts (some p) c c' e = (ground arith, ground arith)

abbrev SameButStrategy : Config → Config → Type 0
SameButStrategy c c' =
    (c'.host ≡ c.host)
    × (c'.direct_first ≡ c.direct_first)
    × (c'.upstreams ≡ c.upstreams)
    × (c'.probe_interval ≡ c.probe_interval)
    × (c'.connect_timeout ≡ c.connect_timeout)
    × (c'.port ≡ c.port)

override_strategy_parts :
    (arg : Option Text) (c c' : Config)
    → override_strategy arg c ≡ ok c'
    → SameButStrategy c c' × StrategyFrom c arg c'
unfolding override_strategy
override_strategy_parts none c c' e = (ground arith, ground arith)
override_strategy_parts (some s) c c' e = (ground arith, ground arith)

module _ (parse_toml : Text → Result Table) where
  -- If the configuration loads, then a host, port, strategy or direct_first that is given beside
  -- the file wins over the file, or over the defaults where there is no file, and what is given as
  -- a port or a strategy parsed; the upstreams given beside the file come behind the file's;
  -- nothing else changes.
  pub load-Merged :
      (file : File) (args : Args) (c : Config)
      → load parse_toml file args ≡ ok c
      → (base : Config) × (load_file parse_toml file ≡ ok base) × Merged base args c
  unfolding load unwrap_or
  load-Merged file args c e =
      let (base, read, e1) = >>=-eq-ok (load_file parse_toml file) _ e in
      let (c1, ported, e2) =
        >>=-eq-ok (override_port args.port (override_host args.host base)) _ e1 in
      let (c2, strategic, e3) = >>=-eq-ok (override_strategy args.strategy c1) _ e2 in
      let (p, ported_from) =
        override_port_parts args.port (override_host args.host base) c1 ported in
      let (s, strategy_from) = override_strategy_parts args.strategy c1 c2 strategic in
      (
        base,
        read,
        record {
          host = ground arith;
          direct_first = ground arith;
          upstreams = ground arith;
          probe_interval = ground arith;
          connect_timeout = ground arith;
          port =
              PortFrom-same args.port base (override_host args.host base) c c1 (ground arith)
                (ground arith) ported_from;
          strategy =
              StrategyFrom-same args.strategy base c1 c c2 (ground arith) (ground arith)
                strategy_from;
        },
      )
