-- ===== src/Examples/Startup.antt =====
-- Examples: DSNs, the configuration and the start.
use multi_proxy.Config
use multi_proxy.Config.{Config, Args, File, absent, content, Table, load, load_file}
use multi_proxy.Config.Laws.{Merged, load-Merged}
use multi_proxy.Dsn.{HttpDsn, Url, http, from_str}
use multi_proxy.Dsn.Laws.{PortDocs, from_str-not_80}
use multi_proxy.Main.{Service, serving, start, number_from}
use multi_proxy.Manager
use multi_proxy.Str.Decimal.{parse_uint}
use multi_proxy.Dsn.{http_from_str}
use multi_proxy.Str.{text_eq, starts_with, trim}
use multi_proxy.Strategy.{hash}
use multi_proxy.Base.{Result, Text, [], arith, err, none, ok, refl, some, text, ◌∷◌, ◌≡◌, ◌≢◌}

-- A parser that reads every URL as `http://h:3128`.
abbrev pub url : Url
url = record {
  host_str = some (text "h");
  port = some 3128;
  username = [];
  password = none;
  path = text "/";
  query = none;
  query_pairs = [];
}

abbrev pub parse_url : Text → Result Url
parse_url s = ok url

docs : PortDocs parse_url
docs s u p e h = let same : 3128 ≡ p = cc in (omega arith, λ h. omega arith)

abbrev pub dsn : HttpDsn
dsn = record { host = text "h"; port = 3128; user = none; pass = none }

parsed : from_str parse_url (text "http://h:3128") ≡ ok (http dsn)
unfolding from_str trim text starts_with http_from_str
parsed = refl

from_str-not_80_example : dsn.port ≢ 80
from_str-not_80_example = from_str-not_80 parse_url (text "http://h:3128") dsn docs parsed

abbrev pub args : Args
args = record {
  host = none;
  port = some (text "81");
  strategy = some (text "hash");
  direct_first = none;
  upstream = text "http://h:3128" ∷ [];
}

abbrev pub parse_toml : Text → Result Table
parse_toml s = err (text "no table")

abbrev pub loaded_config : Config
loaded_config = record Config.default {
  port = 81;
  strategy = Config.hash;
  upstreams = text "http://h:3128" ∷ [];
}

loaded : load parse_toml absent args ≡ ok loaded_config
unfolding load text parse_uint Config.strategy_from_str text_eq
loaded = refl

load-Merged_example :
    (base : Config) × (load_file parse_toml absent ≡ ok base) × Merged base args loaded_config
load-Merged_example = load-Merged parse_toml absent args loaded_config loaded

abbrev pub service : Service
service = record {
  manager = Manager.new (number_from 0 (http dsn ∷ [])) loaded_config;
  strategy = hash;
  probe_interval = 600;
  connect_timeout = 3;
}

pub started : start parse_toml parse_url absent args ≡ ok (serving service)
unfolding start text load parse_uint Config.strategy_from_str text_eq Config.parse_upstreams
    from_str starts_with trim http_from_str
started = refl
