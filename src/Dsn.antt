-- ===== src/Dsn.antt =====
-- src/dsn.rs: the DSN of an upstream channel and its parsing. `url::Url::parse` belongs to the crate
-- url; it is a parameter that returns the accessors' values, and its documented behaviour is stated
-- where a theorem relies on it.
pub mod Laws
use multi_proxy.Str.{starts_with, trim, is_empty, text_eq}
use multi_proxy.Str.Decimal.{parse_uint, max_u64}
use multi_proxy.Base.{
  List, Option, Result, Text, [], err, if◌then◌else◌, none, ok, ok_or, some, text, ℕ, ◌++◌, ◌>>=◌,
  ◌∷◌,
}

pub record HttpDsn : Type 0 where
  pub host : Text
  pub port : ℕ
  pub user : Option Text
  pub pass : Option Text

pub record Socks5Dsn : Type 0 where
  pub host : Text
  pub port : ℕ
  pub user : Option Text
  pub pass : Option Text

pub record SshDsn : Type 0 where
  pub user : Text
  pub pass : Option Text
  pub host : Text
  pub port : ℕ
  pub key_path : Option Text
  pub keepalive : ℕ

pub data Dsn : Type 0 where
  http : HttpDsn → Dsn
  socks5 : Socks5Dsn → Dsn
  ssh : SshDsn → Dsn

-- What the accessors of a `url::Url` return.
pub record Url : Type 0 where
  pub host_str : Option Text
  pub port : Option ℕ
  pub username : Text
  pub password : Option Text
  pub path : Text
  pub query : Option Text
  pub query_pairs : List (Text × Text)

-- `pairs.find(|(k, _)| k == key).map(|(_, v)| v)`
unfoldable pub find_pair : Text → List (Text × Text) → Option Text
find_pair key [] = none
find_pair key ((k, v) ∷ pairs) = if text_eq k key then some v else find_pair key pairs

unfoldable pub unwrap_or {ℓ} : {A : Type ℓ} → A → Option A → A
unwrap_or d none = d
unwrap_or d (some a) = a

-- `if url.username().is_empty() { None } else { Some(..) }`
unfoldable pub user_of : Text → Option Text
unfolding is_empty
user_of u = if is_empty u then none else some u

parsed_or : ℕ → Option Text → ℕ
parsed_or d none = d
parsed_or d (some v) = elim (parse_uint max_u64 v) [ ok n ↦ n | err _ ↦ d ]

-- `.and_then(|(_, v)| v.parse().ok()).unwrap_or(30)`
unfoldable pub keepalive_of : Option Text → ℕ
unfolding parsed_or
keepalive_of v = parsed_or 30 v

module _ (parse_url : Text → Result Url) where
  unfoldable pub http_from_str : Text → Result HttpDsn
  unfolding unwrap_or user_of
  http_from_str s = do
    url ← parse_url s
    host ← ok_or url.host_str (text "HTTP DSN missing host")
    ok (record {
      host = host;
      port = unwrap_or 8080 url.port;
      user = user_of url.username;
      pass = url.password;
    })

  unfoldable pub socks5_from_str : Text → Result Socks5Dsn
  unfolding unwrap_or user_of
  socks5_from_str s = do
    url ← parse_url s
    host ← ok_or url.host_str (text "SOCKS5 DSN missing host")
    ok (record {
      host = host;
      port = unwrap_or 1080 url.port;
      user = user_of url.username;
      pass = url.password;
    })

  unfoldable pub ssh_from_str : Text → Result SshDsn
  unfolding unwrap_or find_pair keepalive_of
  ssh_from_str s = do
    url ← parse_url s
    host ← ok_or url.host_str (text "SSH DSN missing host")
    ok (record {
      user = url.username;
      pass = url.password;
      host = host;
      port = unwrap_or 22 url.port;
      key_path = find_pair (text "key") url.query_pairs;
      keepalive = keepalive_of (find_pair (text "keepalive") url.query_pairs);
    })

  dispatch : Text → Result Dsn
  dispatch s =
      if starts_with s (text "http://")
      then (http_from_str s >>= λ d. ok (http d))
      else if starts_with s (text "socks5://")
      then (socks5_from_str s >>= λ d. ok (socks5 d))
      else if starts_with s (text "ssh://")
      then (ssh_from_str s >>= λ d. ok (ssh d))
      else err (text "Unknown DSN scheme: " ++ s)

  unfoldable pub from_str : Text → Result Dsn
  unfolding dispatch
  from_str s = dispatch (trim s)
