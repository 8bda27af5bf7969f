-- ===== src/Proxy/Forward.antt =====
-- src/proxy.rs, "Path-style forward": the request that is sent on, and the attempts to send it. The
-- body of the client's request is collected by hyper and comes as one reply.
pub mod Sent
pub mod Printed
pub mod RoundTrip
pub mod Upload
pub mod Framed
pub mod Wire
pub mod Relay
pub mod Fallback
pub mod Origin
pub mod Provenance
pub mod Delivery
pub mod Exchange
pub mod Reached
pub mod Shared
use multi_proxy.Str.{starts_with, is_empty, eq_ignore_ascii_case}
use multi_proxy.Str.Utf8.{as_bytes}
use multi_proxy.Dsn.{Dsn, Url, unwrap_or}
use multi_proxy.Manager
use multi_proxy.Strategy.{Strategy}
use multi_proxy.Proxy.Http.{crlf, host_port}
use multi_proxy.Proxy.Request.{parse_path_target}
use multi_proxy.Proxy.Response.{Response, error_response, read_streaming_response}
use multi_proxy.Proxy.Tunnel.{
  Tried, got, exhausted, establish_direct, establish_via_dsn, ordered_channels, try_channels,
}
use multi_proxy.Net.{
  Env, World, Stream, Reply, M, pure, throw, next, get, attempt, map_err, from_result, ask,
  write_all, ◌>>=◌, ◌>>◌,
}
use multi_proxy.Base.{
  Bool, Bytes, List, Option, Result, Text, [], err, false, if◌then◌else◌, none, not, ok, ok_or,
  some, text, true, ℕ, ◌&&◌, ◌++◌, ◌==◌, ◌||◌, ◌∷◌,
}

-- A client's request. The URI's path ends before its query.
pub record Request : Type 0 where
  pub method : Text
  pub path : Text
  pub query : Option Text
  pub authority : Option Text
  pub headers : List (Text × Bytes)
  pub body : Reply Bytes

-- What one header of the client becomes.
unfoldable pub header_line : Text → ℕ → Text → Bytes → Bytes
header_line host port name value =
    if eq_ignore_ascii_case name (text "host")
    then text "Host: "
      ++ ((if port == 443 then as_bytes host else as_bytes (host_port host port)) ++ crlf)
    else if eq_ignore_ascii_case name (text "connection")
        || (eq_ignore_ascii_case name (text "keep-alive")
            || eq_ignore_ascii_case name (text "proxy-connection"))
    then []
    else as_bytes name ++ (text ": " ++ (value ++ crlf))

unfoldable pub header_lines : Text → ℕ → List (Text × Bytes) → Bytes
unfolding header_line
header_lines host port [] = []
header_lines host port ((name, value) ∷ hs) =
    header_line host port name value ++ header_lines host port hs

-- The request up to its body.
unfoldable pub request_head : Text → Text → Text → ℕ → List (Text × Bytes) → Bytes
unfolding header_lines
request_head method request_path host port headers =
    as_bytes (method ++ b' ' ∷ (request_path ++ (text " HTTP/1.1" ++ crlf)))
    ++ (header_lines host port headers ++ (text "Connection: close" ++ (crlf ++ crlf)))

unfoldable pub path_and_query : Text → Option Text → Text
path_and_query path none = path
path_and_query path (some q) = path ++ b'?' ∷ q

-- Prefix `http://` unless the target has a scheme.
unfoldable pub target_url : Text → Text
target_url target =
    if not (starts_with target (text "http://")) && not (starts_with target (text "https://"))
    then text "http://" ++ target
    else target

module _ (env : Env) where
  unfoldable pub make_tls : Text → Stream → M Stream
  make_tls host stream = do
    map_err (text "TLS connector: ") (from_result env.tls_connector)
    map_err (text "TLS handshake: ") (ask env (λ n. env.tls n host stream))

  pub secure : Bool → Text → Stream → M Stream
  unfolding make_tls
  secure true host upstream = make_tls host upstream
  secure false host upstream = pure upstream

  -- `flush` is a write of no bytes.
  unfoldable pub forward_through : Stream → Text → Bool → Bytes → ℕ → M Response
  unfolding secure
  forward_through upstream host is_https request_bytes limit = do
    stream ← secure is_https host upstream
    stream ← map_err (text "write request: ") (write_all env request_bytes stream)
    stream ← map_err (text "flush request: ") (write_all env [] stream)
    read_streaming_response env stream limit

  -- Where a direct attempt ends: an unreachable origin leaves the last error as it was.
  direct_outcome : Result Response → M (Tried Response)
  direct_outcome (ok resp) = pure (got resp)
  direct_outcome (err e) = pure (exhausted e)

  direct_connected : (Stream → M Response) → Text → Result Stream → M (Tried Response)
  unfolding direct_outcome
  direct_connected send last_err (ok upstream) = attempt (send upstream) >>= direct_outcome
  direct_connected send last_err (err _) = pure (exhausted last_err)

  pub direct_turn : Bool → M Stream → (Stream → M Response) → Text → M (Tried Response)
  unfolding direct_connected
  direct_turn true direct send last_err = attempt direct >>= direct_connected send last_err
  direct_turn false direct send last_err = pure (exhausted last_err)

  -- The next stage, unless there is a response already.
  pub or_next : (Text → M (Tried Response)) → Tried Response → M (Tried Response)
  or_next stage (got resp) = pure (got resp)
  or_next stage (exhausted e) = stage e

  give_up : Tried Response → M Response
  give_up (got resp) = pure resp
  give_up (exhausted e) = pure (error_response 502 (text "All channels failed: " ++ e))

  pub channel_turn : Strategy → Text → ℕ → ℕ → (Stream → M Response) → Text → M (Tried Response)
  channel_turn strategy host port limit send last_err = do
    w ← get
    try_channels (λ dsn. establish_via_dsn env dsn host port limit >>= send)
        (ordered_channels env.sha256 w.manager strategy (host_port host port)) last_err

  -- The attempts: directly if that comes first, by the channels, directly if that comes last.
  unfoldable pub attempts : Strategy → Text → ℕ → ℕ → (Stream → M Response) → M Response
  unfolding direct_turn channel_turn or_next give_up
  attempts strategy host port limit send = do
    w ← get
    let direct_first = Manager.direct_first w.manager
    let direct = establish_direct env host port limit
    tried ← direct_turn direct_first direct send []
    tried ← or_next (channel_turn strategy host port limit send) tried
    tried ← or_next (direct_turn (not direct_first) direct send) tried
    give_up tried

  abbrev pub default_port : Bool → ℕ
  default_port true = 443
  default_port false = 80

  forward_to : Request → Strategy → ℕ → Bool → Url → M Response
  unfolding request_head path_and_query unwrap_or attempts
  forward_to req strategy limit is_https url = do
    host ← from_result (ok_or url.host_str (text "Missing host"))
    let port = unwrap_or (default_port is_https) url.port
    let head = request_head req.method (path_and_query url.path url.query) host port req.headers
    body ← map_err (text "Failed to read body: ") (ask env (λ n. req.body))
    attempts strategy host port limit
        (λ upstream. forward_through upstream host is_https (head ++ body) limit)

  to_target : Request → Strategy → ℕ → Result (Text × Bool) → M Response
  unfolding target_url forward_to
  to_target req strategy limit (err e) = pure (error_response 400 e)
  to_target req strategy limit (ok (target, is_https)) = do
    url ← from_result (env.parse_url (target_url target))
    forward_to req strategy limit is_https url

  unfoldable pub handle_path_forward : Request → Strategy → ℕ → M Response
  unfolding to_target
  handle_path_forward req strategy limit = to_target req strategy limit (parse_path_target req.path)
