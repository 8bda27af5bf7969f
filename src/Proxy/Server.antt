-- ===== src/Proxy/Server.antt =====
-- src/proxy.rs, "Dispatch": one request of a client, `handle_request` and `handle_connect`. `copy_tunnel`
-- is the task that `handle_connect` spawns for a tunnel; it starts when the response has been sent.
pub mod Dispatch
pub mod Connect
use multi_proxy.Str.{is_empty, text_eq}
use multi_proxy.Str.Decimal.{to_string}
use multi_proxy.Str.Utf8.{as_bytes}
use multi_proxy.Dsn.{unwrap_or}
use multi_proxy.Manager
use multi_proxy.Manager.{ChannelManager}
use multi_proxy.Strategy.{Strategy}
use multi_proxy.Proxy.Request.{parse_authority}
use multi_proxy.Proxy.Response.{Response, full, error_response}
use multi_proxy.Proxy.Tunnel.{acquire_tunnel}
use multi_proxy.Proxy.Forward.{Request, handle_path_forward}
use multi_proxy.Net.{
  Env, World, done, Stream, M, pure, next, attempt, from_result, ◌>>=◌, ◌>>◌, ask,
}
use multi_proxy.Base.{
  Result, Text, [], err, if◌then◌else◌, length, none, not, ok, some, text, ℕ, ◌&&◌, ◌++◌, ◌∷◌, Bool,
}

-- The body of the liveness probe.
unfoldable pub health_body : ℕ → ChannelManager → Text
health_body now m =
    text "{\"status\":\"ok\",\"healthy\":"
    ++ (to_string (length (Manager.healthy_channels now m))
        ++ (text ",\"total\":" ++ (to_string (length m.channels) ++ text "}")))

health_response : World → Response
unfolding health_body
health_response w = record {
  status = 200;
  headers = (text "Content-Type", text "application/json") ∷ [];
  body = full (as_bytes (health_body w.now w.manager));
  tunnel = none;
}

-- Is this a CONNECT with an authority?
unfoldable pub is_connect : Request → Bool
unfolding unwrap_or is_empty
is_connect req = text_eq req.method (text "CONNECT") && not (is_empty (unwrap_or [] req.authority))

module _ (env : Env) where
  connect_response : Result Stream → Response
  connect_response (ok upstream) = record {
    status = 200;
    headers = [];
    body = full [];
    tunnel = some upstream;
  }
  connect_response (err _) = error_response 502 (text "No usable upstream for CONNECT")

  unfoldable pub handle_connect : Strategy → ℕ → Text → ℕ → M Response
  unfolding connect_response
  handle_connect strategy limit host port = do
    acquired ← attempt (acquire_tunnel env strategy host port limit)
    pure (connect_response acquired)

  -- The task over the upstream and the client's upgraded connection; its results go to the log only.
  copy_with : Stream → Result Stream → M (Unit {0})
  copy_with up (err e) = pure tt
  copy_with up (ok client_io) =
      attempt (ask env (λ n. env.copy_bidirectional n client_io up)) >>= λ copied. pure tt

  unfoldable pub copy_tunnel : Stream → M (Unit {0})
  unfolding copy_with
  copy_tunnel upstream = attempt (ask env env.upgrade) >>= copy_with upstream

  connect_to : Strategy → ℕ → Text → M Response
  connect_to strategy limit authority = do
    (host, port) ← from_result (parse_authority authority)
    handle_connect strategy limit host port

  unfoldable pub handle_request : Request → Strategy → ℕ → M Response
  unfolding health_response connect_to is_connect
  handle_request req strategy limit w =
      if text_eq req.path (text "/health")
      then (done (health_response w), w)
      else if is_connect req
      then connect_to strategy limit (unwrap_or [] req.authority) w
      else handle_path_forward env req strategy limit w
