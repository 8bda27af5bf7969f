-- ===== src/Proxy/Forward/Shared.antt =====
-- Forwarding a request keeps the shared manager well formed.
use multi_proxy.Dsn.{Url}
use multi_proxy.Manager
use multi_proxy.Strategy.{Strategy}
use multi_proxy.Net.{Env, Stream, M, attempt, from_result, ask, map_err, write_all}
use multi_proxy.Net.Run.{
  Keeps, Kept-refl, next-Kept, >>=-Keeps, from_result-Keeps, ask-Keeps, write_all-Keeps,
}
use multi_proxy.Proxy.Http.{host_port}
use multi_proxy.Proxy.Response.{Response}
use multi_proxy.Proxy.Response.Shared.{read_streaming_response-Keeps}
use multi_proxy.Proxy.Request.{parse_path_target}
use multi_proxy.Proxy.Tunnel.{
  Tried, got, exhausted, establish_direct, establish_via_dsn, ordered_channels,
}
use multi_proxy.Proxy.Tunnel.Shared.{
  try_channels-Keeps, establish_direct-Keeps, establish_via_dsn-Keeps,
}
use multi_proxy.Proxy.Forward.{
  Request, make_tls, secure, forward_through, direct_outcome, direct_connected, direct_turn,
  or_next, give_up, attempts, channel_turn, forward_to, to_target, target_url, handle_path_forward,
}
use multi_proxy.Base.{Bool, Bytes, Result, Text, [], err, false, not, ok, ok_or, text, true, ℕ}

module _ (env : Env) where
  secure-Keeps : (b : Bool) (host : Text) (s : Stream) → Keeps (secure env b host s)
  unfolding secure make_tls
  secure-Keeps true host s =
      >>=-Keeps (map_err (text "TLS connector: ") (from_result env.tls_connector)) _
        (from_result-Keeps env.tls_connector) λ u. ask-Keeps env (λ n. env.tls n host s)
  secure-Keeps false host s = Kept-refl

  pub forward_through-Keeps :
      (s : Stream) (host : Text) (is_https : Bool) (request_bytes : Bytes) (limit : ℕ)
      → Keeps (forward_through env s host is_https request_bytes limit)
  unfolding forward_through
  forward_through-Keeps s host is_https request_bytes limit =
      >>=-Keeps (secure env is_https host s) _ (secure-Keeps is_https host s) λ s1.
        >>=-Keeps (map_err (text "write request: ") (write_all env request_bytes s1)) _
          (write_all-Keeps env request_bytes s1)
          λ s2.
            >>=-Keeps (map_err (text "flush request: ") (write_all env [] s2)) _
              (write_all-Keeps env [] s2) λ s3. read_streaming_response-Keeps env s3 limit

  direct_outcome-Keeps : (r : Result Response) → Keeps (direct_outcome env r)
  unfolding direct_outcome
  direct_outcome-Keeps (ok resp) = Kept-refl
  direct_outcome-Keeps (err e) = Kept-refl

  module _ (send : Stream → M Response) (sends : (s : Stream) → Keeps (send s)) where
    direct_connected-Keeps :
        (last_err : Text) (r : Result Stream) → Keeps (direct_connected env send last_err r)
    unfolding direct_connected
    direct_connected-Keeps last_err (ok s) =
        >>=-Keeps (attempt (send s)) (direct_outcome env) (sends s) direct_outcome-Keeps
    direct_connected-Keeps last_err (err e) = Kept-refl

    pub direct_turn-Keeps :
        (b : Bool) (direct : M Stream) (last_err : Text)
        → Keeps direct
        → Keeps (direct_turn env b direct send last_err)
    unfolding direct_turn
    direct_turn-Keeps true direct last_err h =
        >>=-Keeps (attempt direct) (direct_connected env send last_err) h
          (direct_connected-Keeps last_err)
    direct_turn-Keeps false direct last_err h = Kept-refl

    channel_turn-Keeps :
        (strategy : Strategy) (host : Text) (port limit : ℕ) (last_err : Text)
        → Keeps (channel_turn env strategy host port limit send last_err)
    unfolding channel_turn
    channel_turn-Keeps strategy host port limit last_err w =
        try_channels-Keeps _ (ordered_channels env.sha256 w.manager strategy (host_port host port))
          last_err
          (λ d.
            >>=-Keeps (establish_via_dsn env d host port limit) send
              (establish_via_dsn-Keeps env host port limit d) sends)
          w

  or_next-Keeps :
      (stage : Text → M (Tried Response)) (t : Tried Response)
      → ((e : Text) → Keeps (stage e))
      → Keeps (or_next env stage t)
  unfolding or_next
  or_next-Keeps stage (got resp) h = Kept-refl
  or_next-Keeps stage (exhausted e) h = h e

  give_up-Keeps : (t : Tried Response) → Keeps (give_up env t)
  unfolding give_up
  give_up-Keeps (got resp) = Kept-refl
  give_up-Keeps (exhausted e) = Kept-refl

  pub attempts-Keeps :
      (strategy : Strategy) (host : Text) (port limit : ℕ) (send : Stream → M Response)
      → ((s : Stream) → Keeps (send s))
      → Keeps (attempts env strategy host port limit send)
  unfolding attempts
  attempts-Keeps strategy host port limit send sends w =
      let first = Manager.direct_first w.manager in
      let direct = establish_direct env host port limit in
      let reach = establish_direct-Keeps env host port limit in
      next-Kept (direct_turn env first direct send [] w) _
        (direct_turn-Keeps send sends first direct [] reach w)
        λ t1.
          >>=-Keeps (or_next env (channel_turn env strategy host port limit send) t1) _
            (or_next-Keeps (channel_turn env strategy host port limit send) t1
              (channel_turn-Keeps send sends strategy host port limit))
            λ t2.
              >>=-Keeps (or_next env (direct_turn env (not first) direct send) t2) _
                (or_next-Keeps _ t2 (λ e. direct_turn-Keeps send sends (not first) direct e reach))
                give_up-Keeps

  forward_to-Keeps :
      (req : Request) (strategy : Strategy) (limit : ℕ) (is_https : Bool) (url : Url)
      → Keeps (forward_to env req strategy limit is_https url)
  unfolding forward_to
  forward_to-Keeps req strategy limit is_https url =
      >>=-Keeps (from_result (ok_or url.host_str (text "Missing host"))) _
        (from_result-Keeps (ok_or url.host_str (text "Missing host")))
        λ host.
          >>=-Keeps (map_err (text "Failed to read body: ") (ask env (λ n. req.body))) _
            (ask-Keeps env (λ n. req.body))
            λ body.
              attempts-Keeps strategy host _ limit _
                (λ up. forward_through-Keeps up host is_https _ limit)

  to_target-Keeps :
      (req : Request) (strategy : Strategy) (limit : ℕ) (r : Result (Text × Bool))
      → Keeps (to_target env req strategy limit r)
  unfolding to_target
  to_target-Keeps req strategy limit (err e) = Kept-refl
  to_target-Keeps req strategy limit (ok (target, is_https)) =
      >>=-Keeps (from_result (env.parse_url (target_url target))) _
        (from_result-Keeps (env.parse_url (target_url target)))
        (forward_to-Keeps req strategy limit is_https)

  pub handle_path_forward-Keeps :
      (req : Request) (strategy : Strategy) (limit : ℕ)
      → Keeps (handle_path_forward env req strategy limit)
  unfolding handle_path_forward
  handle_path_forward-Keeps req strategy limit =
      to_target-Keeps req strategy limit (parse_path_target req.path)
