-- ===== src/Proxy/Server/Connect.antt =====
-- src/proxy.rs, `handle_request` from end to end: which response a request gets.
use multi_proxy.Str.{is_empty, text_eq}
use multi_proxy.Strategy.{Strategy}
use multi_proxy.Net.{Env, World, Outcome, done, fail, panic, hang, next, caught, Stream}
use multi_proxy.Manager.Laws.{dsns}
use multi_proxy.Dsn.{Dsn}
use multi_proxy.Proxy.Tunnel.Obtained.{Obtained, acquire_tunnel-Obtained}
use multi_proxy.Net.Post.{Post}
use multi_proxy.Net.Post.{Settles, IsDone}
use multi_proxy.Proxy.Request.{parse_authority}
use multi_proxy.Proxy.Request.Authority.{parse_authority-nonempty}
use multi_proxy.Proxy.Response.{Response}
use multi_proxy.Proxy.Tunnel.{acquire_tunnel, establish_via_dsn}
use multi_proxy.Proxy.Tunnel.Fallback.{Reachable, acquire_tunnel-IsDone}
use multi_proxy.Proxy.Forward.{Request}
use multi_proxy.Channel.{Channel}
use multi_proxy.Dsn.{unwrap_or}
use multi_proxy.Proxy.Server.{
  is_connect, connect_response, handle_connect, connect_to, handle_request,
}
use multi_proxy.Base.{Text, false, ok, refl, some, text, true, ℕ, ◌≡◌, All, List}

module _ (env : Env) where
  -- A response that hands a stream over to the copying task, one that leads to the origin.
  pub record IsTunnel (ds : List Dsn) (host : Text) (port limit : ℕ) (o : Outcome Response)
      : Type 0 where
    pub response : Response
    pub stream : Stream
    pub given : o ≡ done response
    pub ok_status : response.status ≡ 200
    pub handed : response.tunnel ≡ some stream
    pub obtained : Obtained env ds host port limit stream

  connected :
      (ds : List Dsn) (host : Text) (port limit : ℕ) (r : Outcome Stream × World)
      → IsDone r.0
      → Post (Unit {0}) (Obtained env ds host port limit) r.0
      → IsTunnel ds host port limit
          (next (caught r.0, r.1) (λ a w. (done (connect_response env a), w))).0
  unfolding connect_response
  connected ds host port limit (done s, w) h by = record {
    response = connect_response env (ok s);
    stream = s;
    given = refl;
    ok_status = refl;
    handed = refl;
    obtained = by;
  }
  connected ds host port limit (fail e, w) h by = cc h.1
  connected ds host port limit (panic, w) h by = cc h.1
  connected ds host port limit (hang, w) h by = cc h.1

  connect_to-IsTunnel :
      (authority host : Text) (port : ℕ) (strategy : Strategy) (limit : ℕ) (w : World)
      → parse_authority authority ≡ ok (host, port)
      → IsDone (acquire_tunnel env strategy host port limit w).0
      → IsTunnel (dsns w.manager) host port limit (connect_to env strategy limit authority w).0
  unfolding connect_to handle_connect
  connect_to-IsTunnel authority host port strategy limit w p h = rw p (
      connected (dsns w.manager) host port limit (acquire_tunnel env strategy host port limit w) h
        (acquire_tunnel-Obtained env host port limit strategy w))

  -- A CONNECT, on a path that is not the one of the liveness probe, to an authority that parses and
  -- whose origin accepts every connection within the limit, gets a 200 and a tunnel, however the
  -- channels answer as long as they do answer. The stream of the tunnel was dialed to the origin, or is
  -- what one of the configured channels gave for it.
  pub handle_request-IsTunnel :
      (req : Request) (authority host : Text) (port : ℕ) (strategy : Strategy) (limit : ℕ)
      (w : World)
      → text_eq req.path (text "/health") ≡ false
      → text_eq req.method (text "CONNECT") ≡ true
      → req.authority ≡ some authority
      → parse_authority authority ≡ ok (host, port)
      → Reachable env host port limit
      → All
          (λ (c : Channel). Settles (establish_via_dsn env c.dsn host port limit))
          w.manager.channels
      → IsTunnel (dsns w.manager) host port limit (handle_request env req strategy limit w).0
  unfolding handle_request is_connect unwrap_or
  handle_request-IsTunnel req authority host port strategy limit w h c a p reach settles =
      let filled : is_empty authority ≡ false = parse_authority-nonempty authority (host, port) p in
      let tunnel : is_connect req ≡ true = rw (c, a) (rw filled refl) in
      rw h (
        rw tunnel (
          rw a (
            connect_to-IsTunnel authority host port strategy limit w p
              (acquire_tunnel-IsDone env strategy host port limit w reach settles))))
