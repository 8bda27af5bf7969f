-- ===== src/Proxy/Forward/Provenance.antt =====
-- src/proxy.rs, `handle_path_forward`: which stream a response comes from.
use multi_proxy.Proxy.Tunnel.Obtained.{Obtained, All-of_Memᴰ, own_outcome}
use multi_proxy.Dsn.{Dsn}
use multi_proxy.Manager.Laws.{dsns}
use multi_proxy.Strategy.{Strategy}
use multi_proxy.Net.{Env, World, Stream, Outcome, done, fail, panic, hang}
use multi_proxy.Net.Gives.{Gives-Post}
use multi_proxy.Net.Pending.{pending}
use multi_proxy.Net.Post.{Post, Dialed, connect-Dialed, weaken-Post}
use multi_proxy.Proxy.Http.{host_port}
use multi_proxy.Proxy.Response.{Response}
use multi_proxy.Proxy.Response.Relay.{Answers}
use multi_proxy.Proxy.Tunnel.{establish_direct, establish_via_dsn}
use multi_proxy.Proxy.Forward.{attempts, forward_through}
use multi_proxy.Proxy.Forward.Fallback.{Served, attempts-Served}
use multi_proxy.Proxy.Forward.Relay.{Carries, Forwarded, forward_through-Forwarded}
use multi_proxy.Proxy.Forward.Shared.{forward_through-Keeps}
use multi_proxy.Base.{Bool, Bytes, List, Text, inl, inr, ℕ, ◌++◌}

-- The response is the answer, on such a stream, to exactly this request.
pub record Relays (env : Env) (ds : List Dsn) (limit : ℕ) (host : Text) (port : ℕ) (is_https : Bool)
    (request : Bytes) (resp : Response) : Type 0 where
  pub upstream : Stream
  pub stream : Stream
  pub obtained : Obtained env ds host port limit upstream
  pub carried : Carries env is_https host upstream stream
  pub answers : Answers env (pending stream.inbox) (stream.sent ++ request) resp

module _ (env : Env) (limit : ℕ) where
  relayed :
      (ds : List Dsn) (host : Text) (port : ℕ) (is_https : Bool) (request : Bytes)
      (upstream : Stream) (o : Outcome Response)
      → Obtained env ds host port limit upstream
      → Forwarded env is_https host upstream request o
      → Post (Unit {0}) (Relays env ds limit host port is_https request) o
  relayed ds host port is_https request upstream (done resp) by (s, c, a) = record {
    upstream = upstream;
    stream = s;
    obtained = by;
    carried = c;
    answers = a;
  }
  relayed ds host port is_https request upstream (fail e) by h = tt
  relayed ds host port is_https request upstream panic by h = tt
  relayed ds host port is_https request upstream hang by h = tt

  pub attempts-Relays :
      (strategy : Strategy) (host : Text) (port : ℕ) (is_https : Bool) (request : Bytes) (w : World)
      → Post
          (Unit {0})
          (Served (Relays env (dsns w.manager) limit host port is_https request))
          (attempts env strategy host port limit
            (λ s. forward_through env s host is_https request limit)
            w).0
  unfolding establish_direct
  attempts-Relays strategy host port is_https request w =
      let ds = dsns w.manager in
      let send = λ (s : Stream). forward_through env s host is_https request limit in
      Gives-Post (Unit {0}) (Served (Relays env ds limit host port is_https request))
        (attempts env strategy host port limit send w).0
        (attempts-Served (Unit {0}) env strategy host port limit
          (λ s. forward_through env s host is_https request limit) (Obtained env ds host port limit)
          (Relays env ds limit host port is_https request)
          (λ s by w1.
            relayed ds host port is_https request s
              (forward_through env s host is_https request limit w1).0 by
              (forward_through-Forwarded env s host is_https request limit w1))
          w (λ s. forward_through-Keeps env s host is_https request limit)
          (λ w1.
            weaken-Post (Unit {0}) (Dialed (Unit {0}) env (host_port host port))
              (Obtained env ds host port limit) _ (λ s dialed. inl dialed)
              (connect-Dialed (Unit {0}) env limit (host_port host port) _ _ w1))
          (All-of_Memᴰ _ ds (λ d m w1.
            weaken-Post (Unit {0}) _ (Obtained env ds host port limit) _
              (λ s own. inr (d, m, (w1, own)))
              (own_outcome (establish_via_dsn env d host port limit w1).0))))
