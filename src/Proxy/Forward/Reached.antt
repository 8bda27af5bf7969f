-- ===== src/Proxy/Forward/Reached.antt =====
-- src/proxy.rs, `handle_path_forward`: a response gets through, from the origin to the client.
use multi_proxy.Dsn.{Dsn, Url, unwrap_or}
use multi_proxy.Manager.Laws.{dsns}
use multi_proxy.Strategy.{Strategy}
use multi_proxy.Net.{Env, World, Stream, reply, accepted, elapse, done, ask}
use multi_proxy.Net.Ask.{ask-reply}
use multi_proxy.Net.Gives.{Gives, from_result-Gives, done-Gives}
use multi_proxy.Net.Post.{Ensures, weaken-Post}
use multi_proxy.Net.Run.{Kept, elapse-Kept}
use multi_proxy.Proxy.Http.{host_port}
use multi_proxy.Proxy.Request.{parse_path_target}
use multi_proxy.Proxy.Tunnel.{establish_via_dsn}
use multi_proxy.Proxy.Forward.{
  Request, attempts, default_port, forward_to, forward_through, handle_path_forward, path_and_query,
  request_head, target_url, to_target,
}
use multi_proxy.Proxy.Forward.Origin.{attempts-Gives}
use multi_proxy.Proxy.Forward.Provenance.{Relays}
use multi_proxy.Proxy.Tunnel.Obtained.{Obtained, All-imp_Memᴰ}
use multi_proxy.Base.{
  Bool, Bytes, Text, ok, text, ℕ, ◌≡◌, List, inl, inr, ◌++◌, All, some, ◌≤◌, ap, ok_or, subst, sym,
}
use multi_proxy.Proxy.Forward.Exchange.{
  Serving, Proper, forward_through-Relays, forward_through-Ensures, known_outcome,
}

module _ (env : Env) (limit : ℕ) where
  -- The attempts, from a state whose channels have these DSNs.
  attempts-Relays :
      (strategy : Strategy) (ds : List Dsn) (host : Text) (port : ℕ) (is_https : Bool)
      (request : Bytes) (w : World)
      → dsns w.manager ≡ ds
      → ((n : ℕ)
          → (d : ℕ) × (s : Stream) × (env.dial n (host_port host port) ≡ accepted d s)
            × (d ≤ limit)
            × Serving env is_https host limit s)
      → All
          (λ d.
            (w1 : World)
            → Ensures (Proper env is_https host) (establish_via_dsn env d host port limit w1).0)
          ds
      → Gives ⊥
          (Relays env ds limit host port is_https request)
          (attempts env strategy host port limit
            (λ s. forward_through env s host is_https request limit)
            w).0
  attempts-Relays strategy ds host port is_https request w same origin via =
      attempts-Gives env strategy host port limit
        (λ s. forward_through env s host is_https request limit)
        (λ s. Obtained env ds host port limit s × Proper env is_https host s)
        (Relays env ds limit host port is_https request)
        (λ s good w1.
          forward_through-Ensures env limit ds host port is_https request s w1 good.0 good.1)
        w
        (λ n.
          let (d, s, e, le, serving) = origin n in
          (
            d,
            s,
            e,
            le,
            λ w1.
                forward_through-Relays env limit ds host port is_https request s w1 (inl (n, d, e))
                  serving,
          ))
        (subst (All _) (sym same) (
          All-imp_Memᴰ _ _ ds via (λ d m opens w1.
            let o = (establish_via_dsn env d host port limit w1).0 in
            weaken-Post ⊥ (λ s. (o ≡ done s) × Proper env is_https host s)
              (λ s. Obtained env ds host port limit s × Proper env is_https host s) o
              (λ s h. (inr (d, m, (w1, h.0)), h.1))
              (known_outcome env limit ds host port is_https request o (opens w1)))))

  -- If a request names a target, its URL has a host and its body is read, the origin accepts every
  -- connection in time, takes what is written and brings the head of an answer in time (below TLS for
  -- https), at most 65536 bytes with valid headers, and every attempt through a channel comes back, with an
  -- error or with a stream that is not silent in TLS, takes what is written unless an error comes, and on
  -- which such a head comes at any time, then the client gets the answer to exactly this request, on a connection to the origin or a stream by way of
  -- a channel: never an error, a panic, an endless wait or 502.
  pub handle_path_forward-Relays :
      (req : Request) (strategy : Strategy) (target : Text) (is_https : Bool) (url : Url)
      (host : Text) (delay : ℕ) (body : Bytes) (w : World)
      → parse_path_target req.path ≡ ok (target, is_https)
      → env.parse_url (target_url target) ≡ ok url
      → url.host_str ≡ some host
      → req.body ≡ reply delay (ok body)
      → ((n : ℕ)
          → (d : ℕ) × (s : Stream) × (env.dial n
                (host_port host (unwrap_or (default_port env is_https) url.port))
              ≡ accepted d s)
            × (d ≤ limit)
            × Serving env is_https host limit s)
      → All
          (λ d.
            (w1 : World)
            → Ensures
                (Proper env is_https host)
                (establish_via_dsn env d host
                  (unwrap_or (default_port env is_https) url.port)
                  limit
                  w1).0)
          (dsns w.manager)
      → Gives ⊥
          (Relays env
            (dsns w.manager)
            limit
            host
            (unwrap_or (default_port env is_https) url.port)
            is_https
            (request_head req.method
                (path_and_query url.path url.query)
                host
                (unwrap_or (default_port env is_https) url.port)
                req.headers
              ++ body))
          (handle_path_forward env req strategy limit w).0
  unfolding handle_path_forward to_target forward_to
  handle_path_forward-Relays req strategy target is_https url host delay body w parsed url_parsed
        named collected origin via =
      let port = unwrap_or (default_port env is_https) url.port in
      let request =
        request_head req.method (path_and_query url.path url.query) host port req.headers ++ body in
      let ds = dsns w.manager in
      let w1 = elapse env delay w in
      let kept : Kept w w1 = elapse-Kept env delay w in
      let P = Relays env ds limit host port is_https request in
      subst (λ r. Gives ⊥ P (to_target env req strategy limit r w).0) (sym parsed)
        (from_result-Gives ⊥ P _ (env.parse_url (target_url target)) url w url_parsed (
          from_result-Gives ⊥ P _ (ok_or url.host_str (text "Missing host")) host w
            (ap (λ o. ok_or o (text "Missing host")) named)
            (done-Gives ⊥ P _ (text "Failed to read body: ") (ask env (λ n. req.body) w) body w1
              (ask-reply env (λ n. req.body) delay body w collected)
              (attempts-Relays strategy ds host port is_https request w1 kept.same_dsns origin
                via))))
