-- ===== src/Proxy/Forward/Delivery.antt =====
-- src/proxy.rs, `handle_path_forward`: where a response comes from, from the request's path to the bytes
-- on the wire.
use multi_proxy.Dsn.{Dsn, Url, unwrap_or}
use multi_proxy.Manager.Laws.{dsns}
use multi_proxy.Strategy.{Strategy}
use multi_proxy.Net.{
  Env, World, Reply, reply, Outcome, done, fail, panic, hang, M, next, ask, prefixed,
}
use multi_proxy.Net.Ask.{Replied, ask-Replied}
use multi_proxy.Net.Run.{Kept, ask-Keeps}
use multi_proxy.Net.Post.{Post, from_result-Post, weaken-Post}
use multi_proxy.Proxy.Request.{parse_path_target}
use multi_proxy.Proxy.Response.{Response, error_response, full}
use multi_proxy.Str.Utf8.{as_bytes}
use multi_proxy.Proxy.Forward.{
  Request, default_port, forward_to, handle_path_forward, path_and_query, request_head, target_url,
  to_target,
}
use multi_proxy.Proxy.Forward.Fallback.{Served}
use multi_proxy.Base.{
  Bool, Bytes, List, Text, err, inl, inr, ok, refl, some, ℕ, ◌++◌, ◌≡◌, ◌⊎◌, Option, Result, none,
  ok_or, subst, text,
}
use multi_proxy.Proxy.Forward.Provenance.{Relays, attempts-Relays}

-- What the client's request asks for, and what it is answered: a relayed response, or 502.
pub record Delivered (env : Env) (ds : List Dsn) (limit : ℕ) (req : Request) (resp : Response)
    : Type 0 where
  pub target : Text
  pub is_https : Bool
  pub url : Url
  pub host : Text
  pub body : Bytes
  pub delay : ℕ
  pub parsed : parse_path_target req.path ≡ ok (target, is_https)
  pub url_parsed : env.parse_url (target_url target) ≡ ok url
  pub named : url.host_str ≡ some host
  pub collected : req.body ≡ reply delay (ok body)
  pub served :
      Served
        (Relays env ds limit host (unwrap_or (default_port env is_https) url.port) is_https (
          request_head req.method
            (path_and_query url.path url.query)
            host
            (unwrap_or (default_port env is_https) url.port)
            req.headers
          ++ body))
        resp

-- A refused path is answered by 400, with the reason in the body.
abbrev pub Refused : Request → Response → Type 0
Refused req resp =
    (e : Text) × (parse_path_target req.path ≡ err e)
    × (resp.status ≡ 400)
    × (resp.body ≡ full (as_bytes e))

module _ (env : Env) (limit : ℕ) where
  named_host : (o : Option Text) (m host : Text) → ok_or o m ≡ ok host → o ≡ some host
  named_host none m host e = cc
  named_host (some h) m host e = cc

  next_reply :
      (P : Response → Type 0) (call : ℕ → Reply Bytes) (prefix : Text) (r : Outcome Bytes × World)
      (f : Bytes → M Response)
      → Replied call r.0
      → ((n d : ℕ) (body : Bytes) → call n ≡ reply d (ok body) → Post (Unit {0}) P (f body r.1).0)
      → Post (Unit {0}) P (next (prefixed prefix r.0, r.1) f).0
  next_reply P call prefix (done body, w) f (n, d, e) k = k n d body e
  next_reply P call prefix (fail t, w) f h k = tt
  next_reply P call prefix (panic, w) f h k = tt
  next_reply P call prefix (hang, w) f h k = tt

  forward_to-Delivered :
      (req : Request) (strategy : Strategy) (target : Text) (is_https : Bool) (url : Url)
      (w : World)
      → parse_path_target req.path ≡ ok (target, is_https)
      → env.parse_url (target_url target) ≡ ok url
      → Post
          (Unit {0})
          (Delivered env (dsns w.manager) limit req)
          (forward_to env req strategy limit is_https url w).0
  unfolding forward_to
  forward_to-Delivered req strategy target is_https url w parsed url_parsed =
      from_result-Post (Unit {0}) (Delivered env (dsns w.manager) limit req)
        (ok_or url.host_str (text "Missing host")) _ w
        λ host named.
          next_reply (Delivered env (dsns w.manager) limit req) (λ n. req.body)
            (text "Failed to read body: ") (ask env (λ n. req.body) w) _
            (ask-Replied env (λ n. req.body) w)
            λ n d body collected.
              let w1 = (ask env (λ n. req.body) w).1 in
              let port = unwrap_or (default_port env is_https) url.port in
              let request =
                request_head req.method (path_and_query url.path url.query) host port req.headers
                ++ body in
              let kept : Kept w w1 = ask-Keeps env (λ n. req.body) w in
              weaken-Post (Unit {0})
                (Served (Relays env (dsns w1.manager) limit host port is_https request))
                (Delivered env (dsns w.manager) limit req) _
                (λ resp served. record {
                  target = target;
                  is_https = is_https;
                  url = url;
                  host = host;
                  body = body;
                  delay = d;
                  parsed = parsed;
                  url_parsed = url_parsed;
                  named = named_host url.host_str (text "Missing host") host named;
                  collected = collected;
                  served =
                      subst (λ ds. Served (Relays env ds limit host port is_https request) resp)
                        kept.same_dsns served;
                })
                (attempts-Relays env limit strategy host port is_https request w1)

  -- If a path-style request gets a response, on any network and whatever the other tasks do, it is 400 with
  -- the reason where the path names no target. Else the target's URL was parsed and the client's body
  -- collected, and the response is either 502 with a body that begins with `All channels failed: `, or
  -- the answer on a stream to the origin, which was dialed or is by way of one of the configured channels, with TLS on it exactly if the
  -- target is https: what was written to that stream last is the request head that the client's request maps
  -- to, followed by the whole body, and the status, headers and body of the response are those that came
  -- back.
  pub handle_path_forward-Delivered :
      (req : Request) (strategy : Strategy) (w : World)
      → Post
          (Unit {0})
          (λ resp. Refused req resp ⊎ Delivered env (dsns w.manager) limit req resp)
          (handle_path_forward env req strategy limit w).0
  unfolding handle_path_forward to_target error_response
  handle_path_forward-Delivered req strategy w = by_target (parse_path_target req.path) refl
    where
      by_target :
          (r : Result (Text × Bool))
          → parse_path_target req.path ≡ r
          → Post
              (Unit {0})
              (λ resp. Refused req resp ⊎ Delivered env (dsns w.manager) limit req resp)
              (to_target env req strategy limit r w).0
      by_target (err e) parsed = inl (e, parsed, refl, refl)
      by_target (ok (target, is_https)) parsed =
          from_result-Post (Unit {0}) _ (env.parse_url (target_url target)) _ w λ url url_parsed.
            weaken-Post (Unit {0}) (Delivered env (dsns w.manager) limit req) _ _
              (λ resp delivered. inr delivered)
              (forward_to-Delivered req strategy target is_https url w parsed url_parsed)
