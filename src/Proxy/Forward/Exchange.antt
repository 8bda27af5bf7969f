-- ===== src/Proxy/Forward/Exchange.antt =====
-- src/proxy.rs, `forward_through`: when an exchange on a stream is sure to give a response.
use multi_proxy.Dsn.{Dsn}
use multi_proxy.Net.{
  Env, World, Stream, reply, elapse, Outcome, done, fail, panic, hang, M, next, ask, map_err,
  from_result, write_all, ◌>>=◌, prefixed,
}
use multi_proxy.Net.Ask.{ask-reply, write_all-open, write_all-open}
use multi_proxy.Net.Gives.{Gives, next-Gives}
use multi_proxy.Net.Pending.{pending}
use multi_proxy.Net.Post.{Ensures}
use multi_proxy.Proxy.Response.{Response, read_streaming_response}
use multi_proxy.Proxy.Response.Relay.{Answers}
use multi_proxy.Proxy.Response.Ready.{HasHead, Ready, read_streaming_response-Gives, HasHead-valid}
use multi_proxy.Proxy.Forward.{forward_through, make_tls, secure}
use multi_proxy.Proxy.Forward.Provenance.{Relays}
use multi_proxy.Proxy.Tunnel.Obtained.{Obtained}
use multi_proxy.Proxy.Forward.Relay.{Carries, Forwarded, Stalls, forward_through-Forwarded}
use multi_proxy.Base.{
  Bool, Bytes, Text, [], false, none, ok, text, true, ℕ, ◌≡◌, List, inl, inr, refl, ◌++◌, Result,
  err, ◌≢◌, some,
}

-- A stream that takes the request and brings the head of its answer in time.
abbrev pub Responsive : Env → ℕ → Stream → Type 0
Responsive env limit s = (s.write_fault ≡ none) × Ready env limit s

-- A stream that is good, below TLS for an https target.
abbrev pub Secured : Env → Bool → Text → (Stream → Type 0) → Stream → Type 0
Secured env false host Good s = Good s
Secured env true host Good s =
    (env.tls_connector ≡ ok tt)
    × ((n : ℕ) → (d : ℕ) × (s1 : Stream) × (env.tls n host s ≡ reply d (ok s1)) × Good s1)

abbrev pub Serving : Env → Bool → Text → ℕ → Stream → Type 0
Serving env is_https host limit = Secured env is_https host (Responsive env limit)

-- A stream on which an exchange comes back: TLS answers, the peer takes what is written unless an error
-- comes, and what it sends has a head.
pub record Proper (env : Env) (is_https : Bool) (host : Text) (s : Stream) : Type 0 where
  pub shakes : ¬ Stalls env is_https host s
  pub takes :
      (s1 : Stream) → Carries env is_https host s s1 → (n : ℕ) → s1.write_fault ≢ some (n, none)
  pub heads : (s1 : Stream) → Carries env is_https host s s1 → HasHead env (pending s1.inbox)

module _ (env : Env) (Good : Stream → Type 0) where
  connected :
      (m : M Stream) (prefix : Text) (r : Result (Unit {0})) (w : World)
      → r ≡ ok tt
      → Gives ⊥ Good (m w).0
      → Gives ⊥ Good (next (prefixed prefix (from_result r w).0, (from_result r w).1) (λ u. m)).0
  connected m prefix (ok u) w e h = h
  connected m prefix (err t) w e h = cc

  pub secure-Gives :
      (is_https : Bool) (host : Text) (s : Stream) (w : World)
      → Secured env is_https host Good s
      → Gives ⊥ Good (secure env is_https host s w).0
  unfolding secure make_tls
  secure-Gives false host s w good = good
  secure-Gives true host s w (connector, shake) =
      let (d, s1, e, good) = shake w.awaits in
      connected (map_err (text "TLS handshake: ") (ask env (λ n. env.tls n host s)))
        (text "TLS connector: ") env.tls_connector w connector
        (rw (ask-reply env (λ n. env.tls n host s) d s1 w e) good)

module _ (env : Env) (limit : ℕ) where
  Ready-sent :
      (s : Stream) (sent : Bytes) → Ready env limit s → Ready env limit (record s { sent = sent })
  Ready-sent s sent ready = record { head = ready.head; small = ready.small; prompt = ready.prompt }

  abbrev AnyResponse : Response → Type 0
  AnyResponse resp = Unit {0}

  request_sent :
      (request : Bytes) (s : Stream) (w : World)
      → Responsive env limit s
      → Gives ⊥ AnyResponse
          ((map_err (text "write request: ") (write_all env request s) >>= (λ s1.
              map_err (text "flush request: ") (write_all env [] s1)
              >>= (λ s2. read_streaming_response env s2 limit)))
            w).0
  request_sent request s w (unbroken, ready) =
      let s1 = record s { sent = s.sent ++ request } in
      let s2 = record s { sent = (s.sent ++ request) ++ [] } in
      rw
        (
          write_all-open env request s w unbroken,
          write_all-open env [] s1 (elapse env 0 w) unbroken,
        )
        (heard_out (read_streaming_response env s2 limit (elapse env 0 (elapse env 0 w))).0 (
          read_streaming_response-Gives env s2 limit (elapse env 0 (elapse env 0 w))
            (Ready-sent s ((s.sent ++ request) ++ []) ready)))
    where
      heard_out :
          (o : Outcome Response)
          → Gives ⊥ (Answers env (pending s.inbox) ((s.sent ++ request) ++ [])) o
          → Gives ⊥ AnyResponse o
      heard_out (done resp) h = tt
      heard_out (fail e) h = h
      heard_out panic h = h
      heard_out hang h = h

  forward_through-AnyResponse :
      (s : Stream) (host : Text) (is_https : Bool) (request : Bytes) (w : World)
      → Serving env is_https host limit s
      → Gives ⊥ AnyResponse (forward_through env s host is_https request limit w).0
  unfolding forward_through
  forward_through-AnyResponse s host is_https request w serving =
      next-Gives ⊥ (Responsive env limit) AnyResponse (secure env is_https host s w) _
        (secure-Gives env (Responsive env limit) is_https host s w serving)
        (λ s1 responsive. request_sent request s1 (secure env is_https host s w).1 responsive)

  module _ (ds : List Dsn) (host : Text) (port : ℕ) (is_https : Bool) (request : Bytes) where
    with_response :
        (s : Stream) (o : Outcome Response)
        → Obtained env ds host port limit s
        → Gives ⊥ AnyResponse o
        → Forwarded env is_https host s request o
        → Gives ⊥ (Relays env ds limit host port is_https request) o
    with_response s (done resp) by any (s1, c, a) = record {
      upstream = s;
      stream = s1;
      obtained = by;
      carried = c;
      answers = a;
    }
    with_response s (fail e) by any h = any
    with_response s panic by any h = any
    with_response s hang by any h = any

    with_head :
        (s : Stream) (o : Outcome Response)
        → Obtained env ds host port limit s
        → Proper env is_https host s
        → Forwarded env is_https host s request o
        → Ensures (Relays env ds limit host port is_https request) o
    with_head s (done resp) by proper (s1, c, a) = record {
      upstream = s;
      stream = s1;
      obtained = by;
      carried = c;
      answers = a;
    }
    with_head s (fail e) by proper h = tt
    with_head s panic by proper (s1, c, inl missing) = let found = (proper.heads s1 c).found in cc
    with_head s panic by proper (s1, c, inr (i, found, invalid)) =
        HasHead-valid env (pending s1.inbox) i (proper.heads s1 c) found invalid
    with_head s hang by proper (inl stalls) = proper.shakes stalls
    with_head s hang by proper (inr (s1, c, (n, e, full))) = proper.takes s1 c n e

    pub known_outcome :
        (o : Outcome Stream)
        → Ensures (Proper env is_https host) o
        → Ensures (λ s. (o ≡ done s) × Proper env is_https host s) o
    known_outcome (done s) h = (refl, h)
    known_outcome (fail e) h = tt
    known_outcome panic h = h
    known_outcome hang h = h

    -- A stream that serves gives the answer to the request.
    pub forward_through-Relays :
        (s : Stream) (w : World)
        → Obtained env ds host port limit s
        → Serving env is_https host limit s
        → Gives ⊥
            (Relays env ds limit host port is_https request)
            (forward_through env s host is_https request limit w).0
    forward_through-Relays s w by serving =
        with_response s (forward_through env s host is_https request limit w).0 by
          (forward_through-AnyResponse s host is_https request w serving)
          (forward_through-Forwarded env s host is_https request limit w)

    -- A proper stream gives it, or an error.
    pub forward_through-Ensures :
        (s : Stream) (w : World)
        → Obtained env ds host port limit s
        → Proper env is_https host s
        → Ensures
            (Relays env ds limit host port is_https request)
            (forward_through env s host is_https request limit w).0
    forward_through-Ensures s w by proper =
        with_head s (forward_through env s host is_https request limit w).0 by proper
          (forward_through-Forwarded env s host is_https request limit w)
