-- ===== src/Proxy/Forward/Relay.antt =====
-- src/proxy.rs, `forward_through`: the bytes that one attempt sends, and the answer to them.
use multi_proxy.Net.{
  Env, World, Stream, Outcome, done, fail, panic, hang, reply, M, next, ask, map_err, prefixed,
  from_result, write_all, ◌>>=◌, no_reply,
}
use multi_proxy.Net.Ask.{Replied, ask-Replied}
use multi_proxy.Net.Pending.{pending}
use multi_proxy.Net.Post.{Wrote, Written, write_all-Written, Stuck}
use multi_proxy.Proxy.Response.{Response, read_streaming_response}
use multi_proxy.Proxy.Response.Relay.{Answered, Answers, Panics, read_streaming_response-Answered}
use multi_proxy.Proxy.Forward.{secure, make_tls, forward_through}
use multi_proxy.Base.{
  Bool, Bytes, Result, Text, [], append-nil, err, false, ok, refl, subst, text, true, ℕ, ◌++◌, ◌∙◌,
  ◌≡◌, ◌⊎◌, inl, inr, ◌<◌, length, sym,
}

-- The stream that the request is written to: the one that was opened, or what TLS makes of it.
abbrev pub Carries : Env → Bool → Text → Stream → Stream → Type 0
Carries env false host upstream s = s ≡ upstream
Carries env true host upstream s = (n : ℕ) × (d : ℕ) × (env.tls n host upstream ≡ reply d (ok s))

-- The TLS handshake of an https target that never ends.
abbrev pub Stalls : Env → Bool → Text → Stream → Type 0
Stalls env is_https host upstream =
    (is_https ≡ true) × ((n : ℕ) × (env.tls n host upstream ≡ no_reply))

-- An outcome of an attempt: an answer to the whole request on that stream, an error, or an endless wait for
-- the TLS handshake or for a peer that does not take all of the request.
abbrev pub Forwarded : Env → Bool → Text → Stream → Bytes → Outcome Response → Type 0
Forwarded env is_https host upstream request (done resp) =
    (s : Stream) × Carries env is_https host upstream s
    × Answers env (pending s.inbox) (s.sent ++ request) resp
Forwarded env is_https host upstream request (fail e) = Unit {0}
Forwarded env is_https host upstream request panic =
    (s : Stream) × Carries env is_https host upstream s × Panics env (pending s.inbox)
Forwarded env is_https host upstream request hang =
    Stalls env is_https host upstream
    ⊎ ((s : Stream) × Carries env is_https host upstream s × Stuck ⊥ env (s.sent ++ request) s)

module _ (env : Env) where
  abbrev Secured : Bool → Text → Stream → Outcome Stream → Type 0
  Secured is_https host upstream (done s) = Carries env is_https host upstream s
  Secured is_https host upstream (fail e) = Unit {0}
  Secured is_https host upstream panic = ⊥
  Secured is_https host upstream hang = Stalls env is_https host upstream

  shaken :
      (host : Text) (upstream : Stream) (o : Outcome Stream)
      → Replied (λ n. env.tls n host upstream) o
      → Secured true host upstream (prefixed (text "TLS handshake: ") o)
  shaken host upstream (done s) h = h
  shaken host upstream (fail e) h = tt
  shaken host upstream panic h = absurd h
  shaken host upstream hang h = (refl, h)

  connected :
      (host : Text) (upstream : Stream) (r : Result (Unit {0})) (w : World)
      → Secured true host upstream
          (next
            (prefixed (text "TLS connector: ") (from_result r w).0, (from_result r w).1)
            (λ u. map_err (text "TLS handshake: ") (ask env (λ n. env.tls n host upstream)))).0
  connected host upstream (ok u) w =
      shaken host upstream (ask env (λ n. env.tls n host upstream) w).0
        (ask-Replied env (λ n. env.tls n host upstream) w)
  connected host upstream (err t) w = tt

  secure-Secured :
      (is_https : Bool) (host : Text) (upstream : Stream) (w : World)
      → Secured is_https host upstream (secure env is_https host upstream w).0
  unfolding secure make_tls
  secure-Secured false host upstream w = refl
  secure-Secured true host upstream w = connected host upstream env.tls_connector w

  -- What an exchange on a stream ends in.
  abbrev Ended : Stream → Bytes → Outcome Response → Type 0
  Ended s request (done resp) = Answers env (pending s.inbox) (s.sent ++ request) resp
  Ended s request (fail e) = Unit {0}
  Ended s request panic = Panics env (pending s.inbox)
  Ended s request hang = Stuck ⊥ env (s.sent ++ request) s

  Answered-Ended :
      (s : Stream) (request : Bytes) (o : Outcome Response)
      → Answered env (pending s.inbox) (s.sent ++ request) o
      → Ended s request o
  Answered-Ended s request (done resp) h = h
  Answered-Ended s request (fail e) h = tt
  Answered-Ended s request panic h = h
  Answered-Ended s request hang h = absurd h

  next_write :
      (s0 : Stream) (request buf prefix : Text) (s : Stream) (r : Outcome Stream × World)
      (f : Stream → M Response)
      → Written ⊥ env buf s r.0
      → (Stuck ⊥ env (s.sent ++ buf) s → Stuck ⊥ env (s0.sent ++ request) s0)
      → ((s1 : Stream) → Wrote ⊥ env buf s s1 → (w : World) → Ended s0 request (f s1 w).0)
      → Ended s0 request (next (prefixed prefix r.0, r.1) f).0
  next_write s0 request buf prefix s (done s1, w) f h stuck k = k s1 h w
  next_write s0 request buf prefix s (fail e, w) f h stuck k = tt
  next_write s0 request buf prefix s (panic, w) f h stuck k = absurd h
  next_write s0 request buf prefix s (hang, w) f h stuck k = stuck h

  -- What is sent on the stream is the request, and the answer is read from all that is to come on it.
  write_request : Bytes → ℕ → Stream → M Response
  write_request request limit s = do
    s ← map_err (text "write request: ") (write_all env request s)
    s ← map_err (text "flush request: ") (write_all env [] s)
    read_streaming_response env s limit

  write_request-Ended :
      (request : Bytes) (limit : ℕ) (s : Stream) (w : World)
      → Ended s request (write_request request limit s w).0
  unfolding write_request
  write_request-Ended request limit s w =
      next_write s request request (text "write request: ") s (write_all env request s w) _
        (write_all-Written ⊥ env request s w) (λ stuck. stuck)
        λ s1 wrote w1.
          let all_sent : s1.sent ++ [] ≡ s.sent ++ request = append-nil s1.sent ∙ wrote.0 in
          next_write s request [] (text "flush request: ") s1 (write_all env [] s1 w1) _
            (write_all-Written ⊥ env [] s1 w1)
            (λ (n, e, full). (n, sym wrote.2 ∙ e, subst (λ t. n < length t) all_sent full))
            λ s2 flushed w2.
              let inbox : s2.inbox ≡ s.inbox = flushed.1 ∙ wrote.1 in
              let sent : s2.sent ≡ s.sent ++ request = flushed.0 ∙ all_sent in
              Answered-Ended s request (read_streaming_response env s2 limit w2).0 (
                subst
                  (λ i.
                    Answered env (pending i) (s.sent ++ request)
                      (read_streaming_response env s2 limit w2).0)
                  inbox
                  (subst
                    (λ t.
                      Answered env (pending s2.inbox) t (read_streaming_response env s2 limit w2).0)
                    sent (read_streaming_response-Answered env s2 limit w2)))

  carried :
      (is_https : Bool) (host : Text) (upstream s : Stream) (request : Bytes) (o : Outcome Response)
      → Carries env is_https host upstream s
      → Ended s request o
      → Forwarded env is_https host upstream request o
  carried is_https host upstream s request (done resp) c h = (s, c, h)
  carried is_https host upstream s request (fail e) c h = tt
  carried is_https host upstream s request panic c h = (s, c, h)
  carried is_https host upstream s request hang c h = inr (s, c, h)

  -- One attempt on a stream. If it returns a response, then the whole request and nothing else was
  -- written to that stream, or to what the TLS handshake with the host made of it if the target is https,
  -- and the response has the status, the headers and the body that come back on it. A panic comes only
  -- from an answer without a blank line or with an invalid header, and only two waits can fail to end: the
  -- TLS handshake of an https target, and a write of the request to a peer that does not take all of it
  -- and gives no error. Reading the answer does end.
  pub forward_through-Forwarded :
      (upstream : Stream) (host : Text) (is_https : Bool) (request : Bytes) (limit : ℕ) (w : World)
      → Forwarded env is_https host upstream request
          (forward_through env upstream host is_https request limit w).0
  unfolding forward_through write_request
  forward_through-Forwarded upstream host is_https request limit w =
      behind (secure env is_https host upstream w) (secure-Secured is_https host upstream w)
    where
      behind :
          (r : Outcome Stream × World)
          → Secured is_https host upstream r.0
          → Forwarded env is_https host upstream request (next r (write_request request limit)).0
      behind (done s, w1) c =
          carried is_https host upstream s request (write_request request limit s w1).0 c
            (write_request-Ended request limit s w1)
      behind (fail e, w1) c = tt
      behind (panic, w1) c = absurd c
      behind (hang, w1) c = inl c
