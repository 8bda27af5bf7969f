-- ===== src/Proxy/Http/Answer.antt =====
-- src/proxy.rs, `establish_http`: what of the proxy's bytes is read as its answer, and what is left for
-- the tunnel.
use multi_proxy.Str.{is_empty}
use multi_proxy.Str.Utf8.{as_bytes}
use multi_proxy.Dsn.{HttpDsn}
use multi_proxy.Net.{Env, World, Stream, connect, read, write_all}
use multi_proxy.Net.Post.{
  Ensures, Peers, Ends, next-Post, from_result-Post, connect-Dialed, Dialed, write_all-Post, Wrote,
}
use multi_proxy.Net.Pending.{pending, Taken, read-Taken}
use multi_proxy.Proxy.Http.{
  establish_http, read_answer, read_round, check_status, connect_request, crlf, position, is_some,
  host_port, is_200, first_line, nth,
}
use multi_proxy.Str.{split_whitespace}
use multi_proxy.Str.Laws.{text_eq_iff}
use multi_proxy.Base.{
  some, text, none, Option, Bool-cases, Bytes, Text, [], ap, append_assoc, arith, inl, inr, length,
  length-append, ltb, ok, refl, suc, sym, true, zero, ℕ, ◌++◌, ◌+◌, ◌<◌, ◌∙◌, ◌∷◌, ◌≡◌, ◌≤◌, ◌⊎◌,
}

-- The bytes that were read as the answer, in front of those that are still to come.
pub record Drawn (all sent : Bytes) (r : Bytes × Stream) : Type 0 where
  pub whole : all ≡ r.0 ++ pending r.1.inbox
  pub stop : (is_some (position crlf r.0) ≡ true) ⊎ ((1024 < length r.0) ⊎ (pending r.1.inbox ≡ []))
  pub same_sent : r.1.sent ≡ sent

is_200_iff : (word : Option Text) → is_200 word ≡ true → word ≡ some (text "200")
is_200_iff none h = cc
is_200_iff (some code) h = ap (λ t. some t) (text_eq_iff code (text "200") h)

status_200 :
    (answer : Bytes)
    → check_status answer ≡ ok tt
    → nth 1 (split_whitespace (first_line answer)) ≡ some (text "200")
unfolding check_status
status_200 answer e = is_200_iff (nth 1 (split_whitespace (first_line answer))) (ground arith)

module _ (env : Env) where
  read_round-Drawn :
      (fuel : ℕ) (buf : Bytes) (s : Stream) (r : Bytes × Stream) (w : World)
      → 1025 ≤ length buf + suc fuel
      → ((b : Bytes) (s1 : Stream) (w1 : World)
          → length b ≤ 1024
          → 1025 ≤ length b + fuel
          → Ends ⊥ s1.inbox
          → Ensures (Drawn (b ++ pending s1.inbox) s1.sent) (read_answer env fuel b s1 w1).0)
      → Taken s r
      → Ensures
          (Drawn (buf ++ pending s.inbox) s.sent)
          (read_round env (read_answer env fuel) buf r w).0
  unfolding read_round is_empty
  read_round-Drawn fuel buf s ([], s1) w fits again taken = record {
    whole = ap (λ t. buf ++ t) taken.moved.in_order;
    stop = inr (inr (sym taken.moved.in_order ∙ taken.moved.last refl));
    same_sent = taken.moved.same_sent;
  }
  read_round-Drawn fuel buf s (b ∷ bs, s1) w fits again taken =
      let joined : buf ++ pending s.inbox ≡ (buf ++ b ∷ bs) ++ pending s1.inbox =
        cc (taken.moved.in_order, append_assoc buf (b ∷ bs) (pending s1.inbox)) in
      elim (Bool-cases (is_some (position crlf (buf ++ b ∷ bs)))) [
        | inl found ↦
            rw found
              (record { whole = joined; stop = inl found; same_sent = taken.moved.same_sent })
        | inr on ↦ rw on (elim (Bool-cases (ltb 1024 (length (buf ++ b ∷ bs)))) [
          | inl large ↦ rw large (record {
            whole = joined;
            stop = inr (inl (ground arith));
            same_sent = taken.moved.same_sent;
          })
          | inr room ↦
              rw (room, joined, ← taken.moved.same_sent)
                (again (buf ++ b ∷ bs) s1 w (ground arith)
                  (ground (arith, length-append buf (b ∷ bs))) taken.ends)
        ])
      ]

  read_answer-Drawn :
      (fuel : ℕ) (buf : Bytes) (s : Stream) (w : World)
      → length buf ≤ 1024
      → 1025 ≤ length buf + fuel
      → Ends ⊥ s.inbox
      → Ensures (Drawn (buf ++ pending s.inbox) s.sent) (read_answer env fuel buf s w).0
  unfolding read_answer
  read_answer-Drawn zero buf s w small fits h = absurd (omega arith)
  read_answer-Drawn (suc fuel) buf s w small fits h =
      next-Post ⊥ (Taken s) (Drawn (buf ++ pending s.inbox) s.sent) (read env 256 s w)
        (read_round env (read_answer env fuel) buf) (read-Taken env s 255 w h)
        (λ r taken w1. read_round-Drawn fuel buf s r w1 fits (read_answer-Drawn fuel) taken)

  -- A tunnel: the connection that the proxy accepted, with an answer of status 200 taken off.
  pub record Opened (request : Bytes) (addr : Text) (s : Stream) : Type 0 where
    pub dialed : Stream
    pub answer : Bytes
    pub fresh : Dialed ⊥ env addr dialed
    pub status : nth 1 (split_whitespace (first_line answer)) ≡ some (text "200")
    pub drawn : Drawn (pending dialed.inbox) request (answer, s)

  -- If every accepted connection is fresh and no peer is silent for ever or stops reading without
  -- an error, the handshake comes back with a value or an error. The value is a tunnel over one connection dialed to the proxy: what was
  -- written is exactly the CONNECT request; the bytes read as the answer, followed by those still to
  -- come, are the bytes the proxy sends, in order and none missing; reading stopped at a line end, past
  -- 1024 bytes or where the proxy closed; and the second word of the answer's first line
  -- is 200.
  pub establish_http-Opened :
      (host : Text) (port : ℕ) (d : HttpDsn) (limit : ℕ) (w : World)
      → Peers ⊥ env
      → Ensures
          (Opened (as_bytes (connect_request env.base64 host port d)) (host_port d.host d.port))
          (establish_http env host port d limit w).0
  unfolding establish_http
  establish_http-Opened host port d limit w peers =
      let request = as_bytes (connect_request env.base64 host port d) in
      let addr = host_port d.host d.port in
      next-Post ⊥ (Dialed ⊥ env addr) (Opened request addr) (connect env limit addr _ _ w) _
        (connect-Dialed ⊥ env limit addr _ _ w)
        λ s0 dialed w1.
          let (n, delay, e) = dialed in
          let (nothing, alive) = peers n addr delay s0 e in
          next-Post ⊥ (Wrote ⊥ env request s0) (Opened request addr) (write_all env request s0 w1) _
            (write_all-Post ⊥ env request s0 w1 alive)
            λ s1 wrote w2.
              next-Post ⊥ (Drawn (pending s1.inbox) s1.sent) (Opened request addr)
                (read_answer env 1025 [] s1 w2) _
                (read_answer-Drawn 1025 [] s1 w2 (omega arith) (omega arith) (rw wrote.1 alive.0))
                λ r drawn w3.
                  from_result-Post ⊥ (Opened request addr) (check_status r.0) _ w3 λ u good.
                    record {
                      dialed = s0;
                      answer = r.0;
                      fresh = dialed;
                      status = status_200 r.0 good;
                      drawn = record {
                        whole = ap pending (sym wrote.1) ∙ drawn.whole;
                        stop = drawn.stop;
                        same_sent = drawn.same_sent ∙ wrote.0 ∙ ap (λ t. t ++ request) nothing;
                      };
                    }
