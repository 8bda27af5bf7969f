-- ===== src/Proxy/Http/Handshake.antt =====
-- What `establish_http` sends, and that it ends.
use multi_proxy.Str.{is_empty}
use multi_proxy.Str.Utf8.{as_bytes}
use multi_proxy.Dsn.{HttpDsn}
use multi_proxy.Net.{Env, World, Stream, connect, read, write_all}
use multi_proxy.Net.Post.{
  from_result-Post, Post, Ensures, next-Post, Alive, Wrote-Alive, ReadFrom, read-Post,
  write_all-Post, Peers, connect-Post, weaken-Post,
}
use multi_proxy.Proxy.Http.{
  establish_http, read_answer, read_round, check_status, connect_request, crlf, position, is_some,
  host_port,
}
use multi_proxy.Base.{
  Bool-cases, Bytes, Text, [], ap, arith, false, inl, inr, length, length-append, ltb, suc, zero, ℕ,
  ◌++◌, ◌+◌, ◌<◌, ◌||◌, ◌∙◌, ◌∷◌, ◌≡◌, ◌≤◌,
}

module _ (bad : Type 0) (env : Env) where
  -- The rounds that are left reach past 1024 bytes.
  abbrev Fits : ℕ → Bytes → Type 0
  Fits fuel buf = (length buf ≤ 1024) × (1025 ≤ length buf + fuel)

  nonempty : (bs : Bytes) → is_empty bs ≡ false → 0 < length bs
  unfolding is_empty
  nonempty [] h = cc h
  nonempty (b ∷ bs) h = omega arith

  read_round-Post :
      (fuel : ℕ) (buf : Bytes) (s : Stream) (r : Bytes × Stream)
      → 1025 ≤ length buf + suc fuel
      → ((b : Bytes) (s1 : Stream) (w : World)
          → Fits fuel b
          → Alive bad s1
          → Post bad (ReadFrom bad env s1) (read_answer env fuel b s1 w).0)
      → ReadFrom bad env s r
      → (w : World)
      → Post bad (ReadFrom bad env s) (read_round env (read_answer env fuel) buf r w).0
  unfolding read_round
  read_round-Post fuel buf s (bs, s1) fits again h w = elim (Bool-cases (is_empty bs)) [
    | inl e ↦ rw e h
    | inr e ↦
        rw e
          (elim (Bool-cases
            (is_some (position crlf (buf ++ bs)) || ltb 1024 (length (buf ++ bs)))) [
              | inl stop ↦ rw stop h
              | inr more ↦ rw more (
                  weaken-Post bad (ReadFrom bad env s1) (ReadFrom bad env s)
                    (read_answer env fuel (buf ++ bs) s1 w).0 (λ r k. (k.0 ∙ h.0, k.1))
                    (again (buf ++ bs) s1 w
                      (ground arith, ground (arith, length-append buf bs, nonempty bs e)) h.1))
            ])
  ]

  read_answer-Post :
      (fuel : ℕ) (buf : Bytes) (s : Stream) (w : World)
      → Fits fuel buf
      → Alive bad s
      → Post bad (ReadFrom bad env s) (read_answer env fuel buf s w).0
  unfolding read_answer
  read_answer-Post zero buf s w fits h = absurd (omega arith)
  read_answer-Post (suc fuel) buf s w fits h =
      next-Post bad (ReadFrom bad env s) (ReadFrom bad env s) (read env 256 s w)
        (read_round env (read_answer env fuel) buf) (read-Post bad env 256 s w h)
        (λ r k. read_round-Post fuel buf s r fits.1 (read_answer-Post fuel) k)

  -- The stream of a tunnel that was opened.
  abbrev pub Opened : Bytes → Stream → Type 0
  Opened request s = (s.sent ≡ request) × Alive bad s

  pub establish_http-Post :
      (host : Text) (port : ℕ) (d : HttpDsn) (limit : ℕ) (w : World)
      → Peers bad env
      → Post bad
          (Opened (as_bytes (connect_request env.base64 host port d)))
          (establish_http env host port d limit w).0
  unfolding establish_http
  establish_http-Post host port d limit w peers =
      let request = as_bytes (connect_request env.base64 host port d) in
      next-Post bad _ (Opened request) (connect env limit (host_port d.host d.port) _ _ w) _
        (connect-Post bad env limit (host_port d.host d.port) _ _ w peers)
        λ s fresh w1.
          next-Post bad _ (Opened request) (write_all env request s w1) _
            (write_all-Post bad env request s w1 fresh.1)
            λ s1 wrote w2.
              next-Post bad _ (Opened request) (read_answer env 1025 [] s1 w2) _
                (read_answer-Post 1025 [] s1 w2 (omega arith, omega arith)
                  (Wrote-Alive bad env request s s1 wrote fresh.1))
                λ r heard w3.
                  from_result-Post bad (Opened request) (check_status r.0) _ w3
                    λ u accepted. (heard.0 ∙ wrote.0 ∙ ap (λ t. t ++ request) fresh.0, heard.1)

-- If every accepted connection is fresh and no peer is silent for ever or stops reading
-- without an error, the handshake comes back,
-- without a panic. If it gives a stream, then exactly the CONNECT request was sent on it.
pub establish_http-Ensures :
    (env : Env) (host : Text) (port : ℕ) (d : HttpDsn) (limit : ℕ) (w : World)
    → Peers ⊥ env
    → Ensures
        (λ s. s.sent ≡ as_bytes (connect_request env.base64 host port d))
        (establish_http env host port d limit w).0
establish_http-Ensures env host port d limit w peers =
    weaken-Post ⊥ (Opened ⊥ env (as_bytes (connect_request env.base64 host port d))) _
      (establish_http env host port d limit w).0 (λ s opened. opened.0)
      (establish_http-Post ⊥ env host port d limit w peers)
