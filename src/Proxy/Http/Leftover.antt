-- ===== src/Proxy/Http/Leftover.antt =====
-- src/proxy.rs, `establish_http`: what of the proxy's answer is left in the tunnel.
use multi_proxy.Str.{starts_with, is_empty}
use multi_proxy.Str.Utf8.{as_bytes}
use multi_proxy.Dsn.{HttpDsn}
use multi_proxy.Net.{Env, World, Stream, Inbox, chunk, done, accepted, connect, elapse, read}
use multi_proxy.Net.Ask.{write_all-open, read-piece}
use multi_proxy.Proxy.Http.{
  establish_http, read_answer, read_round, check_status, connect_request, crlf, position, is_some,
  host_port,
}
use multi_proxy.Base.{
  Bytes, Text, [], arith, leb, length, none, ok, refl, suc, true, ℕ, ◌++◌, ◌∷◌, ◌≡◌, ◌≤◌,
  Option-cases, inl, inr, ◌≢◌,
}

line_end : (l : Bytes) → is_some (position crlf (l ++ crlf)) ≡ true
unfolding position starts_with
line_end [] = refl
line_end (c ∷ l) = elim (Option-cases (position crlf (l ++ crlf))) [
  | inl missing ↦ absurd (ground (arith, line_end l))
  | inr (i, found) ↦ rw found (ground arith)
]

line_full : (l : Bytes) → l ++ crlf ≢ []
line_full [] e = cc
line_full (c ∷ l) e = cc

module _ (env : Env) where
  one_round :
      (fuel : ℕ) (l : Bytes) (s s1 : Stream) (w w1 : World)
      → read env 256 s w ≡ (done (l ++ crlf, s1), w1)
      → read_answer env (suc fuel) [] s w ≡ (done (l ++ crlf, s1), w1)
  unfolding read_answer read_round is_empty
  one_round fuel [] s s1 w w1 e = rw e (rw (line_end []) refl)
  one_round fuel (c ∷ l) s s1 w w1 e = rw e (rw (line_end (c ∷ l)) refl)

  -- If the proxy accepts in time, takes what is written and sends its status line in a piece of its own, of
  -- at most 256 bytes and with status 200, then the tunnel is open at once, and everything else that
  -- the proxy sends, the rest of its head included, comes out of the tunnel as if the origin had sent
  -- it.
  pub establish_http-leftover :
      (host : Text) (port : ℕ) (dsn : HttpDsn) (limit : ℕ) (w : World) (d d' : ℕ) (s : Stream)
      (line : Bytes) (rest : Inbox)
      → env.dial w.awaits (host_port dsn.host dsn.port) ≡ accepted d s
      → d ≤ limit
      → s.write_fault ≡ none
      → s.inbox ≡ chunk d' (line ++ crlf) rest
      → length (line ++ crlf) ≤ 256
      → check_status (line ++ crlf) ≡ ok tt
      → (t : Stream) × ((establish_http env host port dsn limit w).0 ≡ done t) × (t.inbox ≡ rest)
  unfolding establish_http connect
  establish_http-leftover host port dsn limit w d d' s line rest dialed le accepts answers short
        good =
      let soon : leb d limit ≡ true = ground arith in
      let request = as_bytes (connect_request env.base64 host port dsn) in
      let s1 : Stream = record s { sent = s.sent ++ request } in
      let w1 = elapse env d w in
      let w2 = elapse env 0 w1 in
      let got = read-piece env s1 d' (line ++ crlf) rest w2 answers (line_full line) short in
      (
        record s1 { inbox = rest },
        rw (dialed, soon)
            (rw
              (
                write_all-open env request s w1 accepts,
                one_round 1024 line s1 (record s1 { inbox = rest }) w2 (elapse env d' w2) got,
                good,
              )
              refl),
        refl,
      )
