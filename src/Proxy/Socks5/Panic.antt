-- ===== src/Proxy/Socks5/Panic.antt =====
-- src/proxy.rs, `establish_socks5`: a proxy that asks for credentials that the DSN does not have.
use multi_proxy.Dsn.{Socks5Dsn}
use multi_proxy.Net.{Env, World, Stream, Inbox, chunk, done, panic, accepted, connect, elapse}
use multi_proxy.Net.Ask.{write_all-open, read_exact-pair}
use multi_proxy.Proxy.Http.{host_port}
use multi_proxy.Proxy.Socks5.{establish_socks5, greet, authenticate, login, methods}
use multi_proxy.Base.{
  Bytes, Option, Text, [], arith, leb, length, none, refl, some, true, ℕ, ◌%◌, ◌++◌, ◌∷◌, ◌≡◌, ◌≤◌,
}

-- One of the credentials is not there.
abbrev pub LacksOne : Option Text → Option Text → Type 0
LacksOne (some user) (some pass) = ⊥
LacksOne (some user) none = Unit {0}
LacksOne none pass = Unit {0}

module _ (env : Env) where
  login-panic :
      (user pass : Option Text) (s : Stream) (w : World)
      → LacksOne user pass
      → login env user pass s w ≡ (panic, w)
  unfolding login
  login-panic (some user) (some pass) s w h = absurd h
  login-panic (some user) none s w h = refl
  login-panic none pass s w h = refl

  greet_answered :
      (dsn : Socks5Dsn) (s : Stream) (d : ℕ) (bs : Bytes) (rest : Inbox) (w : World)
      → s.write_fault ≡ none
      → s.inbox ≡ chunk d (5 ∷ 2 ∷ bs) rest
      → (s1 : Stream) × (w1 : World) × (greet env dsn s w ≡ (done (2, s1), w1))
  unfolding greet
  greet_answered dsn s d bs rest w accepts e =
      let offered = methods dsn.user dsn.pass in
      let first = 5 ∷ (length offered % 256) ∷ [] in
      let s1 : Stream = record s { sent = s.sent ++ first } in
      let s2 : Stream = record s1 { sent = s1.sent ++ offered } in
      let (s3, w3, got) = read_exact-pair env s2 d 5 2 bs rest (elapse env 0 (elapse env 0 w)) e in
      (
        s3,
        w3,
        rw
            (
              write_all-open env first s w accepts,
              write_all-open env offered s1 (elapse env 0 w) accepts,
              got,
            )
            refl,
      )

  -- If the DSN lacks a credential, a proxy that accepts in time, takes what is written and answers the
  -- greeting by asking for user name and password, which it was not offered, makes the handshake
  -- panic.
  pub establish_socks5-panic :
      (host : Text) (port : ℕ) (dsn : Socks5Dsn) (limit : ℕ) (w : World) (d d' : ℕ) (s : Stream)
      (bs : Bytes) (rest : Inbox)
      → env.dial w.awaits (host_port dsn.host dsn.port) ≡ accepted d s
      → d ≤ limit
      → s.write_fault ≡ none
      → s.inbox ≡ chunk d' (5 ∷ 2 ∷ bs) rest
      → LacksOne dsn.user dsn.pass
      → (establish_socks5 env host port dsn limit w).0 ≡ panic
  unfolding establish_socks5 connect authenticate
  establish_socks5-panic host port dsn limit w d d' s bs rest dialed le accepts asks h =
      let soon : leb d limit ≡ true = ground arith in
      let (s1, w1, greeted) = greet_answered dsn s d' bs rest (elapse env d w) accepts asks in
      rw (dialed, soon) (rw (greeted, login-panic dsn.user dsn.pass s1 w1 h) refl)
