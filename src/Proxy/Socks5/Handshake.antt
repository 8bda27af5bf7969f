-- ===== src/Proxy/Socks5/Handshake.antt =====
-- What `establish_socks5` sends, that it ends, and when it panics.
use multi_proxy.Dsn.{Socks5Dsn}
use multi_proxy.Net.{Env, World, Stream, connect, read_exact, write_all}
use multi_proxy.Net.Post.{
  Post, Ensures, next-Post, Alive, Wrote-Alive, read_exact-Post, write_all-Post, Peers,
  connect-Post, weaken-Post, if-Post,
}
use multi_proxy.Proxy.Http.{host_port}
use multi_proxy.Net.{pure, throw}
use multi_proxy.Proxy.Socks5.{
  byte_at, establish_socks5, greet, authenticate, login, request, methods, credentials,
  connect_command,
}
use multi_proxy.Base.{
  Bytes, Option, Text, [], length, some, ℕ, ◌%◌, ◌++◌, ◌∷◌, ◌≡◌, ◌⊎◌, inl, inr, none, refl, ◌==◌,
  ◌∙◌, ap,
}

-- The greeting: version 5 and the methods on offer behind their number.
abbrev pub greeting : Option Text → Option Text → Bytes
greeting user pass = 5 ∷ (length (methods user pass) % 256) ∷ methods user pass

-- What was sent in front of the connect command: the greeting, and the credentials if the proxy asked.
abbrev pub Greeted : Socks5Dsn → Bytes → Type 0
Greeted d sent =
    (sent ≡ greeting d.user d.pass)
    ⊎ ((user : Text) × (pass : Text) × (d.user ≡ some user)
        × (d.pass ≡ some pass)
        × (sent ≡ greeting d.user d.pass ++ credentials user pass))

-- A whole handshake: then the connect command, and nothing more.
abbrev pub Spoken : Socks5Dsn → Text → ℕ → Bytes → Type 0
Spoken d host port sent =
    (front : Bytes) × Greeted d front × (sent ≡ front ++ connect_command host port)

-- Both credentials are there, or a panic is allowed for.
abbrev pub HasCredentials : Type 0 → Option Text → Option Text → Type 0
HasCredentials bad u p = ((user : Text) × (pass : Text) × (u ≡ some user) × (p ≡ some pass)) ⊎ bad

module _ (bad : Type 0) (env : Env) where
  abbrev pub GreetedBy : Socks5Dsn → ℕ × Stream → Type 0
  GreetedBy d r = (r.1.sent ≡ greeting d.user d.pass) × Alive bad r.1

  greet-Post :
      (d : Socks5Dsn) (s : Stream) (w : World)
      → (s.sent ≡ []) × Alive bad s
      → Post bad (GreetedBy d) (greet env d s w).0
  unfolding greet
  greet-Post d s w fresh =
      next-Post bad _ (GreetedBy d) (write_all env _ s w) _ (write_all-Post bad env _ s w fresh.1)
        λ s1 wrote1 w1.
          next-Post bad _ (GreetedBy d) (write_all env _ s1 w1) _
            (write_all-Post bad env _ s1 w1 (Wrote-Alive bad env _ s s1 wrote1 fresh.1))
            λ s2 wrote2 w2.
              next-Post bad _ (GreetedBy d) (read_exact env 2 s2 w2) _
                (read_exact-Post bad env 2 s2 w2
                  (Wrote-Alive bad env _ s1 s2 wrote2 (Wrote-Alive bad env _ s s1 wrote1 fresh.1)))
                λ r heard w3.
                  if-Post bad (GreetedBy d) (byte_at 0 r.0 == 5) (pure (byte_at 1 r.0, r.1))
                    (throw _) w3 (cc (heard.0, wrote2.0, wrote1.0, fresh.0), heard.1) tt

  abbrev pub LoggedIn : Option Text → Option Text → Bytes → Stream → Type 0
  LoggedIn u p front s =
      ((user : Text) × (pass : Text) × (u ≡ some user)
        × (p ≡ some pass)
        × (s.sent ≡ front ++ credentials user pass))
      × Alive bad s

  login-Post :
      (u p : Option Text) (s : Stream) (w : World)
      → HasCredentials bad u p
      → Alive bad s
      → Post bad (LoggedIn u p s.sent) (login env u p s w).0
  unfolding login
  login-Post (some user) (some pass) s w h heard =
      next-Post bad _ (LoggedIn (some user) (some pass) s.sent) (write_all env _ s w) _
        (write_all-Post bad env _ s w heard)
        λ s1 wrote w1.
          next-Post bad _ (LoggedIn (some user) (some pass) s.sent) (read_exact env 2 s1 w1) _
            (read_exact-Post bad env 2 s1 w1 (Wrote-Alive bad env _ s s1 wrote heard))
            λ r heard1 w2.
              if-Post bad (LoggedIn (some user) (some pass) s.sent) (byte_at 1 r.0 == 0) (pure r.1)
                (throw _) w2 ((user, pass, refl, refl, heard1.0 ∙ wrote.0), heard1.1) tt
  login-Post (some user) none s w (inl (a, b, e, k)) heard = cc
  login-Post (some user) none s w (inr b) heard = b
  login-Post none p s w (inl (a, b, e, k)) heard = cc
  login-Post none p s w (inr b) heard = b

  abbrev pub Authenticated : Socks5Dsn → Stream → Type 0
  Authenticated d s = Greeted d s.sent × Alive bad s

  authenticate-Post :
      (d : Socks5Dsn) (method : ℕ) (s : Stream) (w : World)
      → HasCredentials bad d.user d.pass
      → (s.sent ≡ greeting d.user d.pass) × Alive bad s
      → Post bad (Authenticated d) (authenticate env d method s w).0
  unfolding authenticate
  authenticate-Post d method s w h (said, heard) =
      if-Post bad (Authenticated d) (method == 0) (pure s) _ w (inl said, heard)
        (if-Post bad (Authenticated d) (method == 2) (login env d.user d.pass s) _ w
          (weaken-Post bad (LoggedIn d.user d.pass s.sent) (Authenticated d)
            (login env d.user d.pass s w).0
            (λ s1 l. (
              inr (l.0.0, l.0.1, l.0.2, l.0.3, l.0.4 ∙ ap (λ t. t ++ credentials l.0.0 l.0.1) said),
              l.1,
            ))
            (login-Post d.user d.pass s w h heard))
          (if-Post bad (Authenticated d) (method == 255) (throw _) (throw _) w tt tt))

  abbrev pub Finished : Socks5Dsn → Text → ℕ → Stream → Type 0
  Finished d host port s = Spoken d host port s.sent

  request-Post :
      (d : Socks5Dsn) (host : Text) (port : ℕ) (s : Stream) (w : World)
      → Greeted d s.sent
      → Alive bad s
      → Post bad (Finished d host port) (request env host port s w).0
  unfolding request
  request-Post d host port s w greeted heard =
      next-Post bad _ (Finished d host port) (write_all env _ s w) _
        (write_all-Post bad env _ s w heard)
        λ s1 wrote w1.
          next-Post bad _ (Finished d host port) (read_exact env 10 s1 w1) _
            (read_exact-Post bad env 10 s1 w1 (Wrote-Alive bad env _ s s1 wrote heard))
            λ r heard1 w2.
              if-Post bad (Finished d host port) (byte_at 1 r.0 == 0) (pure r.1) (throw _) w2
                (s.sent, greeted, heard1.0 ∙ wrote.0) tt

  pub establish_socks5-Post :
      (host : Text) (port : ℕ) (d : Socks5Dsn) (limit : ℕ) (w : World)
      → HasCredentials bad d.user d.pass
      → Peers bad env
      → Post bad (Finished d host port) (establish_socks5 env host port d limit w).0
  unfolding establish_socks5
  establish_socks5-Post host port d limit w creds peers =
      next-Post bad _ (Finished d host port) (connect env limit (host_port d.host d.port) _ _ w) _
        (connect-Post bad env limit (host_port d.host d.port) _ _ w peers)
        λ s fresh w1.
          next-Post bad (GreetedBy d) (Finished d host port) (greet env d s w1) _
            (greet-Post d s w1 fresh)
            λ r greeted w2.
              next-Post bad (Authenticated d) (Finished d host port) (authenticate env d r.0 r.1 w2)
                _ (authenticate-Post d r.0 r.1 w2 creds greeted)
                λ s2 auth w3. request-Post d host port s2 w3 auth.0 auth.1

-- If the DSN has both credentials, every accepted connection is fresh and no peer is silent for
-- ever or stops reading without an error, the handshake comes back, without a panic. If it gives a stream, then what was sent on it
-- is the greeting, the credentials or nothing, and the connect command.
pub establish_socks5-Ensures :
    (env : Env) (host : Text) (port : ℕ) (d : Socks5Dsn) (limit : ℕ) (w : World) (user pass : Text)
    → d.user ≡ some user
    → d.pass ≡ some pass
    → Peers ⊥ env
    → Ensures (λ s. Spoken d host port s.sent) (establish_socks5 env host port d limit w).0
establish_socks5-Ensures env host port d limit w user pass u p peers =
    establish_socks5-Post ⊥ env host port d limit w (inl (user, pass, u, p)) peers
