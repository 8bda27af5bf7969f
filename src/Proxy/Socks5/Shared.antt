-- ===== src/Proxy/Socks5/Shared.antt =====
-- The SOCKS5 handshake keeps the shared state.
use multi_proxy.Dsn.{Socks5Dsn}
use multi_proxy.Net.{Env, Stream, read_exact, connect, write_all}
use multi_proxy.Net.Run.{
  Keeps, Kept-refl, >>=-Keeps, if-Keeps, connect-Keeps, read_exact-Keeps, write_all-Keeps,
}
use multi_proxy.Proxy.Socks5.{establish_socks5, greet, authenticate, login, request}
use multi_proxy.Base.{Option, Text, none, some, ℕ, ◌==◌}

module _ (env : Env) where
  login-Keeps : (user pass : Option Text) (s : Stream) → Keeps (login env user pass s)
  unfolding login
  login-Keeps (some user) (some pass) s =
      >>=-Keeps (write_all env _ s) _ (write_all-Keeps env _ s) λ s2.
        >>=-Keeps (read_exact env 2 s2) _ (read_exact-Keeps env 2 s2)
          λ r. if-Keeps _ _ _ Kept-refl Kept-refl
  login-Keeps (some user) none s = Kept-refl
  login-Keeps none pass s = Kept-refl

  authenticate-Keeps :
      (d : Socks5Dsn) (method : ℕ) (s : Stream) → Keeps (authenticate env d method s)
  unfolding authenticate
  authenticate-Keeps d method s = if-Keeps (method == 0) _ _ Kept-refl (
      if-Keeps (method == 2) _ _ (login-Keeps d.user d.pass s)
        (if-Keeps (method == 255) _ _ Kept-refl Kept-refl))

  greet-Keeps : (d : Socks5Dsn) (s : Stream) → Keeps (greet env d s)
  unfolding greet
  greet-Keeps d s = >>=-Keeps (write_all env _ s) _ (write_all-Keeps env _ s) λ s2.
      >>=-Keeps (write_all env _ s2) _ (write_all-Keeps env _ s2) λ s3.
        >>=-Keeps (read_exact env 2 s3) _ (read_exact-Keeps env 2 s3)
          λ r. if-Keeps _ _ _ Kept-refl Kept-refl

  request-Keeps : (host : Text) (port : ℕ) (s : Stream) → Keeps (request env host port s)
  unfolding request
  request-Keeps host port s = >>=-Keeps (write_all env _ s) _ (write_all-Keeps env _ s) λ s2.
      >>=-Keeps (read_exact env 10 s2) _ (read_exact-Keeps env 10 s2)
        λ r. if-Keeps _ _ _ Kept-refl Kept-refl

  pub establish_socks5-Keeps :
      (host : Text) (port : ℕ) (d : Socks5Dsn) (limit : ℕ)
      → Keeps (establish_socks5 env host port d limit)
  unfolding establish_socks5
  establish_socks5-Keeps host port d limit =
      >>=-Keeps (connect env limit _ _ _) _ (connect-Keeps env limit _ _ _) λ s.
        >>=-Keeps (greet env d s) _ (greet-Keeps d s) λ r.
          >>=-Keeps (authenticate env d r.0 r.1) _ (authenticate-Keeps d r.0 r.1)
            λ s2. request-Keeps host port s2
