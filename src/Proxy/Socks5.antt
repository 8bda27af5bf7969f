-- ===== src/Proxy/Socks5.antt =====
-- src/proxy.rs, `establish_socks5`: a tunnel through a SOCKS5 proxy (RFC 1928, RFC 1929).
pub mod Frames
pub mod Handshake
pub mod Panic
pub mod Shared
use multi_proxy.Str.Decimal.{to_string}
use multi_proxy.Str.Utf8.{as_bytes}
use multi_proxy.Dsn.{Socks5Dsn}
use multi_proxy.Proxy.Http.{host_port}
use multi_proxy.Net.{
  Env, World, Stream, Outcome, panic, M, pure, throw, next, ◌>>=◌, ◌>>◌, connect, read_exact,
  write_all, crash,
}
use multi_proxy.Base.{
  Bytes, Option, Text, [], if◌then◌else◌, length, none, some, suc, text, zero, ℕ, ◌%◌, ◌++◌, ◌/◌,
  ◌==◌, ◌∷◌,
}

-- Byte `i` of a reply that `read_exact` has filled.
unfoldable pub byte_at : ℕ → Bytes → ℕ
byte_at i [] = 0
byte_at zero (b ∷ bs) = b
byte_at (suc i) (b ∷ bs) = byte_at i bs

-- A text behind its length `as u8`.
unfoldable pub short_string : Text → Bytes
short_string s = (length (as_bytes s) % 256) ∷ as_bytes s

-- `port.to_be_bytes()`
unfoldable pub to_be_bytes : ℕ → Bytes
to_be_bytes port = (port / 256) ∷ (port % 256) ∷ []

-- The methods on offer: user name and password before none, if the DSN has both.
unfoldable pub methods : Option Text → Option Text → Bytes
methods (some user) (some pass) = 2 ∷ 0 ∷ []
methods (some user) none = 0 ∷ []
methods none pass = 0 ∷ []

unfoldable pub credentials : Text → Text → Bytes
unfolding short_string
credentials user pass = 1 ∷ (short_string user ++ short_string pass)

unfoldable pub connect_command : Text → ℕ → Bytes
unfolding short_string to_be_bytes
connect_command host port = 5 ∷ 1 ∷ 0 ∷ 3 ∷ (short_string host ++ to_be_bytes port)

-- The reason for a status; the array in the source has nine.
unfoldable pub reason : ℕ → Text
reason zero = text "succeeded"
reason (suc zero) = text "general failure"
reason (suc (suc zero)) = text "connection not allowed"
reason (suc (suc (suc zero))) = text "network unreachable"
reason (suc (suc (suc (suc zero)))) = text "host unreachable"
reason (suc (suc (suc (suc (suc zero))))) = text "connection refused"
reason (suc (suc (suc (suc (suc (suc zero)))))) = text "TTL expired"
reason (suc (suc (suc (suc (suc (suc (suc zero))))))) = text "command not supported"
reason (suc (suc (suc (suc (suc (suc (suc (suc zero)))))))) = text "address type not supported"
reason status = text "code=" ++ to_string status

module _ (env : Env) where
  -- `unwrap` on the credentials, which panics if the DSN lacks one.
  login : Option Text → Option Text → Stream → M Stream
  login (some user) (some pass) upstream = do
    upstream ← write_all env (credentials user pass) upstream
    (auth_reply, upstream) ← read_exact env 2 upstream
    if byte_at 1 auth_reply == 0
        then pure upstream
        else throw (text "SOCKS5 auth failed: status=" ++ to_string (byte_at 1 auth_reply))
  login (some user) none upstream = crash
  login none pass upstream = crash

  authenticate : Socks5Dsn → ℕ → Stream → M Stream
  unfolding login credentials byte_at
  authenticate dsn method upstream =
      if method == 0
      then pure upstream
      else if method == 2
      then login dsn.user dsn.pass upstream
      else if method == 255
      then throw (text "SOCKS5: no acceptable auth method")
      else throw (text "SOCKS5: unexpected auth method reply: " ++ to_string method)

  -- Step 1: the greeting and the method that the proxy selects.
  greet : Socks5Dsn → Stream → M (ℕ × Stream)
  unfolding methods byte_at
  greet dsn upstream = do
    let offered = methods dsn.user dsn.pass
    upstream ← write_all env (5 ∷ (length offered % 256) ∷ []) upstream
    upstream ← write_all env offered upstream
    (reply, upstream) ← read_exact env 2 upstream
    if byte_at 0 reply == 5
        then pure (byte_at 1 reply, upstream)
        else throw (text "SOCKS5 version mismatch")

  -- Step 3: the connect command and its reply.
  request : Text → ℕ → Stream → M Stream
  unfolding connect_command byte_at
  request host port upstream = do
    upstream ← write_all env (connect_command host port) upstream
    (reply, upstream) ← read_exact env 10 upstream
    if byte_at 1 reply == 0
        then pure upstream
        else throw (text "SOCKS5 connect failed: " ++ reason (byte_at 1 reply))

  unfoldable pub establish_socks5 : Text → ℕ → Socks5Dsn → ℕ → M Stream
  unfolding greet authenticate request
  establish_socks5 host port dsn limit = do
    upstream ← connect env limit (host_port dsn.host dsn.port) (text "SOCKS5 connection timeout") []
    (method, upstream) ← greet dsn upstream
    upstream ← authenticate dsn method upstream
    request host port upstream
