-- ===== src/Proxy/Http.antt =====
-- src/proxy.rs, `establish_http`: a tunnel through an HTTP proxy by CONNECT.
pub mod Handshake
pub mod Position
pub mod RoundTrip
pub mod Literal
pub mod Leftover
pub mod Answer
pub mod Shared
use mathlib.Core.Option
use multi_proxy.Str.{starts_with, is_empty, lines, trim, split_whitespace, text_eq}
use multi_proxy.Str.Decimal.{to_string}
use multi_proxy.Str.Utf8.{as_bytes, from_utf8_lossy}
use multi_proxy.Dsn.{HttpDsn}
use multi_proxy.Net.{
  Env, World, Stream, Outcome, hang, M, pure, next, from_result, ◌>>=◌, ◌>>◌, connect, read,
  write_all,
}
use multi_proxy.Base.{
  Bool, Bytes, List, Option, Result, Text, [], err, false, get_elem?, if◌then◌else◌, length, ltb,
  map, none, ok, some, suc, text, true, zero, ℕ, ◌++◌, ◌||◌, ◌∷◌,
}

abbrev pub crlf : Bytes
crlf = 13 ∷ 10 ∷ []

-- `format!("{}:{}", host, port)`
unfoldable pub host_port : Text → ℕ → Text
host_port host port = host ++ b':' ∷ to_string port

-- `buf.windows(p.len()).position(|w| w == p)`
unfoldable pub position : Bytes → Bytes → Option ℕ
position p [] = none
position p (b ∷ bs) = if starts_with (b ∷ bs) p then some 0 else Option.map suc (position p bs)

abbrev pub is_some {ℓ} : {A : Type ℓ} → Option A → Bool
is_some none = false
is_some (some a) = true

-- The header line with the credentials, if the DSN has both.
unfoldable pub proxy_authorization : (Bytes → Text) → Option Text → Option Text → Text
proxy_authorization base64 (some user) (some pass) =
    text "Proxy-Authorization: Basic " ++ (base64 (as_bytes (user ++ b':' ∷ pass)) ++ crlf)
proxy_authorization base64 (some user) none = []
proxy_authorization base64 none pass = []

unfoldable pub connect_request : (Bytes → Text) → Text → ℕ → HttpDsn → Text
connect_request base64 host port dsn =
    text "CONNECT "
    ++ (host_port host port
        ++ (text " HTTP/1.1"
            ++ (crlf
                ++ (text "Host: "
                    ++ (host_port host port
                        ++ (crlf ++ (proxy_authorization base64 dsn.user dsn.pass ++ crlf)))))))

unfoldable pub nth {ℓ} : {A : Type ℓ} → ℕ → List A → Option A
nth i xs = get_elem? xs i

-- `lines().next().unwrap_or(d)`
unfoldable pub first_or {ℓ} : {A : Type ℓ} → A → List A → A
first_or d [] = d
first_or d (x ∷ xs) = x

abbrev pub is_200 : Option Text → Bool
is_200 none = false
is_200 (some code) = text_eq code (text "200")

unfoldable pub first_line : Bytes → Text
unfolding first_or
first_line buf = trim (first_or (text "Connection failed") (lines (from_utf8_lossy buf)))

-- The status line: the tunnel is open on status 200.
unfoldable pub check_status : Bytes → Result (Unit {0})
unfolding first_line nth
check_status buf =
    if is_200 (nth 1 (split_whitespace (first_line buf)))
    then ok tt
    else err (text "CONNECT failed: " ++ first_line buf)

module _ (env : Env) where
  -- One round of the loop that reads the answer, with the rounds after it.
  read_round : (Bytes → Stream → M (Bytes × Stream)) → Bytes → Bytes × Stream → M (Bytes × Stream)
  read_round rest line_buf (bytes, upstream) =
      if is_empty bytes
      then pure (line_buf, upstream)
      else (if is_some (position crlf (line_buf ++ bytes)) || ltb 1024 (length (line_buf ++ bytes))
          then pure (line_buf ++ bytes, upstream)
          else rest (line_buf ++ bytes) upstream)

  -- The loop. Each round but the last adds a byte and leaves at most 1024, so 1025 rounds are enough.
  unfoldable pub read_answer : ℕ → Bytes → Stream → M (Bytes × Stream)
  unfolding read_round
  read_answer zero line_buf upstream w = (hang, w)
  read_answer (suc fuel) line_buf upstream w =
      next (read env 256 upstream w) (read_round (read_answer fuel) line_buf)

  unfoldable pub establish_http : Text → ℕ → HttpDsn → ℕ → M Stream
  unfolding connect_request check_status
  establish_http host port dsn limit = do
    upstream ←
        connect env limit (host_port dsn.host dsn.port) (text "HTTP proxy connection timeout") []
    upstream ← write_all env (as_bytes (connect_request env.base64 host port dsn)) upstream
    (line_buf, upstream) ← read_answer 1025 [] upstream
    from_result (check_status line_buf)
    pure upstream
