-- ===== src/Dsn/Laws.antt =====
-- What a parsed DSN holds.
use multi_proxy.Str.{starts_with, trim}
use multi_proxy.Dsn.{Dsn, HttpDsn, Url, http, socks5, ssh, from_str, http_from_str, dispatch}
use multi_proxy.Base.{
  Result, Text, arith, ok, some, text, true, ℕ, ◌<◌, ◌≡◌, ◌≢◌, >>=-eq-ok, Option-cases, inl, inr,
  ok_or,
}

-- The prefix that a DSN of each kind has.
abbrev pub scheme : Dsn → Text
scheme (http d) = text "http://"
scheme (socks5 d) = text "socks5://"
scheme (ssh d) = text "ssh://"

abbrev pub dsn_port : Dsn → ℕ
dsn_port (http d) = d.port
dsn_port (socks5 d) = d.port
dsn_port (ssh d) = d.port

module _ (parse_url : Text → Result Url) where
  dispatch-scheme :
      (s : Text) (d : Dsn) → dispatch parse_url s ≡ ok d → starts_with s (scheme d) ≡ true
  unfolding dispatch
  dispatch-scheme s (http d) e = ground arith
  dispatch-scheme s (socks5 d) e = ground arith
  dispatch-scheme s (ssh d) e = ground arith

  -- The scheme of an accepted DSN, blanks trimmed, is that of its kind.
  pub from_str-scheme :
      (s : Text) (d : Dsn) → from_str parse_url s ≡ ok d → starts_with (trim s) (scheme d) ≡ true
  unfolding from_str
  from_str-scheme s d e = dispatch-scheme (trim s) d e

  -- The ports that `url::Url::port` may return: those of 16 bits, but the default of the scheme, which
  -- for `http` is 80.
  abbrev pub PortDocs : Type 0
  PortDocs =
      (s : Text) (u : Url) (p : ℕ)
      → parse_url s ≡ ok u
      → u.port ≡ some p
      → (p < 65536) × (starts_with s (text "http://") ≡ true → p ≢ 80)

  http_from_str-port :
      (s : Text) (d : HttpDsn)
      → PortDocs
      → starts_with s (text "http://") ≡ true
      → http_from_str parse_url s ≡ ok d
      → d.port ≢ 80
  unfolding http_from_str
  http_from_str-port s d docs h e =
      let (u, parsed, e1) = >>=-eq-ok (parse_url s) _ e in
      let (host, found, e2) = >>=-eq-ok (ok_or u.host_str (text "HTTP DSN missing host")) _ e1 in
      elim (Option-cases u.port) [
        | inl implied ↦ ground arith
        | inr (p, given) ↦ ground (arith, (docs s u p parsed given).1 h)
      ]

  dispatch-http :
      (s : Text) (d : HttpDsn)
      → dispatch parse_url s ≡ ok (http d)
      → http_from_str parse_url s ≡ ok d
  unfolding dispatch
  dispatch-http s d e = ground arith

  -- If `url::Url::port` never returns the default port of the scheme, then no HTTP DSN leads to
  -- port 80, not even one that names it.
  pub from_str-not_80 :
      (s : Text) (d : HttpDsn) → PortDocs → from_str parse_url s ≡ ok (http d) → d.port ≢ 80
  unfolding from_str
  from_str-not_80 s d docs e =
      http_from_str-port (trim s) d docs (dispatch-scheme (trim s) (http d) e)
        (dispatch-http (trim s) d e)
