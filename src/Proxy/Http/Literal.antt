-- ===== src/Proxy/Http/Literal.antt =====
-- src/proxy.rs, from `parse_authority` to `establish_http`: what becomes of an IPv6 address in a CONNECT.
use multi_proxy.Dsn.{HttpDsn}
use multi_proxy.Str.Decimal.{max_u16}
use multi_proxy.Str.Laws.{Lacks}
use multi_proxy.Proxy.Http.{connect_request, host_port}
use multi_proxy.Proxy.Message.Authority.{read_authority, read_authority-bracketed, host_port-unread}
use multi_proxy.Proxy.Request.{parse_authority}
use multi_proxy.Proxy.Request.Authority.{write_bracketed, parse_authority-write_bracketed}
use multi_proxy.Base.{Bytes, Text, ok, refl, some, text, ℕ, ◌++◌, ◌∷◌, ◌≡◌, ◌≢◌, ◌≤◌}

-- A CONNECT for a host with a colon, in front of which there is no bracket, and without a closing bracket,
-- as an IPv6 address: its authority, in brackets, is understood by the program and by a reader of RFC 3986
-- alike, as host and port; but the request that goes to an HTTP proxy has the host without brackets as its
-- target, from which that reader does not get host and port.
pub connect_request-unread :
    (base64 : Bytes → Text) (dsn : HttpDsn) (front back : Text) (port : ℕ)
    → Lacks b'[' front
    → Lacks b':' front
    → Lacks b']' (front ++ b':' ∷ back)
    → port ≤ max_u16
    → let host = front ++ b':' ∷ back in
      (parse_authority (write_bracketed host port) ≡ ok (host, port))
      × (read_authority (write_bracketed host port) ≡ some (host, port))
      × ((rest : Text) × (connect_request base64 host port dsn
            ≡ text "CONNECT " ++ (host_port host port ++ (text " HTTP/1.1" ++ rest))))
      × (read_authority (host_port host port) ≢ some (host, port))
unfolding connect_request
connect_request-unread base64 dsn front back port h plain closing small =
    let host = front ++ b':' ∷ back in
    (
      parse_authority-write_bracketed host port closing small,
      read_authority-bracketed host port closing small,
      (_, refl),
      host_port-unread front back port h plain,
    )
