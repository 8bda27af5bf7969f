-- ===== src/Examples/Endings.antt =====
-- Examples: how bodies and handshakes end.
use multi_proxy.Dsn.{Socks5Dsn}
use multi_proxy.Examples.Data.{http_network, peer, socks5_dsn, network, world}
use multi_proxy.Net.{Inbox, chunk, closed, done, panic, Env}
use multi_proxy.Proxy.Response.{ReaderBody}
use multi_proxy.Proxy.Response.Body.{remaining}
use multi_proxy.Proxy.Response.Collect.{collect, collect-remaining}
use multi_proxy.Proxy.Socks5.{establish_socks5}
use multi_proxy.Proxy.Socks5.Panic.{establish_socks5-panic}
use multi_proxy.Net.{Stream}
use multi_proxy.Str.{lines, trim, split_whitespace, text_eq}
use multi_proxy.Str.Utf8.{from_utf8_lossy}
use multi_proxy.Examples.Data.{http_dsn}
use multi_proxy.Proxy.Http.{establish_http, check_status, first_line, nth, crlf}
use multi_proxy.Proxy.Http.Leftover.{establish_http-leftover}
use multi_proxy.Base.{
  [], arith, length, none, refl, some, text, ◌+◌, ◌∷◌, ◌≡◌, ◌≤◌, List, ok, ℕ, ◌++◌,
}

-- A piece came with the headers, two come later.
abbrev body : ReaderBody
body = record {
  reader = peer (chunk 1 (text "b") (chunk 70000 (text "c") closed));
  leading = some (text "a");
}

enough : length (remaining body) + 2 ≤ 5
unfolding text
enough = omega arith

collect-remaining_example : (collect http_network 5 body world).0 ≡ done (remaining body)
collect-remaining_example = collect-remaining http_network 5 body world tt enough

collected : remaining body ≡ text "abc"
unfolding text
collected = refl

abbrev nameless : Socks5Dsn
nameless = record socks5_dsn { user = none; pass = none }

abbrev asking : Inbox
asking = chunk 9 (5 ∷ 2 ∷ []) closed

establish_socks5-panic_example :
    (establish_socks5 (network asking) (text "a") 80 nameless 3000 world).0 ≡ panic
establish_socks5-panic_example =
    establish_socks5-panic (network asking) (text "a") 80 nameless 3000 world 5 9 (peer asking) []
      closed refl (omega arith) refl refl tt

abbrev ok_line : List ℕ
ok_line = text "HTTP/1.1 200 OK"

-- The blank line comes later.
abbrev blank : Inbox
blank = chunk 4 (13 ∷ 10 ∷ []) closed

ok_status : check_status (ok_line ++ crlf) ≡ ok tt
unfolding check_status first_line nth text lines trim split_whitespace text_eq from_utf8_lossy
ok_status = refl

ok_short : length (ok_line ++ crlf) ≤ 256
unfolding text
ok_short = omega arith

abbrev slow : Env
slow = network (chunk 1 (ok_line ++ crlf) blank)

establish_http-leftover_example :
    (t : Stream) × ((establish_http slow (text "a") 443 http_dsn 3000 world).0 ≡ done t)
    × (t.inbox ≡ blank)
establish_http-leftover_example =
    establish_http-leftover slow (text "a") 443 http_dsn 3000 world 5 1
      (peer (chunk 1 (ok_line ++ crlf) blank)) ok_line blank refl (omega arith) refl refl ok_short
      ok_status
