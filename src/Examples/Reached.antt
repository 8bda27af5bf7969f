-- ===== src/Examples/Reached.antt =====
-- Examples: a request that gets through although the only channel refuses.
use multi_proxy.Config
use multi_proxy.Dsn.{http}
use multi_proxy.Examples.Data.{channel, http_dsn, http_network, world, crlf_text, peer}
use multi_proxy.Examples.Requests.{get_request}
use multi_proxy.Examples.Startup.{parse_url, url}
use multi_proxy.Net.{Env, World, Inbox, Stream, chunk, closed, accepted, refused}
use multi_proxy.Net.Gives.{Gives}
use multi_proxy.Net.Post.{Ensures}
use multi_proxy.Net.Pending.{pending}
use multi_proxy.Dsn.{unwrap_or}
use multi_proxy.Proxy.Forward.{path_and_query}
use multi_proxy.Str.{lines}
use multi_proxy.Str.Utf8.{from_utf8_lossy}
use multi_proxy.Proxy.Forward.{request_head}
use multi_proxy.Proxy.Forward.Provenance.{Relays}
use multi_proxy.Proxy.Response.{add_headers}
use multi_proxy.Proxy.Http.{position, host_port, establish_http}
use multi_proxy.Proxy.Request.{parse_path_target}
use multi_proxy.Str.{trim_start_matches}
use multi_proxy.Proxy.Tunnel.{establish_via_dsn}
use multi_proxy.Net.{connect}
use multi_proxy.Proxy.Forward.{Request, handle_path_forward}
use multi_proxy.Proxy.Forward.Exchange.{Proper, Serving}
use multi_proxy.Proxy.Forward.Reached.{handle_path_forward-Relays}
use multi_proxy.Proxy.Response.Ready.{HasHead, Ready}
use multi_proxy.Strategy.{order}
use multi_proxy.Str.{starts_with}
use multi_proxy.Base.{[], arith, false, if◌then◌else◌, ok, refl, text, ℕ, ◌++◌, ◌∷◌, ◌≡◌, ◌≤◌}

abbrev answer : Inbox
answer = chunk 1 (text "HTTP/1.1 200 OK" ++ crlf_text) (chunk 2 (crlf_text ++ text "body") closed)

-- The host `h` is the origin; the proxy at 10.0.0.1 refuses.
abbrev one_way : Env
one_way = record http_network {
  dial = λ n addr.
      if starts_with addr (text "h:") then accepted 5 (peer answer) else refused 1 (text "refused");
  parse_url = parse_url;
}

abbrev one_channel : World
one_channel = record world {
  manager = record { channels = channel 0 (http http_dsn) ∷ []; config = Config.default };
}

abbrev plain_request : Request
plain_request = record get_request { path = text "/http://h:3128/" }

plain_parsed : parse_path_target (text "/http://h:3128/") ≡ ok (text "http://h:3128/", false)
unfolding parse_path_target starts_with trim_start_matches text
plain_parsed = refl

head : HasHead one_way (pending answer)
unfolding position starts_with text lines from_utf8_lossy add_headers
head = record { blank = 15; headers = []; found = refl; valid = refl }

ready : Ready one_way 3000 (peer answer)
unfolding text head
ready = record { head = head; small = omega arith; prompt = (omega arith, (omega arith, tt)) }

at_origin :
    (n : ℕ)
    → (d : ℕ) × (s : Stream) × (one_way.dial n (host_port (text "h") 3128) ≡ accepted d s)
      × (d ≤ 3000)
      × Serving one_way false (text "h") 3000 s
unfolding starts_with text host_port
at_origin n = (5, peer answer, refl, omega arith, (refl, ready))

refusing :
    (w : World)
    → Ensures
        (Proper one_way false (text "h"))
        (establish_via_dsn one_way (http http_dsn) (text "h") 3128 3000 w).0
unfolding establish_via_dsn establish_http connect starts_with text host_port
refusing w = tt

handle_path_forward-Relays_example :
    Gives ⊥
      (Relays one_way
        (http http_dsn ∷ [])
        3000
        (text "h")
        3128
        false
        (request_head (text "GET") (text "/") (text "h") 3128 plain_request.headers ++ []))
      (handle_path_forward one_way plain_request order 3000 one_channel).0
unfolding unwrap_or text path_and_query
handle_path_forward-Relays_example =
    handle_path_forward-Relays one_way 3000 plain_request order (text "http://h:3128/") false url
      (text "h") 0 [] one_channel plain_parsed refl refl refl at_origin (refusing, tt)
