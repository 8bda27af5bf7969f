-- ===== src/Examples/Requests.antt =====
-- Examples: requests, their targets and headers, and the responses.
use multi_proxy.Examples.Data.{http_network, manager, world}
use multi_proxy.Examples.Handshakes.{origin, reachable, all_settle}
use multi_proxy.Manager.Laws.{IsValid, dsns}
use multi_proxy.Strategy.{order}
use multi_proxy.Str.{text_eq, starts_with}
use multi_proxy.Str.Laws.{Lacks}
use multi_proxy.Net.{reply}
use multi_proxy.Proxy.Request.{parse_authority}
use multi_proxy.Proxy.Request.Authority.{
  Accepted, write_plain, write_bracketed, parse_authority-write_plain,
  parse_authority-write_bracketed, parse_authority_sound,
}
use multi_proxy.Proxy.Response.{add_headers}
use multi_proxy.Proxy.Response.Headers.{AllPassed, NameDocs, add_headers-Passed}
use multi_proxy.Proxy.Forward.{Request, handle_path_forward}
use multi_proxy.Proxy.Forward.Sent.{handle_path_forward-query}
use multi_proxy.Proxy.Server.{handle_request}
use multi_proxy.Proxy.Server.Dispatch.{handle_request-IsValid}
use multi_proxy.Proxy.Server.Connect.{IsTunnel, handle_request-IsTunnel}
use multi_proxy.Base.{
  List, [], arith, false, none, ok, refl, some, text, true, ℕ, ◌∷◌, ◌≡◌, ◌≢◌, ◌≤◌,
}

no_bracket : starts_with (text "a::b") (b'[' ∷ []) ≡ false
unfolding starts_with text
no_bracket = refl

nonempty : text "a::b" ≢ []
unfolding text
nonempty e = cc

parse_authority-write_plain_example :
    parse_authority (write_plain (text "a::b") 443) ≡ ok (text "a::b", 443)
parse_authority-write_plain_example =
    parse_authority-write_plain (text "a::b") 443 nonempty no_bracket (omega arith)

lacks : Lacks b']' (text "::1")
unfolding text
lacks = (λ e. omega arith, (λ e. omega arith, (λ e. omega arith, tt)))

parse_authority-write_bracketed_example :
    parse_authority (write_bracketed (text "::1") 443) ≡ ok (text "::1", 443)
parse_authority-write_bracketed_example =
    parse_authority-write_bracketed (text "::1") 443 lacks (omega arith)

authority_parsed : parse_authority (write_plain (text "a::b") 443) ≡ ok (text "a::b", 443)
authority_parsed = parse_authority-write_plain (text "a::b") 443 nonempty no_bracket (omega arith)

parse_authority_sound_example : Accepted (write_plain (text "a::b") 443) (text "a::b") 443
parse_authority_sound_example =
    parse_authority_sound (write_plain (text "a::b") 443) (text "a::b") 443 authority_parsed

docs : NameDocs http_network
docs name n e other = cc

add_headers-Passed_example :
    AllPassed
      (add_headers http_network (text "Connection: close" ∷ text "Server: x" ∷ []) (some []))
add_headers-Passed_example =
    add_headers-Passed http_network (text "Connection: close" ∷ text "Server: x" ∷ []) (some [])
      docs tt

abbrev pub accept : List ℕ × List ℕ
accept = (text "Accept", text "*/*")

abbrev pub get_request : Request
get_request = record {
  method = text "GET";
  path = text "/https://a/b";
  query = some (text "q=1");
  authority = none;
  headers = accept ∷ [];
  body = reply 0 (ok []);
}

handle_path_forward-query_example :
    handle_path_forward http_network (record get_request { query = none }) order 3000
    ≡ handle_path_forward http_network get_request order 3000
handle_path_forward-query_example =
    handle_path_forward-query http_network get_request none order 3000

manager-IsValid : IsValid manager
manager-IsValid = record {
  indexed = (refl, (refl, tt));
  sound = ((omega arith, omega arith, λ e. cc), ((refl, refl, refl), tt));
}

handle_request-IsValid_example :
    IsValid (handle_request http_network get_request order 3000 world).1.manager
    × (dsns (handle_request http_network get_request order 3000 world).1.manager ≡ dsns manager)
    × ((handle_request http_network get_request order 3000 world).1.manager.config ≡ manager.config)
    × (12000 ≤ (handle_request http_network get_request order 3000 world).1.now)
handle_request-IsValid_example =
    handle_request-IsValid http_network get_request order 3000 world manager-IsValid

abbrev connect_request : Request
connect_request = record get_request {
  method = text "CONNECT";
  path = [];
  query = none;
  authority = some (write_plain origin 443);
}

connect_health : text_eq [] (text "/health") ≡ false
unfolding text_eq text
connect_health = refl

connect_method : text_eq (text "CONNECT") (text "CONNECT") ≡ true
unfolding text_eq text
connect_method = refl

origin_nonempty : origin ≢ []
unfolding text
origin_nonempty e = cc

origin_no_bracket : starts_with origin (b'[' ∷ []) ≡ false
unfolding starts_with text
origin_no_bracket = refl

handle_request-IsTunnel_example :
    IsTunnel http_network
      (dsns manager)
      origin
      443
      3000
      (handle_request http_network connect_request order 3000 world).0
handle_request-IsTunnel_example =
    handle_request-IsTunnel http_network connect_request (write_plain origin 443) origin 443 order
      3000 world connect_health connect_method refl
      (parse_authority-write_plain origin 443 origin_nonempty origin_no_bracket (omega arith))
      reachable all_settle
