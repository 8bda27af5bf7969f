-- ===== src/Examples/Forwards.antt =====
-- Examples: an attempt on a stream, and the attempts one after the other.
use multi_proxy.Examples.Data.{http_network, manager, world, crlf_text, peer}
use multi_proxy.Examples.Handshakes.{origin}
use multi_proxy.Strategy.{order}
use multi_proxy.Net.{Stream, chunk, closed, Env}
use multi_proxy.Examples.Startup.{parse_url}
use multi_proxy.Manager.Laws.{dsns}
use multi_proxy.Examples.Requests.{get_request}
use multi_proxy.Proxy.Forward.Delivery.{Refused, Delivered, handle_path_forward-Delivered}
use multi_proxy.Net.Post.{Post}
use multi_proxy.Net.Pending.{pending}
use multi_proxy.Proxy.Forward.{forward_through, handle_path_forward}
use multi_proxy.Proxy.Forward.Relay.{Forwarded, forward_through-Forwarded}
use multi_proxy.Proxy.Response.{read_streaming_response}
use multi_proxy.Proxy.Response.Relay.{Answered, read_streaming_response-Answered}
use multi_proxy.Base.{[], text, true, ◌++◌, ◌⊎◌}

-- The head comes in two pieces, the second of them with the first bytes of the body.
abbrev answering : Stream
answering = peer (
    chunk 1 (text "HTTP/1.1 200 OK" ++ crlf_text) (
      chunk 1 (text "Server: x" ++ (crlf_text ++ (crlf_text ++ text "bo")))
        (chunk 1 (text "dy") closed)))

read_streaming_response-Answered_example :
    Answered http_network
      (pending answering.inbox)
      []
      (read_streaming_response http_network answering 3000 world).0
read_streaming_response-Answered_example =
    read_streaming_response-Answered http_network answering 3000 world

forward_through-Forwarded_example :
    Forwarded http_network true origin answering
      (text "GET / HTTP/1.1")
      (forward_through http_network answering origin true (text "GET / HTTP/1.1") 3000 world).0
forward_through-Forwarded_example =
    forward_through-Forwarded http_network answering origin true (text "GET / HTTP/1.1") 3000 world

-- A parser that reads every URL as `http://h:3128`.
abbrev reading : Env
reading = record http_network { parse_url = parse_url }

handle_path_forward-Delivered_example :
    Post
      (Unit {0})
      (λ resp. Refused get_request resp ⊎ Delivered reading (dsns manager) 3000 get_request resp)
      (handle_path_forward reading get_request order 3000 world).0
handle_path_forward-Delivered_example =
    handle_path_forward-Delivered reading 3000 get_request order world
