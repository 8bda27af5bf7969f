-- ===== src/Proxy/Forward/Wire.antt =====
-- src/proxy.rs, `forward_through`: one exchange on the wire, both ways.
use multi_proxy.Net.{Env, Stream}
use multi_proxy.Net.Gives.{Gives}
use multi_proxy.Net.Pending.{pending}
use multi_proxy.Proxy.Message.Framing.{read_request}
use multi_proxy.Proxy.Response.{ReaderBody, Response, streaming}
use multi_proxy.Proxy.Response.Body.{remaining}
use multi_proxy.Proxy.Response.Prompt.{Prompt}
use multi_proxy.Proxy.Response.Written.{kept_fields}
use multi_proxy.Proxy.Response.RoundTrip.{write_head, write_response}
use multi_proxy.Proxy.Forward.Printed.{fields_for}
use multi_proxy.Base.{Bytes, List, Text, [], length, max, none, some, ℕ, ◌*◌, ◌+◌, ◌≡◌, ◌≤◌}

-- A fresh stream that takes what is written and brings this response, its head in time.
pub record Brings (limit status : ℕ) (reason : Text) (hs : List (Text × Text)) (answer : Bytes)
    (s : Stream) : Type 0 where
  pub unbroken : s.write_fault ≡ none
  pub fresh : s.sent ≡ []
  pub sends : pending s.inbox ≡ write_response status reason hs answer
  pub small : length (write_head status reason hs) + 4 ≤ 65536
  pub prompt : Prompt (length (write_head status reason hs) + 4) (max (limit * 10) 30000) s.inbox

-- What both sides get: the origin, which reads by RFC 9112, the request and nothing behind it, and the
-- client the answer.
pub record Exchanged (method path host : Text) (port : ℕ) (sent : List (Text × Text)) (body : Bytes)
    (status : ℕ) (hs : List (Text × Text)) (answer : Bytes) (resp : Response) : Type 0 where
  pub stream : ReaderBody
  pub streams : resp.body ≡ streaming stream
  pub asked :
      read_request stream.reader.sent
      ≡ some (
        record {
          method = method;
          target = path;
          fields = fields_for host port sent;
          content = body;
        },
        [],
      )
  pub same_status : resp.status ≡ status
  pub same_headers : resp.headers ≡ hs
  pub answered : remaining stream ≡ answer

module _ (env : Env) (limit : ℕ) (canon : Text → Text) (method path host : Text) (port : ℕ)
    (sent : List (Text × Text)) (body : Bytes) (status : ℕ) (reason : Text)
    (hs : List (Text × Text)) (answer : Bytes) where
  abbrev Done : Response → Type 0
  Done = Exchanged method path host port sent body status (kept_fields canon hs) answer
