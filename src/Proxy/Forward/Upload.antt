-- ===== src/Proxy/Forward/Upload.antt =====
-- src/proxy.rs, `handle_path_forward`: what becomes of an upload that the client sent in chunks, of which
-- hyper hands over the content.
use multi_proxy.Proxy.Forward.{request_head}
use multi_proxy.Proxy.Forward.Framed.{coding-fields_for}
use multi_proxy.Proxy.Forward.Printed.{fields_for}
use multi_proxy.Proxy.Forward.RoundTrip.{IsSendable, request_head-joined, fields_for-IsField}
use multi_proxy.Proxy.Message.{field, joined}
use multi_proxy.Proxy.Message.Chunked.{decode, decode-other}
use multi_proxy.Proxy.Message.Framing.{values}
use multi_proxy.Proxy.Message.Reader.{Received, read_head, read_head-joined, request_line}
use multi_proxy.Proxy.Response.{separator}
use multi_proxy.Base.{
  Bytes, List, Text, [], ap, append_assoc, map, some, text, ℕ, ◌++◌, ◌∙◌, ◌∷◌, ◌≡◌, ◌≢◌,
}

module _ (method path host : Text) (port : ℕ) (hs : List (Text × Text))
    (sendable : IsSendable method path host hs) where
  read_head-request_head :
      (body : Bytes)
      → read_head (request_head method path host port hs ++ body)
        ≡ some (record {
          method = method;
          target = path;
          fields = fields_for host port hs;
          content = body;
        })
  read_head-request_head body =
      let head = joined (request_line method path) (map field (fields_for host port hs)) in
      ap (λ t. read_head (t ++ body)) (request_head-joined method path host port hs sendable)
      ∙ ap read_head (append_assoc head separator body)
      ∙ read_head-joined method path (fields_for host port hs) body sendable.method_word
          sendable.path_word (fields_for-IsField host port hs sendable.host_spaces sendable.fields)

  -- If a request that can be written down came in the transfer coding `chunked`, then the request that is
  -- sent on still says so, but the bytes behind its head are the content itself: whatever the body,
  -- also an empty one, an origin that decodes them, up to any number of chunks, does not get it.
  pub request_head-chunked :
      (body : Bytes) (fuel : ℕ)
      → values (text "transfer-encoding") hs ≡ text "chunked" ∷ []
      → (r : Received) × (read_head (request_head method path host port hs ++ body) ≡ some r)
        × (values (text "transfer-encoding") r.fields ≡ text "chunked" ∷ [])
        × (decode fuel r.content ≢ some body)
  request_head-chunked body fuel coded = (
    record { method = method; target = path; fields = fields_for host port hs; content = body },
    read_head-request_head body,
    coding-fields_for host port hs ∙ coded,
    decode-other fuel body,
  )
