-- ===== src/Proxy/Forward/RoundTrip.antt =====
-- src/proxy.rs, `handle_path_forward`: the request that is sent on, as an origin reads it by RFC 9112.
use multi_proxy.Str.{eq_ignore_ascii_case, text_eq}
use multi_proxy.Proxy.Message.{field, joined}
use multi_proxy.Proxy.Forward.{header_lines}
use multi_proxy.Str.Utf8.{IsAscii, as_bytes, as_bytes-IsAscii}
use multi_proxy.Proxy.Http.{crlf}
use multi_proxy.Proxy.Response.{separator}
use multi_proxy.Str.{is_whitespace}
use multi_proxy.Str.Lines.{NoSpaces}
use multi_proxy.Proxy.Message.{IsField}
use multi_proxy.Proxy.Forward.{request_head}
use multi_proxy.Proxy.Message.Reader.{IsWord, request_line}
use multi_proxy.Proxy.Message.Framing.{read_request, IsFramed, read_request-joined}
use multi_proxy.Proxy.Forward.Framed.{fields_for-IsFramed}
use multi_proxy.Proxy.Message.Fields.{host_port-NoSpaces, pair-IsField, origin-IsField}
use multi_proxy.Base.{
  Bytes, List, Text, [], text, ℕ, ◌∷◌, All, arith, map, refl, ◌++◌, ◌==◌, ◌≡◌, Bool-cases, ap, inl,
  inl, inr, ◌∙◌, All-append, append_assoc, sym, ◌<◌, some, All-map, false,
}
use multi_proxy.Proxy.Forward.Printed.{
  is_hop, end_to_end, host_value, name_host, fields_for, ending, header_lines-joined,
}

end_to_end-All :
    (P : Text × Text → Type 0) (hs : List (Text × Text)) → All P hs → All P (end_to_end hs)
end_to_end-All P [] h = tt
end_to_end-All P ((name, value) ∷ hs) h = elim (Bool-cases (is_hop name)) [
  | inl hop ↦ rw hop (end_to_end-All P hs h.1)
  | inr stays ↦ rw stays (h.0, end_to_end-All P hs h.1)
]

host_value-NoSpaces : (host : Text) (port : ℕ) → NoSpaces host → NoSpaces (host_value host port)
host_value-NoSpaces host port h = elim (Bool-cases (port == 443)) [
  | inl e ↦ rw e h
  | inr e ↦ rw e (host_port-NoSpaces host port h)
]

connection-IsField : IsField (text "Connection", text "close")
unfolding text is_whitespace
connection-IsField =
    pair-IsField (text "Connection") (text "close")
      (record {
        no_spaces =
            (refl, (refl, (refl, (refl, (refl, (refl, (refl, (refl, (refl, (refl, tt))))))))));
        full = λ e. cc;
      })
      (omega arith) (refl, (refl, (refl, (refl, (refl, tt)))))

name_host-IsField :
    (host : Text) (port : ℕ) (h : Text × Text)
    → NoSpaces host
    → IsField h
    → IsField (name_host host port h)
name_host-IsField host port (name, value) word f =
    elim (Bool-cases (eq_ignore_ascii_case name (text "host"))) [
      | inl e ↦ rw e (origin-IsField (host_value host port) (host_value-NoSpaces host port word))
      | inr e ↦ rw e f
    ]

pub fields_for-IsField :
    (host : Text) (port : ℕ) (hs : List (Text × Text))
    → NoSpaces host
    → All IsField hs
    → All IsField (fields_for host port hs)
fields_for-IsField host port hs word h =
    All-append IsField (map (name_host host port) (end_to_end hs))
      ((text "Connection", text "close") ∷ [])
      (All-map IsField IsField (name_host host port) (end_to_end hs)
        (λ f valid. name_host-IsField host port f word valid) (end_to_end-All IsField hs h))
      (connection-IsField, tt)

-- The parts of a request other than a CONNECT that can be written down as they are.
pub record IsSendable (method path host : Text) (hs : List (Text × Text)) : Type 0 where
  pub method_word : IsWord method
  pub method_ascii : IsAscii method
  pub path_word : IsWord path
  pub path_ascii : IsAscii path
  pub host_spaces : NoSpaces host
  pub host_ascii : IsAscii host
  pub fields : All IsField hs
  pub no_connect : text_eq method (text "CONNECT") ≡ false
  pub rooted : (rest : Text) × (path ≡ b'/' ∷ rest)
  pub names_ascii : All (λ h. IsAscii h.0) hs

module _ (method path host : Text) (port : ℕ) (hs : List (Text × Text))
    (sendable : IsSendable method path host hs) where
  start_bytes :
      as_bytes (method ++ b' ' ∷ (path ++ (text " HTTP/1.1" ++ crlf)))
      ≡ request_line method path ++ crlf
  unfolding text
  start_bytes =
      let version = b' ' ∷ text "HTTP/1.1" in
      let Ascii = λ (c : ℕ). c < 0x80 in
      as_bytes-IsAscii (method ++ b' ' ∷ (path ++ (text " HTTP/1.1" ++ crlf))) (
        All-append Ascii method (b' ' ∷ (path ++ (text " HTTP/1.1" ++ crlf))) sendable.method_ascii
          (
            omega arith,
            All-append Ascii path (text " HTTP/1.1" ++ crlf) sendable.path_ascii (omega arith),
          ))
      ∙ sym (
          append_assoc method (b' ' ∷ (path ++ version)) crlf
          ∙ ap (λ t. method ++ b' ' ∷ t) (append_assoc path version crlf))

  pub request_head-joined :
      request_head method path host port hs
      ≡ joined (request_line method path) (map field (fields_for host port hs)) ++ separator
  unfolding request_head
  request_head-joined =
      ap (λ t. t ++ (header_lines host port hs ++ ending)) start_bytes
      ∙ append_assoc (request_line method path) crlf (header_lines host port hs ++ ending)
      ∙ header_lines-joined host port (request_line method path) hs sendable.names_ascii
          sendable.host_ascii

  -- If the method is a word other than CONNECT, the path is a word that begins with `/`, method, path and
  -- host are ASCII without white space, each header is a field (its name, in ASCII, is not empty and has no
  -- colon; name and value have no line end and no white space at their ends), and the client sent one
  -- `Host`, no `Transfer-Encoding`, and the length of the body as its one `Content-Length` (or none, for
  -- an empty body), then a server that reads what is sent on by RFC 9112 gets the client's method, the
  -- path that was asked for, and of the client's headers, in order, all but those called `connection`,
  -- `keep-alive` or `proxy-connection` in any case, with the origin's own address under `Host`; then
  -- `Connection: close`; and as content the body, to the byte, with nothing left behind it.
  pub read_request-request_head :
      (body : Bytes)
      → IsFramed hs body
      → read_request (request_head method path host port hs ++ body)
        ≡ some (
          record {
            method = method;
            target = path;
            fields = fields_for host port hs;
            content = body;
          },
          [],
        )
  read_request-request_head body framed =
      let head = joined (request_line method path) (map field (fields_for host port hs)) in
      ap (λ t. read_request (t ++ body)) request_head-joined
      ∙ ap read_request (append_assoc head separator body)
      ∙ read_request-joined method path (fields_for host port hs) body sendable.method_word
          sendable.path_word (fields_for-IsField host port hs sendable.host_spaces sendable.fields)
          (inl (sendable.no_connect, sendable.rooted))
          (fields_for-IsFramed host port hs body framed)
