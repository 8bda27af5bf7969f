-- ===== src/Proxy/Response/RoundTrip.antt =====
-- src/proxy.rs, `read_streaming_response`, on a response that is written as RFC 9112 says: a status line and
-- fields that CR LF parts, a blank line and the body.
use multi_proxy.Str.{lines}
use multi_proxy.Str.Utf8.{IsAscii, from_utf8_lossy, from_utf8_lossy-IsAscii}
use multi_proxy.Net.{Env, World, Stream}
use multi_proxy.Net.Gives.{Gives, Gives-imp}
use multi_proxy.Net.Pending.{pending}
use multi_proxy.Proxy.Http.{position}
use multi_proxy.Proxy.Message.{
  drop-separator, IsField, IsLine, field, joined, position-joined, lines-joined, fields-IsLine,
}
use multi_proxy.Proxy.Response.{
  ReaderBody, Response, streaming, separator, add_headers, status_of, read_streaming_response,
  tail_lines,
}
use multi_proxy.Proxy.Response.Body.{remaining}
use multi_proxy.Proxy.Response.Prompt.{Prompt}
use multi_proxy.Proxy.Response.Ready.{read_streaming_response-Gives, HasHead}
use multi_proxy.Proxy.Response.Relay.{Answers, head_lines, headers_of}
use multi_proxy.Proxy.Response.Written.{
  IsValid, add_headers-field, kept_fields, status_line, status_of-status_line, status_line-IsLine,
  status_line-ne-nil,
}
use multi_proxy.Base.{
  All, Bytes, List, Text, ap, length, map, max, some, take-length-append, ℕ, ◌*◌, ◌++◌, ◌+◌, ◌∙◌,
  ◌∷◌, ◌≡◌, ◌≤◌, [], drop, subst, sym,
}

abbrev pub write_head : ℕ → Text → List (Text × Text) → Bytes
write_head status reason hs = joined (status_line status reason) (map field hs)

abbrev pub write_response : ℕ → Text → List (Text × Text) → Bytes → Bytes
write_response status reason hs body = write_head status reason hs ++ (separator ++ body)

-- What can be written: a status of three digits, ASCII, and headers that the crate http takes.
pub record IsWritable (env : Env) (canon : Text → Text) (status : ℕ) (reason : Text)
    (hs : List (Text × Text)) : Type 0 where
  pub low : 100 ≤ status
  pub high : status ≤ 999
  pub reason_line : IsLine reason
  pub fields : All IsField hs
  pub valid : All (IsValid env canon) hs
  pub ascii : IsAscii (write_head status reason hs)

-- The response has this status, these headers and this body, on a stream on which this was written.
pub record Reads (status : ℕ) (hs : List (Text × Text)) (body sent : Bytes) (resp : Response)
    : Type 0 where
  pub same_status : resp.status ≡ status
  pub same_headers : resp.headers ≡ hs
  pub stream : ReaderBody
  pub streams : resp.body ≡ streaming stream
  pub same_body : remaining stream ≡ body
  pub same_sent : stream.reader.sent ≡ sent

module _ (env : Env) (canon : Text → Text) (status : ℕ) (reason : Text) (hs : List (Text × Text))
    (body : Bytes) (writable : IsWritable env canon status reason hs) where
  written_blank :
      position separator (write_response status reason hs body)
      ≡ some (length (write_head status reason hs))
  written_blank =
      position-joined (status_line status reason) (map field hs) body
        (status_line-IsLine status reason writable.reason_line) (fields-IsLine hs writable.fields)

  written_lines :
      head_lines (write_response status reason hs body) (length (write_head status reason hs))
      ≡ status_line status reason ∷ map field hs
  written_lines =
      ap (λ t. lines (from_utf8_lossy t))
        (take-length-append (write_head status reason hs) (separator ++ body))
      ∙ ap lines (from_utf8_lossy-IsAscii (write_head status reason hs) writable.ascii)
      ∙ lines-joined (status_line status reason) (map field hs) (status_line-ne-nil status reason)
          (status_line-IsLine status reason writable.reason_line) (fields-IsLine hs writable.fields)

  written_headers :
      headers_of env (write_response status reason hs body) (length (write_head status reason hs))
      ≡ some (kept_fields canon hs)
  written_headers =
      ap (λ ls. add_headers env (tail_lines env ls) (some [])) written_lines
      ∙ add_headers-field env canon hs [] writable.fields writable.valid

  written_Reads :
      (sent : Bytes) (resp : Response)
      → Answers env (write_response status reason hs body) sent resp
      → Reads status (kept_fields canon hs) body sent resp
  written_Reads sent resp a =
      let all = write_response status reason hs body in
      let found = a.found in
      let headers = a.headers in
      let blank = written_blank in
      let same : a.blank ≡ length (write_head status reason hs) = cc in
      let lines_same = ap (head_lines all) same ∙ written_lines in
      let headers_same = ap (headers_of env all) same ∙ written_headers in
      record {
        same_status =
            a.status
            ∙ ap status_of lines_same
            ∙ status_of-status_line status reason (map field hs) writable.low writable.high;
        same_headers = cc;
        stream = a.body;
        streams = a.streams;
        same_body =
            a.behind
            ∙ ap (λ k. drop (k + 4) all) same
            ∙ drop-separator (write_head status reason hs) body;
        same_sent = a.same_sent;
      }

  -- If an upstream sends a response that is written as RFC 9112 says (a status from 100 to 999; a reason
  -- without a line end; fields whose name is not empty and has no colon, and with no line end in name
  -- or value and no white space at their ends; ASCII; lines parted by CR LF), with headers that the
  -- crate http takes, and if the head has at most 65536 bytes and comes before the deadline, then the
  -- handler returns a response with that status, with those headers in order, under the names that the
  -- crate gives them and without the ones called `connection`, and with that body, to the byte; and writes
  -- nothing.
  pub read_streaming_response-write_response :
      (s : Stream) (limit : ℕ) (w : World)
      → pending s.inbox ≡ write_response status reason hs body
      → length (write_head status reason hs) + 4 ≤ 65536
      → Prompt (length (write_head status reason hs) + 4) (max (limit * 10) 30000) s.inbox
      → Gives ⊥
          (Reads status (kept_fields canon hs) body s.sent)
          (read_streaming_response env s limit w).0
  read_streaming_response-write_response s limit w sends small prompt =
      let all = write_response status reason hs body in
      let head : HasHead env all = record {
        blank = length (write_head status reason hs);
        headers = kept_fields canon hs;
        found = written_blank;
        valid = written_headers;
      } in
      let there : HasHead env (pending s.inbox) = subst (HasHead env) (sym sends) head in
      Gives-imp ⊥ (Answers env (pending s.inbox) s.sent)
        (Reads status (kept_fields canon hs) body s.sent) (read_streaming_response env s limit w).0
        (λ resp a. written_Reads s.sent resp (subst (λ t. Answers env t s.sent resp) sends a))
        (read_streaming_response-Gives env s limit w
          (record { head = there; small = small; prompt = prompt }))
