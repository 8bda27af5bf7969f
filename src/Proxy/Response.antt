-- ===== src/Proxy/Response.antt =====
-- src/proxy.rs: response bodies (`full_body`, `ReaderBody`), `error_response` and
-- `read_streaming_response`. The crate http decides which header names and values are valid.
pub mod Body
pub mod Collect
pub mod Headers
pub mod Relay
pub mod Prompt
pub mod Ready
pub mod Written
pub mod RoundTrip
pub mod Shared
use multi_proxy.Str.{is_empty, lines, trim, split_whitespace, find, eq_ignore_ascii_case}
use multi_proxy.Str.Decimal.{parse_uint, max_u16}
use multi_proxy.Str.Utf8.{as_bytes, from_utf8_lossy}
use multi_proxy.Proxy.Http.{crlf, position, is_some, nth}
use multi_proxy.Net.{
  Env, World, Stream, Inbox, closed, Outcome, hang, fail, done, M, pure, throw, crash, next, get,
  elapse, Arrival, bytes, eof, error, never, arrive, put_back, read, ◌>>=◌, ◌>>◌,
}
use multi_proxy.Base.{
  Bool, Bytes, List, Option, Text, [], drop, err, if◌then◌else◌, leb, length, ltb, max, none, ok,
  some, suc, take, text, zero, ℕ, ◌&&◌, ◌*◌, ◌++◌, ◌+◌, ◌-◌, ◌∷◌,
}

-- A body that streams from upstream, with the bytes that were read along with the headers.
pub record ReaderBody : Type 0 where
  pub reader : Stream
  pub leading : Option Bytes

pub data RespBody : Type 0 where
  full : Bytes → RespBody
  streaming : ReaderBody → RespBody

-- `tunnel` is the stream that a CONNECT handler gives to the task that copies both ways.
pub record Response : Type 0 where
  pub status : ℕ
  pub headers : List (Text × Text)
  pub body : RespBody
  pub tunnel : Option Stream

-- `ReaderBody::new`
unfoldable pub new : Bytes → Stream → ReaderBody
unfolding is_empty
new leading reader = record {
  reader = reader;
  leading = if is_empty leading then none else some leading;
}

unfoldable pub error_response : ℕ → Text → Response
error_response status message = record {
  status = status;
  headers = (text "Content-Type", text "text/plain") ∷ [];
  body = full (as_bytes message);
  tunnel = none;
}

abbrev pub separator : Bytes
separator = 13 ∷ 10 ∷ 13 ∷ 10 ∷ []

-- The number in the second word of the status line, or 200; and 200 for one that is no status.
code_of : Option Text → ℕ
code_of none = 200
code_of (some word) = elim (parse_uint max_u16 word) [ ok code ↦ code | err _ ↦ 200 ]

second_word : List Text → Option Text
unfolding nth
second_word [] = none
second_word (line ∷ rest) = nth 1 (split_whitespace line)

unfoldable pub status_of : List Text → ℕ
unfolding code_of second_word
status_of ls =
    let code = code_of (second_word ls) in if leb 100 code && leb code 999 then code else 200

-- What one line adds to the headers of a builder, which an invalid header breaks for good (`none`).
unfoldable pub push_header :
    (Text → Option Text)
    → (Text → Bool)
    → Text
    → Text
    → Option (List (Text × Text))
    → Option (List (Text × Text))
push_header valid_name valid_value name value none = none
push_header valid_name valid_value name value (some hs) = elim (valid_name name) [
  | none ↦ none
  | some n ↦ if valid_value value then some (hs ++ (n, value) ∷ []) else none
]

abbrev pub Builder : Type 0
Builder = Option (List (Text × Text))

-- The line's name and value; `none` for a line that the loop passes over.
split_header : Text → Option ℕ → Option (Text × Text)
split_header line none = none
split_header line (some col) =
    let name = trim (take col line) in
    if eq_ignore_ascii_case name (text "connection")
    then none
    else some (name, trim (drop (col + 1) line))

unfoldable pub header_of : Text → Option (Text × Text)
unfolding split_header is_empty
header_of line =
    if is_empty (trim line) then none else split_header (trim line) (find (trim line) b':')

module _ (env : Env) where
  add_header : Option (Text × Text) → Builder → Builder
  unfolding push_header
  add_header none builder = builder
  add_header (some (name, value)) builder =
      push_header env.header_name env.header_value name value builder

  -- The loop over the lines behind the status line.
  unfoldable pub add_headers : List Text → Builder → Builder
  unfolding add_header
  add_headers [] builder = builder
  add_headers (line ∷ ls) builder = add_headers ls (add_header (header_of line) builder)

  -- `timeout(remaining, upstream.read(&mut chunk)).await`
  arrived : ℕ → Stream → Arrival → M (Bytes × Stream)
  unfolding put_back
  arrived remaining s (bytes d bs rest) w =
      if leb d remaining
      then (done (take 4096 bs, record s { inbox = put_back (drop 4096 bs) rest }), elapse env d w)
      else (fail (text "response header timeout"), elapse env remaining w)
  arrived remaining s (eof d) w =
      if leb d remaining
      then (done ([], record s { inbox = closed }), elapse env d w)
      else (fail (text "response header timeout"), elapse env remaining w)
  arrived remaining s (error d e) w =
      if leb d remaining
      then (fail (text "read headers: " ++ e), elapse env d w)
      else (fail (text "response header timeout"), elapse env remaining w)
  arrived remaining s never w = (fail (text "response header timeout"), elapse env remaining w)

  -- One round of the loop that reads up to the end of the headers, with the rounds after it.
  header_round : (Bytes → Stream → M (Bytes × Stream)) → Bytes → Bytes × Stream → M (Bytes × Stream)
  header_round rest buf (chunk, upstream) =
      if is_empty chunk
      then pure (buf, upstream)
      else if is_some (position separator (buf ++ chunk))
      then pure (buf ++ chunk, upstream)
      else if ltb 65536 (length (buf ++ chunk))
      then throw (text "response headers too large")
      else rest (buf ++ chunk) upstream

  -- Each round but the last adds a byte and leaves at most 65536, so 65537 rounds are enough.
  unfoldable pub read_head : ℕ → ℕ → Bytes → Stream → M (Bytes × Stream)
  unfolding header_round arrived arrive
  read_head deadline zero buf upstream w = (hang, w)
  read_head deadline (suc fuel) buf upstream w =
      next (arrived (deadline - w.now) upstream (arrive 0 upstream.inbox) w)
        (header_round (read_head deadline fuel) buf)

  build : Builder → ℕ → ReaderBody → M Response
  build none status body = crash
  build (some headers) status body =
      pure (record { status = status; headers = headers; body = streaming body; tunnel = none })

  abbrev pub tail_lines : List Text → List Text
  tail_lines [] = []
  tail_lines (line ∷ ls) = ls

  respond : Bytes → Bytes → Stream → M Response
  unfolding build status_of add_headers new
  respond headers leading upstream =
      let ls = lines (from_utf8_lossy headers) in
      build (add_headers (tail_lines ls) (some [])) (status_of ls) (new leading upstream)

  sep_index : Bytes → Option ℕ → ℕ
  sep_index buf none = length buf
  sep_index buf (some i) = i

  -- The slice behind the separator panics if its start lies past the end.
  unfoldable pub parse_response : Bytes → Stream → M Response
  unfolding respond sep_index
  parse_response buf upstream =
      let sep_idx = sep_index buf (position separator buf) in
      if ltb (length buf) (sep_idx + 4)
      then crash
      else respond (take sep_idx buf) (drop (sep_idx + 4) buf) upstream

  unfoldable pub read_streaming_response : Stream → ℕ → M Response
  read_streaming_response upstream limit = do
    w ← get
    (buf, upstream) ← read_head (w.now + max (limit * 10) 30000) 65537 [] upstream
    parse_response buf upstream

  -- `poll_frame`, awaited: the leading bytes first, then what each read gives.
  after_read : ReaderBody → Bytes × Stream → M (Option Bytes × ReaderBody)
  unfolding is_empty
  after_read b (bs, s) = pure (if is_empty bs then none else some bs, record b { reader = s })

  unfoldable pub poll_frame : ReaderBody → M (Option Bytes × ReaderBody)
  unfolding after_read
  poll_frame b = elim b.leading [
    | some l ↦ pure (some l, record b { leading = none })
    | none ↦ read env 16384 b.reader >>= after_read b
  ]
