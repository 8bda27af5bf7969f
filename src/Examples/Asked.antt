-- ===== src/Examples/Asked.antt =====
-- Examples: requests as RFC 9112 reads them.
use multi_proxy.Str.{eq_ignore_ascii_case, text_eq, to_ascii_lowercase}
use multi_proxy.Str.Laws.{Lacks}
use multi_proxy.Proxy.Http.{host_port}
use multi_proxy.Proxy.Forward.{request_head}
use multi_proxy.Proxy.Message.Authority.{read_authority}
use multi_proxy.Proxy.Http.Literal.{connect_request-unread}
use multi_proxy.Proxy.Request.{parse_authority}
use multi_proxy.Proxy.Request.Authority.{write_bracketed}
use multi_proxy.Proxy.Forward.Upload.{request_head-chunked}
use multi_proxy.Proxy.Message.Chunked.{decode}
use multi_proxy.Proxy.Message.Reader.{Received, read_head}
use multi_proxy.Proxy.Message.Framing.{read_request, IsFramed, values}
use multi_proxy.Proxy.Forward.Printed.{fields_for}
use multi_proxy.Proxy.Forward.RoundTrip.{IsSendable, read_request-request_head}
use multi_proxy.Str.Decimal.{to_string}
use multi_proxy.Str.{is_whitespace}
use multi_proxy.Net.Gives.{Gives}
use multi_proxy.Proxy.Message.{IsField}
use multi_proxy.Str.Lines.{NoSpaces}
use multi_proxy.Str.Utf8.{IsAscii, as_bytes}
use multi_proxy.Examples.Data.{http_dsn}
use multi_proxy.Proxy.Http.{connect_request}
use multi_proxy.Proxy.Http.RoundTrip.{Base64Docs, read_request-connect_request}
use multi_proxy.Examples.Written.{close-IsField}
use multi_proxy.Base.{
  inl, List, Text, [], arith, refl, text, ◌∷◌, ℕ, some, ◌++◌, ◌≡◌, Bytes, map, ◌≢◌, ok,
}

abbrev request_fields : List (Text × Text)
request_fields =
    (text "HOST", text "proxy:8080")
    ∷ (text "Connection", text "close")
    ∷ (text "content-length", text "2")
    ∷ []

host-IsField : IsField (text "HOST", text "proxy:8080")
unfolding text is_whitespace
host-IsField = record {
  named = λ e. cc;
  name_line = record { no_return = omega arith; no_feed = omega arith };
  value_line = record { no_return = omega arith; no_feed = omega arith };
  no_colon = omega arith;
  name_trimmed = record { front = refl; back = refl };
  value_trimmed = record { front = refl; back = refl };
}

length-IsField : IsField (text "content-length", text "2")
unfolding text is_whitespace
length-IsField = record {
  named = λ e. cc;
  name_line = record { no_return = omega arith; no_feed = omega arith };
  value_line = record { no_return = omega arith; no_feed = omega arith };
  no_colon = omega arith;
  name_trimmed = record { front = refl; back = refl };
  value_trimmed = record { front = refl; back = refl };
}

framed : IsFramed request_fields (text "hi")
unfolding text values eq_ignore_ascii_case to_ascii_lowercase to_string
framed = record {
  host = text "proxy:8080";
  one_host = refl;
  no_coding = refl;
  announced = inl (refl, omega arith);
}

sendable : IsSendable (text "GET") (text "/b") (text "a") request_fields
unfolding text is_whitespace text_eq
sendable = record {
  method_word = record { no_spaces = (refl, (refl, (refl, tt))); full = λ e. cc };
  method_ascii = omega arith;
  path_word = record { no_spaces = (refl, (refl, tt)); full = λ e. cc };
  path_ascii = omega arith;
  host_spaces = (refl, tt);
  host_ascii = omega arith;
  fields = (host-IsField, (close-IsField, (length-IsField, tt)));
  no_connect = refl;
  rooted = (text "b", refl);
  names_ascii = omega arith;
}

read_request-request_head_example :
    read_request (request_head (text "GET") (text "/b") (text "a") 80 request_fields ++ text "hi")
    ≡ some (
      record {
        method = text "GET";
        target = text "/b";
        fields = fields_for (text "a") 80 request_fields;
        content = text "hi";
      },
      [],
    )
read_request-request_head_example =
    read_request-request_head (text "GET") (text "/b") (text "a") 80 request_fields sendable
      (text "hi") framed

-- The port is not left out, and the client's own connection is closed once.
fields_tested :
    fields_for (text "a") 80 request_fields
    ≡ (text "Host", text "a:80")
      ∷ (text "content-length", text "2")
      ∷ (text "Connection", text "close")
      ∷ []
unfolding eq_ignore_ascii_case text host_port to_string
fields_tested = refl

-- An encoding that meets what is documented of base64.
abbrev letters : Bytes → Text
letters bs = map (λ (b : ℕ). b'A') bs

letters-NoSpaces : (bs : Bytes) → NoSpaces (letters bs)
unfolding is_whitespace
letters-NoSpaces [] = tt
letters-NoSpaces (b ∷ bs) = (refl, letters-NoSpaces bs)

letters-IsAscii : (bs : Bytes) → IsAscii (letters bs)
letters-IsAscii [] = tt
letters-IsAscii (b ∷ bs) = (omega arith, letters-IsAscii bs)

letters_full : (bs : Bytes) → bs ≢ [] → letters bs ≢ []
letters_full [] full e = full refl
letters_full (b ∷ bs) full e = cc

letters-Base64Docs : Base64Docs letters
letters-Base64Docs bs = (letters-NoSpaces bs, letters-IsAscii bs, letters_full bs)

a-NoSpaces : NoSpaces (text "a")
unfolding text is_whitespace
a-NoSpaces = (refl, tt)

a-IsAscii : IsAscii (text "a")
unfolding text
a-IsAscii = omega arith

a-unbracketed : Lacks b'[' (text "a")
unfolding text
a-unbracketed = omega arith

a-plain : Lacks b':' (text "a")
unfolding text
a-plain = omega arith

read_request-connect_request_example :
    (read_request (as_bytes (connect_request letters (text "a") 443 http_dsn))
      ≡ some (
        record {
          method = text "CONNECT";
          target = host_port (text "a") 443;
          fields =
              (text "Host", host_port (text "a") 443)
              ∷ (text "Proxy-Authorization", text "Basic " ++ letters (as_bytes (text "ann:pw")))
              ∷ [];
          content = [];
        },
        [],
      ))
    × (read_authority (host_port (text "a") 443) ≡ some (text "a", 443))
unfolding text
read_request-connect_request_example =
    read_request-connect_request letters (text "a") 443 http_dsn letters-Base64Docs a-NoSpaces
      a-IsAscii a-unbracketed a-plain (omega arith)

decode_tested :
    decode 2 (text "2" ++ 13 ∷ 10 ∷ (text "hi" ++ 13 ∷ 10 ∷ (text "0" ++ 13 ∷ 10 ∷ 13 ∷ 10 ∷ [])))
    ≡ some (text "hi")
unfolding decode text
decode_tested = refl

abbrev upload_fields : List (Text × Text)
upload_fields = (text "HOST", text "proxy:8080") ∷ (text "transfer-encoding", text "chunked") ∷ []

chunked-IsField : IsField (text "transfer-encoding", text "chunked")
unfolding text is_whitespace
chunked-IsField = record {
  named = λ e. cc;
  name_line = record { no_return = omega arith; no_feed = omega arith };
  value_line = record { no_return = omega arith; no_feed = omega arith };
  no_colon = omega arith;
  name_trimmed = record { front = refl; back = refl };
  value_trimmed = record { front = refl; back = refl };
}

upload : IsSendable (text "PUT") (text "/b") (text "a") upload_fields
unfolding text is_whitespace text_eq
upload = record {
  method_word = record { no_spaces = (refl, (refl, (refl, tt))); full = λ e. cc };
  method_ascii = omega arith;
  path_word = record { no_spaces = (refl, (refl, tt)); full = λ e. cc };
  path_ascii = omega arith;
  host_spaces = (refl, tt);
  host_ascii = omega arith;
  fields = (host-IsField, (chunked-IsField, tt));
  no_connect = refl;
  rooted = (text "b", refl);
  names_ascii = omega arith;
}

coded : values (text "transfer-encoding") upload_fields ≡ text "chunked" ∷ []
unfolding text values eq_ignore_ascii_case to_ascii_lowercase
coded = refl

request_head-chunked_example :
    (r : Received) × (read_head
        (request_head (text "PUT") (text "/b") (text "a") 80 upload_fields ++ text "hi")
      ≡ some r)
    × (values (text "transfer-encoding") r.fields ≡ text "chunked" ∷ [])
    × (decode 8 r.content ≢ some (text "hi"))
request_head-chunked_example =
    request_head-chunked (text "PUT") (text "/b") (text "a") 80 upload_fields upload (text "hi") 8
      coded

closing : Lacks b']' (text "::1")
unfolding text
closing = omega arith

connect_request-unread_example :
    (parse_authority (write_bracketed (text "::1") 443) ≡ ok (text "::1", 443))
    × (read_authority (write_bracketed (text "::1") 443) ≡ some (text "::1", 443))
    × ((rest : Text) × (connect_request letters (text "::1") 443 http_dsn
          ≡ text "CONNECT " ++ (host_port (text "::1") 443 ++ (text " HTTP/1.1" ++ rest))))
    × (read_authority (host_port (text "::1") 443) ≢ some (text "::1", 443))
unfolding text
connect_request-unread_example =
    connect_request-unread letters http_dsn [] (text ":1") 443 tt tt closing (omega arith)
