-- ===== src/Proxy/Http/RoundTrip.antt =====
-- src/proxy.rs, `establish_http`: the CONNECT request, as a proxy reads it by RFC 9112.
use multi_proxy.Str.{is_whitespace}
use multi_proxy.Str.Lines.{NoSpaces}
use multi_proxy.Str.Trimmed.{IsTrimmed-append, NoSpaces-IsTrimmed}
use multi_proxy.Str.Utf8.{IsAscii, as_bytes, as_bytes-IsAscii}
use multi_proxy.Dsn.{HttpDsn}
use multi_proxy.Proxy.Http.{connect_request, proxy_authorization, host_port}
use multi_proxy.Proxy.Message.{IsField, field, joined}
use multi_proxy.Proxy.Message.Reader.{request_line}
use multi_proxy.Proxy.Message.Framing.{read_request, read_request-joined, values, IsFramed}
use multi_proxy.Proxy.Response.{separator}
use multi_proxy.Str.Utf8.{as_bytes-ne-nil}
use multi_proxy.Proxy.Message.Fields.{host_port-NoSpaces, host_port-IsAscii, origin-IsField}
use multi_proxy.Str.Lines.{NoSpaces}
use multi_proxy.Str.{is_whitespace}
use multi_proxy.Str.Trimmed.{IsTrimmed-append, NoSpaces-IsTrimmed}
use multi_proxy.Proxy.Message.{IsLine-append, NoSpaces-IsLine, joined-All}
use multi_proxy.Proxy.Message.Fields.{host_port-ne-nil}
use multi_proxy.Str.Laws.{Lacks}
use multi_proxy.Proxy.Message.Authority.{read_authority, read_authority-host_port}
use multi_proxy.Str.{eq_ignore_ascii_case, to_ascii_lowercase}
use multi_proxy.Base.{
  inr, ◌≤◌, Bytes, List, Option, Text, [], map, none, some, text, ℕ, ◌++◌, ◌∷◌, ◌≡◌, ◌≢◌, All, ap,
  append_assoc, ◌∙◌, All-append, arith, refl, ◌<◌,
}

-- The credentials as RFC 7617 encodes them, if the DSN has both.
abbrev pub authorization : (Bytes → Text) → Option Text → Option Text → List (Text × Text)
authorization base64 (some user) (some pass) =
    (text "Proxy-Authorization", text "Basic " ++ base64 (as_bytes (user ++ b':' ∷ pass))) ∷ []
authorization base64 (some user) none = []
authorization base64 none pass = []

-- Base64 is ASCII without white space, and empty only for no bytes.
abbrev pub Base64Docs : (Bytes → Text) → Type 0
Base64Docs base64 =
    (bs : Bytes) → NoSpaces (base64 bs) × IsAscii (base64 bs) × (bs ≢ [] → base64 bs ≢ [])

credentials_full : (user pass : Text) → as_bytes (user ++ b':' ∷ pass) ≢ []
credentials_full [] pass = as_bytes-ne-nil b':' pass
credentials_full (c ∷ user) pass = as_bytes-ne-nil c (user ++ b':' ∷ pass)

basic-IsField :
    (token : Text)
    → NoSpaces token
    → token ≢ []
    → IsField (text "Proxy-Authorization", text "Basic " ++ token)
unfolding text is_whitespace
basic-IsField token spaces full = record {
  named = λ e. cc;
  name_line = record { no_return = omega arith; no_feed = omega arith };
  value_line =
      IsLine-append (text "Basic ") token
        (record { no_return = omega arith; no_feed = omega arith }) (NoSpaces-IsLine token spaces);
  no_colon = omega arith;
  name_trimmed = record { front = refl; back = refl };
  value_trimmed =
      IsTrimmed-append (text "Basic") (b' ' ∷ []) token (λ e. cc) full
        (record { front = refl; back = refl }) (NoSpaces-IsTrimmed token spaces);
}

module _ (base64 : Bytes → Text) (docs : Base64Docs base64) where
  authorization-IsField : (user pass : Option Text) → All IsField (authorization base64 user pass)
  authorization-IsField (some user) (some pass) =
      let (spaces, ascii, full) = docs (as_bytes (user ++ b':' ∷ pass)) in
      (
        basic-IsField (base64 (as_bytes (user ++ b':' ∷ pass))) spaces
            (full (credentials_full user pass)),
        tt,
      )
  authorization-IsField (some user) none = tt
  authorization-IsField none pass = tt

  authorization-IsAscii :
      (user pass : Option Text) → All IsAscii (map field (authorization base64 user pass))
  unfolding text
  authorization-IsAscii (some user) (some pass) =
      let token = base64 (as_bytes (user ++ b':' ∷ pass)) in
      (
        All-append (λ c. c < 0x80) (text "Proxy-Authorization: Basic ") token (omega arith)
            (docs (as_bytes (user ++ b':' ∷ pass))).1,
        tt,
      )
  authorization-IsAscii (some user) none = tt
  authorization-IsAscii none pass = tt

connect_request-joined :
    (base64 : Bytes → Text) (host : Text) (port : ℕ) (dsn : HttpDsn) (user pass : Option Text)
    → connect_request base64 host port (record dsn { user = user; pass = pass })
      ≡ joined
          (request_line (text "CONNECT") (host_port host port))
          (map field ((text "Host", host_port host port) ∷ authorization base64 user pass))
        ++ separator
unfolding connect_request proxy_authorization text
connect_request-joined base64 host port dsn (some user) (some pass) = simp append_assoc
connect_request-joined base64 host port dsn (some user) none = simp append_assoc
connect_request-joined base64 host port dsn none pass = simp append_assoc

said-IsFramed :
    (base64 : Bytes → Text) (address : Text) (user pass : Option Text)
    → IsFramed ((text "Host", address) ∷ authorization base64 user pass) []
unfolding values eq_ignore_ascii_case text to_ascii_lowercase
said-IsFramed base64 address (some user) (some pass) = record {
  host = address;
  one_host = refl;
  no_coding = refl;
  announced = inr (refl, refl);
}
said-IsFramed base64 address (some user) none = record {
  host = address;
  one_host = refl;
  no_coding = refl;
  announced = inr (refl, refl);
}
said-IsFramed base64 address none pass = record {
  host = address;
  one_host = refl;
  no_coding = refl;
  announced = inr (refl, refl);
}

module _ (base64 : Bytes → Text) (host : Text) (port : ℕ) (dsn : HttpDsn) (docs : Base64Docs base64)
    (spaces : NoSpaces host) (ascii : IsAscii host) where
  -- What the CONNECT request says.
  abbrev said : List (Text × Text)
  said = (text "Host", host_port host port) ∷ authorization base64 dsn.user dsn.pass

  request-IsAscii :
      IsAscii
        (joined (request_line (text "CONNECT") (host_port host port)) (map field said) ++ separator)
  unfolding text
  request-IsAscii =
      let Ascii = λ (c : ℕ). c < 0x80 in
      let address = host_port host port in
      let address_ascii = host_port-IsAscii host port ascii in
      All-append Ascii (joined (request_line (text "CONNECT") address) (map field said)) separator
        (joined-All Ascii (request_line (text "CONNECT") address) (map field said) (omega arith)
          (omega arith)
          (All-append Ascii (text "CONNECT ") (address ++ b' ' ∷ text "HTTP/1.1") (omega arith)
            (All-append Ascii address (b' ' ∷ text "HTTP/1.1") address_ascii (omega arith)))
          (
            All-append Ascii (text "Host: ") address (omega arith) address_ascii,
            authorization-IsAscii base64 docs dsn.user dsn.pass,
          ))
        (omega arith)

  -- If the host is ASCII without white space, bracket or colon (so no IPv6 address), the port fits into 16 bits, and base64 gives ASCII without white
  -- space too, empty only for no bytes, then a proxy that reads the CONNECT request by RFC 9112 gets the
  -- method CONNECT, the host and the port as target and under `Host`, and, exactly if the DSN has both user
  -- and password, these two under `Proxy-Authorization`; no other field, no content, and nothing behind
  -- it. It reads the host and the port back from the target.
  pub read_request-connect_request :
      Lacks b'[' host
      → Lacks b':' host
      → port ≤ 65535
      → (read_request (as_bytes (connect_request base64 host port dsn))
          ≡ some (
            record {
              method = text "CONNECT";
              target = host_port host port;
              fields = (text "Host", host_port host port) ∷ authorization base64 dsn.user dsn.pass;
              content = [];
            },
            [],
          ))
        × (read_authority (host_port host port) ≡ some (host, port))
  unfolding text is_whitespace
  read_request-connect_request unbracketed plain small =
      let head = joined (request_line (text "CONNECT") (host_port host port)) (map field said) in
      let address = read_authority-host_port host port unbracketed plain small in
      (
        ap (λ t. read_request (as_bytes t))
              (connect_request-joined base64 host port dsn dsn.user dsn.pass)
            ∙ ap read_request (as_bytes-IsAscii (head ++ separator) request-IsAscii)
            ∙ read_request-joined (text "CONNECT") (host_port host port) said []
                (record {
                  no_spaces = (refl, (refl, (refl, (refl, (refl, (refl, (refl, tt)))))));
                  full = λ e. cc;
                })
                (record {
                  no_spaces = host_port-NoSpaces host port spaces;
                  full = host_port-ne-nil host port;
                })
                (
                  origin-IsField (host_port host port) (host_port-NoSpaces host port spaces),
                  authorization-IsField base64 docs dsn.user dsn.pass,
                )
                (inr (refl, (host, port, address)))
                (said-IsFramed base64 (host_port host port) dsn.user dsn.pass),
        address,
      )
