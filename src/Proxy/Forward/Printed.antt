-- ===== src/Proxy/Forward/Printed.antt =====
-- src/proxy.rs, `handle_path_forward`: the header lines that are sent on, as a list of fields.
use multi_proxy.Str.{eq_ignore_ascii_case, to_ascii_lowercase}
use multi_proxy.Proxy.Message.{field, joined}
use multi_proxy.Proxy.Forward.{header_line, header_lines}
use multi_proxy.Str.Utf8.{IsAscii, as_bytes, as_bytes-IsAscii}
use multi_proxy.Proxy.Http.{host_port, crlf}
use multi_proxy.Proxy.Response.{separator}
use multi_proxy.Proxy.Message.Fields.{host_port-IsAscii}
use multi_proxy.Base.{
  Bytes, List, Text, [], if◌then◌else◌, text, ℕ, ◌∷◌, All, Bool, arith, false, map, refl, true,
  ◌++◌, ◌==◌, ◌||◌, ◌≡◌, ◌≢◌, Bool-cases, ap, inl, inr, ◌∙◌, append_assoc, sym,
}

-- A header that concerns only the connection to the proxy.
abbrev pub is_hop : Text → Bool
is_hop name =
    eq_ignore_ascii_case name (text "connection")
    || (eq_ignore_ascii_case name (text "keep-alive")
        || eq_ignore_ascii_case name (text "proxy-connection"))

abbrev pub end_to_end : List (Text × Text) → List (Text × Text)
end_to_end [] = []
end_to_end ((name, value) ∷ hs) =
    let rest = end_to_end hs in if is_hop name then rest else (name, value) ∷ rest

-- The port is left out where it is that of https.
abbrev pub host_value : Text → ℕ → Text
host_value host port = if port == 443 then host else host_port host port

abbrev pub name_host : Text → ℕ → Text × Text → Text × Text
name_host host port (name, value) =
    if eq_ignore_ascii_case name (text "host")
    then (text "Host", host_value host port)
    else (name, value)

-- The fields that the origin gets: those of the client without the ones that concern its connection,
-- each `Host` naming the origin, and `Connection: close`.
abbrev pub fields_for : Text → ℕ → List (Text × Text) → List (Text × Text)
fields_for host port hs =
    map (name_host host port) (end_to_end hs) ++ (text "Connection", text "close") ∷ []

differ :
    (name s t : Text) (c d : ℕ)
    → eq_ignore_ascii_case name (c ∷ s) ≡ true
    → to_ascii_lowercase c ≢ to_ascii_lowercase d
    → eq_ignore_ascii_case name (d ∷ t) ≡ false
unfolding eq_ignore_ascii_case
differ [] s t c d e h = refl
differ (x ∷ name) s t c d e h = ground arith

-- A `Host` field is no hop field.
host_stays : (name : Text) → eq_ignore_ascii_case name (text "host") ≡ true → is_hop name ≡ false
unfolding text to_ascii_lowercase
host_stays name e =
    let connection = differ name (text "ost") (text "onnection") b'h' b'c' e (omega arith) in
    let keep = differ name (text "ost") (text "eep-alive") b'h' b'k' e (omega arith) in
    let proxy = differ name (text "ost") (text "roxy-connection") b'h' b'p' e (omega arith) in
    rw (connection, keep, proxy) refl

abbrev pub ending : Bytes
ending = text "Connection: close" ++ (crlf ++ crlf)

ending_lem : crlf ++ ending ≡ (crlf ++ field (text "Connection", text "close")) ++ separator
unfolding text
ending_lem = refl

host_field : (value : Text) → text "Host: " ++ (value ++ crlf) ≡ field (text "Host", value) ++ crlf
unfolding text
host_field value = refl

plain_field :
    (name value : Text) → name ++ (text ": " ++ (value ++ crlf)) ≡ field (name, value) ++ crlf
plain_field name value =
    ap (λ t. name ++ t) (sym (append_assoc (text ": ") value crlf))
    ∙ sym (append_assoc name (text ": " ++ value) crlf)

module _ (host : Text) (port : ℕ) where
  host_bytes :
      IsAscii host
      → (if port == 443 then as_bytes host else as_bytes (host_port host port))
        ≡ host_value host port
  host_bytes h =
      rw
        (
          as_bytes-IsAscii host h,
          as_bytes-IsAscii (host_port host port) (host_port-IsAscii host port h),
        )
        refl

  header_line-field :
      (name value : Text)
      → IsAscii name
      → IsAscii host
      → is_hop name ≡ false
      → header_line host port name value ≡ field (name_host host port (name, value)) ++ crlf
  unfolding header_line
  header_line-field name value ascii ascii' e =
      elim (Bool-cases (eq_ignore_ascii_case name (text "host"))) [
        | inl h ↦ rw h (rw (host_bytes ascii') (host_field (host_value host port)))
        | inr h ↦ rw (h, e) (rw (as_bytes-IsAscii name ascii) (plain_field name value))
      ]

  header_line-hop : (name value : Text) → is_hop name ≡ true → header_line host port name value ≡ []
  unfolding header_line
  header_line-hop name value e = elim (Bool-cases (eq_ignore_ascii_case name (text "host"))) [
    | inl h ↦ let stays = host_stays name h in cc
    | inr h ↦ rw (h, e) refl
  ]

  pub header_lines-joined :
      (l : Text) (hs : List (Text × Text))
      → All (λ h. IsAscii h.0) hs
      → IsAscii host
      → l ++ (crlf ++ (header_lines host port hs ++ ending))
        ≡ joined l (map field (fields_for host port hs)) ++ separator
  unfolding header_lines
  header_lines-joined l [] ascii ascii' =
      ap (λ t. l ++ t) ending_lem
      ∙ sym (append_assoc l (crlf ++ field (text "Connection", text "close")) separator)
  header_lines-joined l ((name, value) ∷ hs) ascii ascii' =
      let lines = header_lines host port hs in
      let f = field (name_host host port (name, value)) in
      let rest = joined f (map field (fields_for host port hs)) in
      elim (Bool-cases (is_hop name)) [
        | inl hop ↦
            rw (header_line-hop name value hop, hop) (header_lines-joined l hs ascii.1 ascii')
        | inr stays ↦
            rw (header_line-field name value ascii.0 ascii' stays, stays)
              (ap (λ t. l ++ (crlf ++ t))
                  (append_assoc (f ++ crlf) lines ending
                    ∙ append_assoc f crlf (lines ++ ending)
                    ∙ header_lines-joined f hs ascii.1 ascii')
                ∙ sym (append_assoc l (crlf ++ rest) separator))
      ]
