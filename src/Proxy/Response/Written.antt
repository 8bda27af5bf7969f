-- ===== src/Proxy/Response/Written.antt =====
-- src/proxy.rs, `read_streaming_response`: what it makes of the lines of a head that was written as
-- RFC 9112 says.
use mathlib.Core.List.{reverse, reverse-append, reverse-reverse}
use multi_proxy.Str.{eq_ignore_ascii_case, find, trim, split_whitespace, trim_start}
use multi_proxy.Str.Laws.{Lacks, find-append}
use multi_proxy.Str.Trimmed.{
  IsTrimmed, trim-IsTrimmed, trim-space, IsTrimmed-append, StartsFull-append, trim_start-StartsFull,
}
use multi_proxy.Str.Lines.{NoSpaces, split_whitespace-cons, to_string-NoSpaces}
use multi_proxy.Proxy.Message.{IsField, space_IsLine, field, IsLine, IsLine-append, NoSpaces-IsLine}
use multi_proxy.Proxy.Http.{nth}
use multi_proxy.Net.{Env}
use multi_proxy.Str.Decimal.{to_string, to_string-ne-nil, parse_uint-to_string, max_u16}
use multi_proxy.Str.{is_whitespace}
use multi_proxy.Proxy.Response.{
  header_of, split_header, add_header, add_headers, status_of, code_of, push_header,
}
use multi_proxy.Base.{
  Option, Text, [], ap, append_assoc, arith, if◌then◌else◌, none, refl, some, sym,
  take-length-append, text, ℕ, ◌++◌, ◌∙◌, ◌∷◌, ◌≡◌, ◌≢◌, All, Bool-cases, List, append-nil, inl,
  inr, map, true, ◌≤◌, drop-length-append_succ,
}

-- What the handler makes of a field: those called `connection` are passed over.
abbrev pub kept : Text × Text → Option (Text × Text)
kept h = if eq_ignore_ascii_case h.0 (text "connection") then none else some h

split_header-field :
    (name rest value : Text)
    → Lacks b':' name
    → IsTrimmed name
    → trim rest ≡ value
    → split_header (name ++ b':' ∷ rest) (find (name ++ b':' ∷ rest) b':') ≡ kept (name, value)
unfolding split_header
split_header-field name rest value no_colon trimmed e =
    rw
      (
        find-append name rest b':' no_colon,
        take-length-append name (b':' ∷ rest),
        drop-length-append_succ name b':' rest,
        trim-IsTrimmed name trimmed,
        e,
      )
      refl

header_of-trimmed :
    (line name rest value : Text)
    → trim line ≡ name ++ b':' ∷ rest
    → name ≢ []
    → Lacks b':' name
    → IsTrimmed name
    → trim rest ≡ value
    → header_of line ≡ kept (name, value)
unfolding header_of
header_of-trimmed line [] rest value same named no_colon trimmed e = absurd (named refl)
header_of-trimmed line (c ∷ name) rest value same named no_colon trimmed e =
    rw same (split_header-field (c ∷ name) rest value no_colon trimmed e)

-- A field without a value loses the space behind the colon.
trim-bare :
    (name : Text) → name ≢ [] → IsTrimmed name → trim (name ++ b':' ∷ b' ' ∷ []) ≡ name ++ b':' ∷ []
unfolding trim trim_start
trim-bare name named trimmed =
    ap (λ t. reverse (trim_start (reverse t)))
      (trim_start-StartsFull (name ++ b':' ∷ b' ' ∷ [])
        (StartsFull-append name (b':' ∷ b' ' ∷ []) named trimmed.front))
    ∙ ap (λ t. reverse (trim_start t)) (reverse-append name (b':' ∷ b' ' ∷ []))
    ∙ ap reverse (sym (reverse-append name (b':' ∷ [])))
    ∙ reverse-reverse (name ++ b':' ∷ [])

pub header_of-field : (h : Text × Text) → IsField h → header_of (field h) ≡ kept h
unfolding text
header_of-field (name, []) h =
    header_of-trimmed (name ++ b':' ∷ b' ' ∷ []) name [] [] (trim-bare name h.named h.name_trimmed)
      h.named h.no_colon h.name_trimmed (trim-IsTrimmed [] h.value_trimmed)
header_of-field (name, c ∷ value) h =
    header_of-trimmed (name ++ (text ": " ++ c ∷ value)) name (b' ' ∷ c ∷ value) (c ∷ value)
      (trim-IsTrimmed (name ++ (text ": " ++ c ∷ value)) (
        IsTrimmed-append name (text ": ") (c ∷ value) h.named (λ e. cc) h.name_trimmed
          h.value_trimmed))
      h.named h.no_colon h.name_trimmed (trim-space (c ∷ value) h.value_trimmed)

-- The headers that the handler keeps of those that were written, under the names that the crate http
-- gives them.
abbrev pub kept_fields : (Text → Text) → List (Text × Text) → List (Text × Text)
kept_fields canon [] = []
kept_fields canon ((name, value) ∷ hs) =
    if eq_ignore_ascii_case name (text "connection")
    then kept_fields canon hs
    else (canon name, value) ∷ kept_fields canon hs

-- The crate http takes the header.
abbrev pub IsValid : Env → (Text → Text) → Text × Text → Type 0
IsValid env canon h = (env.header_name h.0 ≡ some (canon h.0)) × (env.header_value h.1 ≡ true)

module _ (env : Env) (canon : Text → Text) where
  add_header-field :
      (h : Text × Text) (before : List (Text × Text))
      → IsField h
      → IsValid env canon h
      → add_header env (header_of (field h)) (some before)
        ≡ some (before ++ kept_fields canon (h ∷ []))
  unfolding add_header push_header
  add_header-field (name, value) before h valid =
      rw (header_of-field (name, value) h)
        (elim (Bool-cases (eq_ignore_ascii_case name (text "connection"))) [
          | inl e ↦ rw e (ap some (sym (append-nil before)))
          | inr e ↦ rw e (rw (valid.0, push_header) (rw valid.1 refl))
        ])

  kept_fields-cons :
      (h : Text × Text) (hs : List (Text × Text))
      → kept_fields canon (h ∷ hs) ≡ kept_fields canon (h ∷ []) ++ kept_fields canon hs
  kept_fields-cons (name, value) hs =
      elim (Bool-cases (eq_ignore_ascii_case name (text "connection"))) [
        | inl e ↦ rw e refl
        | inr e ↦ rw e refl
      ]

  pub add_headers-field :
      (hs before : List (Text × Text))
      → All IsField hs
      → All (IsValid env canon) hs
      → add_headers env (map field hs) (some before) ≡ some (before ++ kept_fields canon hs)
  unfolding add_headers
  add_headers-field [] before h valid = ap some (sym (append-nil before))
  add_headers-field (f ∷ hs) before h valid =
      ap (add_headers env (map field hs)) (add_header-field f before h.0 valid.0)
      ∙ add_headers-field hs (before ++ kept_fields canon (f ∷ [])) h.1 valid.1
      ∙ ap some (
          append_assoc before (kept_fields canon (f ∷ [])) (kept_fields canon hs)
          ∙ ap (λ t. before ++ t) (sym (kept_fields-cons f hs)))

abbrev pub status_line : ℕ → Text → Text
status_line status reason = text "HTTP/1.1 " ++ (to_string status ++ b' ' ∷ reason)

http_NoSpaces : NoSpaces (text "HTTP/1.1")
unfolding text is_whitespace
http_NoSpaces = (refl, (refl, (refl, (refl, (refl, (refl, (refl, (refl, tt))))))))

second_word-status_line :
    (status : ℕ) (reason : Text)
    → nth 1 (split_whitespace (status_line status reason)) ≡ some (to_string status)
unfolding nth text
second_word-status_line status reason = ap (nth 1) (
    split_whitespace-cons (text "HTTP/1.1") (to_string status ++ b' ' ∷ reason) http_NoSpaces
      (λ e. cc)
    ∙ ap (λ t. text "HTTP/1.1" ∷ t)
        (split_whitespace-cons (to_string status) reason (to_string-NoSpaces status)
          (to_string-ne-nil status)))

code_of-to_string : (n : ℕ) → n ≤ max_u16 → code_of (some (to_string n)) ≡ n
unfolding code_of
code_of-to_string n h = rw (parse_uint-to_string max_u16 n h, code_of) refl

-- The status of a status line.
pub status_of-status_line :
    (status : ℕ) (reason : Text) (ls : List Text)
    → 100 ≤ status
    → status ≤ 999
    → status_of (status_line status reason ∷ ls) ≡ status
unfolding status_of
status_of-status_line status reason ls low high =
    rw (second_word-status_line status reason)
      (rw (code_of-to_string status (omega arith)) (ground arith))

http_IsLine : IsLine (text "HTTP/1.1 ")
unfolding text
http_IsLine = record { no_return = omega arith; no_feed = omega arith }

pub status_line-IsLine :
    (status : ℕ) (reason : Text) → IsLine reason → IsLine (status_line status reason)
status_line-IsLine status reason h =
    IsLine-append (text "HTTP/1.1 ") (to_string status ++ b' ' ∷ reason) http_IsLine (
      IsLine-append (to_string status) (b' ' ∷ reason)
        (NoSpaces-IsLine (to_string status) (to_string-NoSpaces status))
        (IsLine-append (b' ' ∷ []) reason space_IsLine h))

pub status_line-ne-nil : (status : ℕ) (reason : Text) → status_line status reason ≢ []
unfolding text
status_line-ne-nil status reason e = cc
