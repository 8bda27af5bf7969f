-- ===== src/Proxy/Response/Headers.antt =====
-- The headers of a streamed response.
use multi_proxy.Str.{eq_ignore_ascii_case, is_empty, find, trim}
use multi_proxy.Net.{Env, World, Stream, panic}
use multi_proxy.Proxy.Http.{position}
use multi_proxy.Proxy.Response.{
  Builder, header_of, split_header, push_header, add_header, add_headers, separator, parse_response,
  sep_index,
}
use multi_proxy.Base.{
  All, Bool-cases, Option, Text, arith, false, inl, inr, none, some, text, ℕ, ◌≡◌, All-append,
  Bytes, List, Option-cases, [], refl, ◌∙◌, ◌∷◌,
}

abbrev pub Passed : Text × Text → Type 0
Passed h = eq_ignore_ascii_case h.0 (text "connection") ≡ false

abbrev pub AllPassed : Builder → Type 0
AllPassed none = Unit {0}
AllPassed (some hs) = All Passed hs

split_header-Passed :
    (line : Text) (col : Option ℕ) (h : Text × Text) → split_header line col ≡ some h → Passed h
unfolding split_header
split_header-Passed line none h e = cc
split_header-Passed line (some col) h e = ground arith

header_of-Passed : (line : Text) (h : Text × Text) → header_of line ≡ some h → Passed h
unfolding header_of
header_of-Passed line h e = elim (Bool-cases (is_empty (trim line))) [
  | inl blank ↦ ground arith
  | inr other ↦ split_header-Passed (trim line) (find (trim line) b':') h (ground arith)
]

module _ (env : Env) where
  -- The crate http only changes the case of a header name.
  abbrev pub NameDocs : Type 0
  NameDocs =
      (name n : Text)
      → env.header_name name ≡ some n
      → (other : Text) → eq_ignore_ascii_case n other ≡ eq_ignore_ascii_case name other

  push-Passed :
      (name value : Text) (b : Builder)
      → NameDocs
      → Passed (name, value)
      → AllPassed b
      → AllPassed (push_header env.header_name env.header_value name value b)
  unfolding push_header
  push-Passed name value none docs p h = tt
  push-Passed name value (some hs) docs p h = elim (Option-cases (env.header_name name)) [
    | inl bad ↦ rw (bad, push_header) tt
    | inr (n, good) ↦
        rw (good, push_header)
          (elim (Bool-cases (env.header_value value)) [
            | inl fits ↦ rw fits (
                All-append Passed hs ((n, value) ∷ []) h
                  (docs name n good (text "connection") ∙ p, tt))
            | inr bad ↦ rw bad tt
          ])
  ]

  add_header-Passed :
      (o : Option (Text × Text)) (b : Builder)
      → NameDocs
      → ((h : Text × Text) → o ≡ some h → Passed h)
      → AllPassed b
      → AllPassed (add_header env o b)
  unfolding add_header
  add_header-Passed none b docs p h = h
  add_header-Passed (some (name, value)) b docs p h =
      push-Passed name value b docs (p (name, value) refl) h

  -- If the form that the crate http gives a header name is the same in any case-insensitive
  -- comparison, then whatever lines the upstream sends, no header called `connection` in any case
  -- is added to those that are there, if none is among them.
  pub add_headers-Passed :
      (ls : List Text) (b : Builder) → NameDocs → AllPassed b → AllPassed (add_headers env ls b)
  unfolding add_headers
  add_headers-Passed [] b docs h = h
  add_headers-Passed (line ∷ ls) b docs h =
      add_headers-Passed ls (add_header env (header_of line) b) docs
        (add_header-Passed (header_of line) b docs (header_of-Passed line) h)

  -- If what was read does not hold the blank line behind the headers, the handler panics: the slice
  -- behind the separator starts past the end.
  pub parse_response-panic :
      (buf : Bytes) (s : Stream) (w : World)
      → position separator buf ≡ none
      → parse_response env buf s w ≡ (panic, w)
  unfolding parse_response
  parse_response-panic buf s w e = rw (e, sep_index) (ground arith)
