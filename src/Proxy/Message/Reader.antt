-- ===== src/Proxy/Message/Reader.antt =====
-- A reader of the heads of HTTP/1.1 requests, which knows RFC 9112 and nothing of the program.
use multi_proxy.Str.Lines.{NoSpaces, split_whitespace-single, split_whitespace-cons}
use multi_proxy.Str.{is_whitespace}
use multi_proxy.Str.{find, lines, split_whitespace, trim, text_eq}
use multi_proxy.Str.Laws.{text_eq_self}
use multi_proxy.Proxy.Message.{
  IsLine-append, NoSpaces-IsLine, space_IsLine, drop-separator, IsField, field, joined, find-field,
  IsLine, fields-IsLine, position-joined, lines-joined,
}
use multi_proxy.Str.Trimmed.{trim-space}
use multi_proxy.Proxy.Http.{position}
use multi_proxy.Proxy.Response.{separator}
use multi_proxy.Proxy.Message.{drop-separator}
use multi_proxy.Str.Laws.{text_eq_self}
use multi_proxy.Base.{
  Bytes, List, Option, Text, [], drop, if◌then◌else◌, none, some, take, text, ℕ, ◌+◌, ◌∷◌, All,
  drop-length-append_succ, map, refl, ◌++◌, ◌≡◌, ◌≢◌, ap, take-length-append, ◌∙◌,
}

-- A request as its reader sees it: what a head says, and the bytes behind it.
pub record Received : Type 0 where
  pub method : Text
  pub target : Text
  pub fields : List (Text × Text)
  pub content : Bytes

-- A field is a name, a colon, and a value with white space round it.
cut_field : Text → Option ℕ → Option (Text × Text)
cut_field line none = none
cut_field line (some i) = some (take i line, trim (drop (i + 1) line))

add_field : Option (Text × Text) → Option (List (Text × Text)) → Option (List (Text × Text))
add_field none fs = none
add_field (some f) none = none
add_field (some f) (some fs) = some (f ∷ fs)

read_fields : List Text → Option (List (Text × Text))
unfolding cut_field add_field
read_fields [] = some []
read_fields (line ∷ ls) = add_field (cut_field line (find line b':')) (read_fields ls)

-- The request line has three words.
with_words : List Text → Option (List (Text × Text)) → Bytes → Option Received
with_words [] fs content = none
with_words (method ∷ []) fs content = none
with_words (method ∷ target ∷ []) fs content = none
with_words (method ∷ target ∷ version ∷ []) none content = none
with_words (method ∷ target ∷ version ∷ []) (some fs) content =
    if text_eq version (text "HTTP/1.1")
    then some (record { method = method; target = target; fields = fs; content = content })
    else none
with_words (method ∷ target ∷ version ∷ word ∷ words) fs content = none

with_lines : List Text → Bytes → Option Received
unfolding with_words read_fields
with_lines [] content = none
with_lines (line ∷ ls) content = with_words (split_whitespace line) (read_fields ls) content

cut_head : Bytes → Option ℕ → Option Received
unfolding with_lines
cut_head all none = none
cut_head all (some i) = with_lines (lines (take i all)) (drop (i + 4) all)

pub read_head : Bytes → Option Received
unfolding cut_head
read_head all = cut_head all (position separator all)

cut_field-field : (h : Text × Text) → IsField h → cut_field (field h) (find (field h) b':') ≡ some h
unfolding cut_field text
cut_field-field (name, value) h =
    ap (cut_field (field (name, value))) (find-field (name, value) h)
    ∙ rw
        (
          take-length-append name (b':' ∷ b' ' ∷ value),
          drop-length-append_succ name b':' (b' ' ∷ value),
          trim-space value h.value_trimmed,
        )
        refl

read_fields-field :
    (hs : List (Text × Text)) → All IsField hs → read_fields (map field hs) ≡ some hs
unfolding read_fields
read_fields-field [] h = refl
read_fields-field (f ∷ hs) h = rw (cut_field-field f h.0, read_fields-field hs h.1) refl

abbrev pub request_line : Text → Text → Text
request_line method target = method ++ b' ' ∷ (target ++ b' ' ∷ text "HTTP/1.1")

version_NoSpaces : NoSpaces (text "HTTP/1.1")
unfolding text is_whitespace
version_NoSpaces = (refl, (refl, (refl, (refl, (refl, (refl, (refl, (refl, tt))))))))

version-ne-nil : text "HTTP/1.1" ≢ []
unfolding text
version-ne-nil e = cc

-- A word of the request line.
pub record IsWord (s : Text) : Type 0 where
  pub no_spaces : NoSpaces s
  pub full : s ≢ []

words-request_line :
    (method target : Text)
    → IsWord method
    → IsWord target
    → split_whitespace (request_line method target) ≡ method ∷ target ∷ text "HTTP/1.1" ∷ []
words-request_line method target h h' =
    split_whitespace-cons method (target ++ b' ' ∷ text "HTTP/1.1") h.no_spaces h.full
    ∙ ap (λ t. method ∷ t)
        (split_whitespace-cons target (text "HTTP/1.1") h'.no_spaces h'.full
          ∙ ap (λ t. target ∷ t)
              (split_whitespace-single (text "HTTP/1.1") version_NoSpaces version-ne-nil))

request_line-IsLine :
    (method target : Text) → IsWord method → IsWord target → IsLine (request_line method target)
request_line-IsLine method target h h' =
    IsLine-append method (b' ' ∷ (target ++ b' ' ∷ text "HTTP/1.1"))
      (NoSpaces-IsLine method h.no_spaces)
      (IsLine-append (b' ' ∷ []) (target ++ b' ' ∷ text "HTTP/1.1") space_IsLine (
        IsLine-append target (b' ' ∷ text "HTTP/1.1") (NoSpaces-IsLine target h'.no_spaces) (
          IsLine-append (b' ' ∷ []) (text "HTTP/1.1") space_IsLine
            (NoSpaces-IsLine (text "HTTP/1.1") version_NoSpaces))))

request_line-ne-nil : (method target : Text) → IsWord method → request_line method target ≢ []
request_line-ne-nil [] target h e = h.full refl
request_line-ne-nil (c ∷ method) target h e = cc

-- A head that is written as RFC 9112 says is read as it was meant, with the bytes behind it.
pub read_head-joined :
    (method target : Text) (fs : List (Text × Text)) (content : Bytes)
    → IsWord method
    → IsWord target
    → All IsField fs
    → read_head (joined (request_line method target) (map field fs) ++ (separator ++ content))
      ≡ some (record { method = method; target = target; fields = fs; content = content })
unfolding read_head
read_head-joined method target fs content h h' fields =
    let line = request_line method target in
    let head = joined line (map field fs) in
    let is_line = request_line-IsLine method target h h' in
    let are_lines = fields-IsLine fs fields in
    rw
      (
        position-joined line (map field fs) content is_line are_lines,
        take-length-append head (separator ++ content),
        lines-joined line (map field fs) (request_line-ne-nil method target h) is_line are_lines,
        words-request_line method target h h',
        read_fields-field fs fields,
      )
      (rw (drop-separator head content, text_eq_self (text "HTTP/1.1")) refl)
