-- ===== src/Proxy/Message.antt =====
-- The syntax of the head of an HTTP/1.1 message (RFC 9112): lines that CR LF parts, the first one the
-- start line and the others fields; a blank line ends the head.
pub mod Reader
pub mod Authority
pub mod Chunked
pub mod Framing
pub mod Fields
use multi_proxy.Str.Lines.{NoSpaces, lines-cons, lines-single}
use multi_proxy.Str.{starts_with, lines, find, is_whitespace}
use multi_proxy.Str.Laws.{Lacks, find-append}
use multi_proxy.Str.Trimmed.{IsTrimmed}
use multi_proxy.Proxy.Http.{crlf, position}
use multi_proxy.Proxy.Response.{separator}
use multi_proxy.Base.{
  All, Bytes, List, Text, [], ap, arith, false, length, refl, some, text, ℕ, ◌++◌, ◌+◌, ◌==◌, ◌∙◌,
  ◌∷◌, ◌≡◌, ◌≢◌, All-append, All-imp, append_assoc, length-append, map, take, take-length-append,
  subst, true, drop, drop-length-append, sym,
}

-- A text without a line end.
pub record IsLine (l : Text) : Type 0 where
  pub no_return : Lacks 13 l
  pub no_feed : Lacks 10 l

abbrev pub joined : Text → List Text → Text
joined l [] = l
joined l (m ∷ ls) = l ++ (crlf ++ joined m ls)

abbrev pub field : Text × Text → Text
field (name, value) = name ++ (text ": " ++ value)

-- A field that can stand on a line of its own.
pub record IsField (h : Text × Text) : Type 0 where
  pub named : h.0 ≢ []
  pub name_line : IsLine h.0
  pub value_line : IsLine h.1
  pub no_colon : Lacks b':' h.0
  pub name_trimmed : IsTrimmed h.0
  pub value_trimmed : IsTrimmed h.1

position_skip :
    (l rest : Bytes) (i : ℕ)
    → Lacks 13 l
    → position separator rest ≡ some i
    → position separator (l ++ rest) ≡ some (length l + i)
unfolding position starts_with
position_skip [] rest i h e = ground (arith, e)
position_skip (c ∷ l) rest i h e =
    let other : (c == 13) ≡ false = ground arith in
    rw (other, position) (ground (arith, position_skip l rest i h.1 e))

-- Before a line that holds something there is no blank line.
position_line :
    (c : ℕ) (u : Bytes) (i : ℕ)
    → c ≢ 13
    → position separator (c ∷ u) ≡ some i
    → position separator (crlf ++ c ∷ u) ≡ some (i + 2)
unfolding position starts_with
position_line c u i h e =
    let other : (c == 13) ≡ false = ground arith in rw (other, position) (ground (arith, e))

joined-cons :
    (m : Text) (ls : List Text)
    → IsLine m
    → m ≢ []
    → (c : ℕ) × (u : Text) × (joined m ls ≡ c ∷ u) × (c ≢ 13)
joined-cons [] ls h full = absurd (full refl)
joined-cons (c ∷ m) [] h full = (c, m, refl, h.no_return.0)
joined-cons (c ∷ m) (n ∷ ls) h full = (c, m ++ (crlf ++ joined n ls), refl, h.no_return.0)

blank_first : (body : Bytes) → position separator (separator ++ body) ≡ some 0
unfolding position starts_with
blank_first body = refl

-- The head ends where the first blank line is.
pub position-joined :
    (l : Text) (ls : List Text) (body : Bytes)
    → IsLine l
    → All (λ m. IsLine m × (m ≢ [])) ls
    → position separator (joined l ls ++ (separator ++ body)) ≡ some (length (joined l ls))
position-joined l [] body h hs =
    position_skip l (separator ++ body) 0 h.no_return (blank_first body) ∙ ap some (omega arith)
position-joined l (m ∷ ls) body h hs =
    let (c, u, e, other) = joined-cons m ls hs.0.0 hs.0.1 in
    let found = position-joined m ls body hs.0.0 hs.1 in
    let next : position separator (crlf ++ (joined m ls ++ (separator ++ body)))
        ≡ some (length (joined m ls) + 2) =
      rw e (position_line c (u ++ (separator ++ body)) (length (c ∷ u)) other (rw e at found)) in
    ap (position separator) (append_assoc l (crlf ++ joined m ls) (separator ++ body))
    ∙ position_skip l (crlf ++ (joined m ls ++ (separator ++ body))) (length (joined m ls) + 2)
        h.no_return next
    ∙ ap some (omega (arith, length-append l (crlf ++ joined m ls)))

pub lines-joined :
    (l : Text) (ls : List Text)
    → l ≢ []
    → IsLine l
    → All (λ m. IsLine m × (m ≢ [])) ls
    → lines (joined l ls) ≡ l ∷ ls
lines-joined l [] full h hs = lines-single l h.no_feed full
lines-joined l (m ∷ ls) full h hs =
    lines-cons l (joined m ls) h.no_feed ∙ ap (λ t. l ∷ t) (lines-joined m ls hs.0.1 hs.0.0 hs.1)

pub IsLine-append : (s t : Text) → IsLine s → IsLine t → IsLine (s ++ t)
IsLine-append s t h h' = record {
  no_return = All-append (λ c. c ≢ 13) s t h.no_return h'.no_return;
  no_feed = All-append (λ c. c ≢ 10) s t h.no_feed h'.no_feed;
}

field-IsLine : (h : Text × Text) → IsField h → IsLine (field h)
unfolding text
field-IsLine (name, value) h = IsLine-append name (text ": " ++ value) h.name_line (
    IsLine-append (text ": ") value (record { no_return = omega arith; no_feed = omega arith })
      h.value_line)

field-ne-nil : (h : Text × Text) → IsField h → field h ≢ []
field-ne-nil ([], value) h e = h.named refl
field-ne-nil (c ∷ name, value) h e = cc

-- The field lines of a head.
pub fields-IsLine :
    (hs : List (Text × Text)) → All IsField hs → All (λ m. IsLine m × (m ≢ [])) (map field hs)
fields-IsLine [] h = tt
fields-IsLine (f ∷ hs) h = ((field-IsLine f h.0, field-ne-nil f h.0), fields-IsLine hs h.1)

-- A field's line is cut at its first colon.
pub find-field : (h : Text × Text) → IsField h → find (field h) b':' ≡ some (length h.0)
unfolding text
find-field (name, value) h = find-append name (b' ' ∷ value) b':' h.no_colon

pub take-field : (h : Text × Text) → take (length h.0) (field h) ≡ h.0
take-field (name, value) = take-length-append name (text ": " ++ value)

not_space : (d : ℕ) → is_whitespace d ≡ true → (c : ℕ) → is_whitespace c ≡ false → c ≢ d
not_space d h c e same =
    let e' : is_whitespace d ≡ false = subst (λ k. is_whitespace k ≡ false) same e in cc

-- A text without white space is one line.
pub NoSpaces-IsLine : (s : Text) → NoSpaces s → IsLine s
unfolding is_whitespace
NoSpaces-IsLine s h = record {
  no_return = All-imp s (not_space 13 refl) h;
  no_feed = All-imp s (not_space 10 refl) h;
}

pub space_IsLine : IsLine (b' ' ∷ [])
space_IsLine = record { no_return = omega arith; no_feed = omega arith }

-- What stands behind the blank line.
pub drop-separator :
    (head body : Bytes) → drop (length head + 4) (head ++ (separator ++ body)) ≡ body
drop-separator head body =
    let past : length head + 4 ≡ length (head ++ separator) =
      omega (arith, length-append head separator) in
    ap (λ k. drop k (head ++ (separator ++ body))) past
    ∙ ap (drop (length (head ++ separator))) (sym (append_assoc head separator body))
    ∙ drop-length-append (head ++ separator) body

pub joined-All :
    (P : ℕ → Type 0) (l : Text) (ls : List Text)
    → P 13
    → P 10
    → All P l
    → All (All P) ls
    → All P (joined l ls)
joined-All P l [] r f h hs = h
joined-All P l (m ∷ ls) r f h hs =
    All-append P l (crlf ++ joined m ls) h (r, (f, joined-All P m ls r f hs.0 hs.1))
