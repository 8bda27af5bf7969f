-- ===== src/Proxy/Request/Authority.antt =====
-- `parse_authority` reads back what `host:port` and `[host]:port` print.
use multi_proxy.Str.{starts_with, find, rfind, trim_start_matches, is_empty}
use multi_proxy.Str.Laws.{Lacks, find-append, find_sound, rfind-append, rfind_sound}
use multi_proxy.Str.Decimal.{
  max_u16, to_string, to_string-digits, parse_uint-to_string, parse_uint-le, is_digit,
}
use multi_proxy.Proxy.Request.{parse_authority, parse_port, bracketed, plain}
use native.Mathlib.Numerals.{add-one}
use multi_proxy.Str.{is_empty}
use multi_proxy.Base.{
  All, Text, [], arith, drop, false, length, ok, refl, true, ℕ, ◌++◌, ◌+◌, ◌∷◌, ◌≡◌, ◌≢◌, ◌≤◌, suc,
  take-length-append, ◌⊎◌, ==_iff, Bool-cases, Option-cases, ap, inl, inr, some, take, ◌==◌,
}

-- The two ways to write an authority.
abbrev pub write_plain : Text → ℕ → Text
write_plain host port = host ++ b':' ∷ to_string port

abbrev pub write_bracketed : Text → ℕ → Text
write_bracketed host port = b'[' ∷ (host ++ b']' ∷ b':' ∷ to_string port)

digits-Lacks : (s : Text) → All (λ c. is_digit c ≡ true) s → Lacks b':' s
unfolding is_digit
digits-Lacks [] h = tt
digits-Lacks (c ∷ s) h = (ground arith, digits-Lacks s h.1)

to_string-Lacks : (n : ℕ) → Lacks b':' (to_string n)
to_string-Lacks n = digits-Lacks (to_string n) (to_string-digits n)

parse_port-to_string : (port : ℕ) → port ≤ max_u16 → parse_port (to_string port) ≡ ok port
unfolding parse_port
parse_port-to_string port h = rw (parse_uint-to_string max_u16 port h, parse_port)

parse_port-le : (s : Text) {port : ℕ} → parse_port s ≡ ok port → port ≤ max_u16
unfolding parse_port
parse_port-le s {port} h = ground (arith, parse_uint-le max_u16 s {n = port})

-- The code adds one to an index to step over the separator.
drop_past : (xs ys : Text) (c : ℕ) → drop (length xs + 1) (xs ++ c ∷ ys) ≡ ys
drop_past [] ys c = refl
drop_past (x ∷ xs) ys c =
    let rest : drop (suc (length xs)) (xs ++ c ∷ ys) ≡ ys =
      rw (← add-one (length xs)) (drop_past xs ys c) in
    rw (add-one (suc (length xs))) rest

trim_digits : (s : Text) → Lacks b':' s → trim_start_matches (b':' ∷ s) b':' ≡ s
unfolding trim_start_matches
trim_digits [] h = refl
trim_digits (c ∷ s) h = ground arith

-- A host and a port up to 65535, written with a colon between them, are read back, if the host is
-- not empty and does not begin with a bracket; it may hold colons, since the last one is the
-- separator.
pub parse_authority-write_plain :
    (host : Text) (port : ℕ)
    → host ≢ []
    → starts_with host (b'[' ∷ []) ≡ false
    → port ≤ max_u16
    → parse_authority (write_plain host port) ≡ ok (host, port)
unfolding parse_authority starts_with is_empty
parse_authority-write_plain [] port h k le = absurd (h refl)
parse_authority-write_plain (c ∷ host) port h k le = ground (
  arith,
  rfind-append (c ∷ host) (to_string port) b':' (to_string-Lacks port),
  drop_past (c ∷ host) (to_string port) b':',
  take-length-append (c ∷ host) (b':' ∷ to_string port),
  parse_port-to_string port le,
)

-- A host between brackets, which may hold anything but a closing bracket, and a port up to 65535
-- behind a colon are read back.
pub parse_authority-write_bracketed :
    (host : Text) (port : ℕ)
    → Lacks b']' host
    → port ≤ max_u16
    → parse_authority (write_bracketed host port) ≡ ok (host, port)
unfolding parse_authority starts_with is_empty
parse_authority-write_bracketed host port h le = ground (
  arith,
  find-append (b'[' ∷ host) (b':' ∷ to_string port) b']' ((λ e. omega arith), h),
  drop_past (b'[' ∷ host) (b':' ∷ to_string port) b']',
  take-length-append host (b']' ∷ b':' ∷ to_string port),
  trim_digits (to_string port) (to_string-Lacks port),
  parse_port-to_string port le,
)

-- What was accepted: a port in range, behind the brackets or behind the last colon of a text whose
-- host part is not empty.
pub record Accepted (authority host : Text) (port : ℕ) : Type 0 where
  pub in_range : port ≤ max_u16
  pub parts :
      ((rest : Text) × (authority ≡ b'[' ∷ (host ++ b']' ∷ rest)) × Lacks b']' host × (rest ≢ []))
      ⊎ ((digits : Text) × (authority ≡ host ++ b':' ∷ digits) × Lacks b':' digits × (host ≢ []))

bracketed_parts :
    (s host : Text) (port i : ℕ)
    → find s b']' ≡ some i
    → bracketed (b'[' ∷ s) ≡ ok (host, port)
    → (host ≡ take i s) × (drop (suc i) s ≢ []) × (port ≤ max_u16)
unfolding bracketed find is_empty
bracketed_parts s host port i found e =
    ground (
      arith,
      add-one (suc i),
      parse_port-le (trim_start_matches (drop (suc i) s) b':') {port = port},
    )

bracketed_sound :
    (s host : Text) (port : ℕ)
    → bracketed (b'[' ∷ s) ≡ ok (host, port)
    → Accepted (b'[' ∷ s) host port
bracketed_sound s host port e = elim (Option-cases (find s b']')) [
  | inl missing ↦ unfold bracketed find in ground arith
  | inr (i, found) ↦
      let (same, more, le) = bracketed_parts s host port i found e in
      let (cut, none_before) = find_sound s b']' i found in
      record {
        in_range = le;
        parts = inl (drop (suc i) s, rw same (ap (λ t. b'[' ∷ t) cut), rw same none_before, more);
      }
]

plain_parts :
    (s host : Text) (port i : ℕ)
    → rfind s b':' ≡ some i
    → plain s ≡ ok (host, port)
    → (host ≡ take i s) × (take i s ≢ []) × (port ≤ max_u16)
unfolding plain is_empty
plain_parts s host port i found e =
    ground (arith, add-one i, parse_port-le (drop (suc i) s) {port = port})

plain_sound : (s host : Text) (port : ℕ) → plain s ≡ ok (host, port) → Accepted s host port
plain_sound s host port e = elim (Option-cases (rfind s b':')) [
  | inl missing ↦ unfold plain in ground arith
  | inr (i, found) ↦
      let (same, more, le) = plain_parts s host port i found e in
      let (cut, none_behind) = rfind_sound s b':' i found in
      record { in_range = le; parts = inr (drop (suc i) s, rw same cut, none_behind, rw same more) }
]

-- Whatever is accepted has a port of at most 65535, and is a host without a closing bracket between
-- brackets, with something behind them, or a host that is not empty, a colon and a rest without a
-- colon.
pub parse_authority_sound :
    (s host : Text) (port : ℕ) → parse_authority s ≡ ok (host, port) → Accepted s host port
unfolding parse_authority starts_with
parse_authority_sound [] host port e = plain_sound [] host port e
parse_authority_sound (c ∷ s) host port e = elim (Bool-cases (c == b'[')) [
  | inl bracket ↦
      let same : c ≡ b'[' = (==_iff c b'[').0 bracket in
      rw same (bracketed_sound s host port (ground arith))
  | inr other ↦ plain_sound (c ∷ s) host port (ground arith)
]

-- The empty authority is refused.
pub parse_authority-nonempty :
    (authority : Text) (r : Text × ℕ)
    → parse_authority authority ≡ ok r
    → is_empty authority ≡ false
unfolding parse_authority starts_with rfind is_empty
parse_authority-nonempty [] r p = cc
parse_authority-nonempty (c ∷ cs) r p = refl
