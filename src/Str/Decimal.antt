-- ===== src/Str/Decimal.antt =====
-- Decimal numbers: `to_string` of an unsigned integer and `str::parse` into one with maximum `max`.
use multi_proxy.Base.{
  ℕ, zero, suc, ◌+◌, ◌-◌, ◌*◌, ◌/◌, ◌%◌, ◌^◌, ◌≤◌, ◌<◌, Bool, true, ◌&&◌, [], ◌∷◌, ◌≡◌, Text,
  Result, ok, err, text, All, refl, Bool-cases, inl, inr, arith, ltb, leb, ◌==◌, if◌then◌else◌, max,
  ◌≢◌,
}

abbrev pub max_u16 : ℕ
max_u16 = 65535

abbrev pub max_u64 : ℕ
max_u64 = 2 ^ 64 - 1

-- One digit a round; the fuel `suc n` of `to_string` is more than the digits of `n`.
digits : ℕ → ℕ → Text → Text
digits zero n out = out
digits (suc fuel) n out =
    let more = digits fuel (n / 10) ((b'0' + n % 10) ∷ out) in
    if ltb n 10 then (b'0' + n) ∷ out else more

-- `n.to_string()`, which `format!` uses for an integer.
unfoldable pub to_string : ℕ → Text
unfolding digits
to_string n = digits (suc n) n []

-- The three messages of `ParseIntError`.
abbrev pub empty_number : Text
empty_number = text "cannot parse integer from empty string"

abbrev pub invalid_digit : Text
invalid_digit = text "invalid digit found in string"

abbrev pub number_too_large : Text
number_too_large = text "number too large to fit in target type"

unfoldable pub is_digit : ℕ → Bool
is_digit c = leb b'0' c && leb c b'9'

-- The digits in `s`, read behind the number `n`.
scan : ℕ → Text → ℕ → Result ℕ
scan max [] n = ok n
scan max (c ∷ s) n =
    let m = n * 10 + (c - b'0') in
    let rest = scan max s m in
    if is_digit c then (if ltb max m then err number_too_large else rest) else err invalid_digit

-- A sign is dropped only in front of at least one character.
unsigned : Text → Text
unsigned [] = []
unsigned (c ∷ []) = c ∷ []
unsigned (c ∷ d ∷ s) = if c == b'+' then d ∷ s else c ∷ d ∷ s

unfoldable pub parse_uint : ℕ → Text → Result ℕ
unfolding scan is_digit unsigned
parse_uint max [] = err empty_number
parse_uint max (c ∷ s) = scan max (unsigned (c ∷ s)) 0

scan_last :
    (max n : ℕ) (out : Text) → n ≤ max → scan max ((b'0' + n % 10) ∷ out) (n / 10) ≡ scan max out n
unfolding scan is_digit
scan_last max n out h = ground arith

scan_first :
    (max n : ℕ) (out : Text) → n ≤ max → n < 10 → scan max ((b'0' + n) ∷ out) 0 ≡ scan max out n
unfolding scan is_digit
scan_first max n out h k = ground arith

scan-digits :
    (max fuel n : ℕ) (out : Text)
    → n < fuel
    → n ≤ max
    → scan max (digits fuel n out) 0 ≡ scan max out n
unfolding digits
scan-digits max zero n out h k = elim h [ ]
scan-digits max (suc fuel) n out h k = ground (
  arith,
  scan_first max n out k,
  scan_last max n out k,
  scan-digits max fuel (n / 10) ((b'0' + n % 10) ∷ out),
)

digits-cons :
    (fuel n : ℕ) (out : Text)
    → n < fuel
    → (c : ℕ) × (s : Text) × (digits fuel n out ≡ c ∷ s) × (b'0' ≤ c)
unfolding digits
digits-cons zero n out h = elim h [ ]
digits-cons (suc fuel) n out h = elim (Bool-cases (ltb n 10)) [
  | inl one_digit ↦ (b'0' + n, out, rw one_digit, omega arith)
  | inr more ↦ rw more (digits-cons fuel (n / 10) ((b'0' + n % 10) ∷ out) (ground arith))
]

parse_uint-scan : (max c : ℕ) (s : Text) → b'0' ≤ c → parse_uint max (c ∷ s) ≡ scan max (c ∷ s) 0
unfolding parse_uint
parse_uint-scan max c [] h = refl
parse_uint-scan max c (d ∷ s) h = ground arith

-- Every number that fits is read back from its decimal print.
pub parse_uint-to_string : (max n : ℕ) → n ≤ max → parse_uint max (to_string n) ≡ ok n
unfolding to_string
parse_uint-to_string max n h =
    let (c, s, e, digit) = digits-cons (suc n) n [] (omega arith) in
    let scanned = scan-digits max (suc n) n [] (omega arith) h in
    let written : scan max [] n ≡ ok n = unfold scan in refl in
    cc (e, parse_uint-scan max c s digit, scanned, written)

scan-le : (max : ℕ) (s : Text) (n : ℕ) {m : ℕ} → n ≤ max → scan max s n ≡ ok m → m ≤ max
unfolding scan
scan-le max [] n h e = ground arith
scan-le max (c ∷ s) n {m} h e = elim (Bool-cases (ltb max (n * 10 + (c - b'0')))) [
  | inl large ↦ ground arith
  | inr fits ↦ scan-le max s (n * 10 + (c - b'0')) (ground arith) (ground arith)
]

-- A number that was read fits the integer's width.
pub parse_uint-le : (max : ℕ) (s : Text) {n : ℕ} → parse_uint max s ≡ ok n → n ≤ max
unfolding parse_uint
parse_uint-le max [] e = ground arith
parse_uint-le max (c ∷ s) e = scan-le max (unsigned (c ∷ s)) 0 (omega arith) e

digits-All :
    (fuel n : ℕ) (out : Text)
    → All (λ c. is_digit c ≡ true) out
    → All (λ c. is_digit c ≡ true) (digits fuel n out)
unfolding digits is_digit
digits-All zero n out h = h
digits-All (suc fuel) n out h = ground (arith, digits-All fuel (n / 10) ((b'0' + n % 10) ∷ out))

-- The print of a number is decimal digits only.
pub to_string-digits : (n : ℕ) → All (λ c. is_digit c ≡ true) (to_string n)
unfolding to_string
to_string-digits n = digits-All (suc n) n [] tt

-- There is at least one digit.
pub to_string-ne-nil : (n : ℕ) → to_string n ≢ []
unfolding parse_uint
to_string-ne-nil n e =
    let read : parse_uint n (to_string n) ≡ ok n = parse_uint-to_string n n (omega arith) in
    let nothing : parse_uint n [] ≡ ok n = rw e at read in cc
