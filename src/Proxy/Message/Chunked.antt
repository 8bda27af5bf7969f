-- ===== src/Proxy/Message/Chunked.antt =====
-- A reader of a body in the transfer coding `chunked` (RFC 9112, section 7.1), without chunk extensions and
-- trailer fields. A size without digits is taken for zero.
use multi_proxy.Str.Decimal.{is_digit}
use multi_proxy.Base.{
  Bool, Bytes, Option, [], arith, drop, if◌then◌else◌, leb, length, none, refl, some, suc, take,
  zero, ℕ, ◌&&◌, ◌*◌, ◌++◌, ◌+◌, ◌-◌, ◌<◌, ◌==◌, ◌∷◌, ◌≡◌, ◌≢◌, ◌≤◌, ap, length-append, length-take,
  Bool-cases, inl, inr, length-drop, false,
}

hex_digit : ℕ → Option ℕ
unfolding is_digit
hex_digit c =
    if is_digit c
    then some (c - b'0')
    else (if leb b'a' c && leb c b'f'
        then some (c - b'a' + 10)
        else (if leb b'A' c && leb c b'F' then some (c - b'A' + 10) else none))

behind_feed : ℕ → Bytes → Option (ℕ × Bytes)
behind_feed n [] = none
behind_feed n (c ∷ bs) = if c == 10 then some (n, bs) else none

next_digit : (ℕ → Option (ℕ × Bytes)) → ℕ → Option ℕ → Option (ℕ × Bytes)
next_digit rest n none = none
next_digit rest n (some d) = rest (n * 16 + d)

-- The size of a chunk, behind the digits of `n`, up to the line end.
read_size : Bytes → ℕ → Option (ℕ × Bytes)
unfolding hex_digit behind_feed next_digit
read_size [] n = none
read_size (c ∷ bs) n =
    let more = next_digit (read_size bs) n (hex_digit c) in
    if c == 13 then behind_feed n bs else more

is_crlf : Bytes → Bool
is_crlf (c ∷ d ∷ bs) = c == 13 && d == 10
is_crlf _ = false

in_front : Bytes → Option Bytes → Option Bytes
in_front bs none = none
in_front bs (some more) = some (bs ++ more)

chunk_of : (Bytes → Option Bytes) → Option (ℕ × Bytes) → Option Bytes
unfolding is_crlf in_front
chunk_of rest none = none
chunk_of rest (some (zero, bs)) = if is_crlf bs then some [] else none
chunk_of rest (some (suc n, bs)) =
    if leb (suc n) (length bs) && is_crlf (drop (suc n) bs)
    then in_front (take (suc n) bs) (rest (drop (suc n + 2) bs))
    else none

-- The content behind the coding; the fuel bounds the number of chunks.
unfoldable pub decode : ℕ → Bytes → Option Bytes
unfolding chunk_of read_size
decode zero bs = none
decode (suc fuel) bs = chunk_of (decode fuel) (read_size bs 0)

behind_feed-length :
    (n m : ℕ) (bs rest : Bytes) → behind_feed n bs ≡ some (m, rest) → length rest ≤ length bs
unfolding behind_feed
behind_feed-length n m [] rest e = cc
behind_feed-length n m (c ∷ bs) rest e = elim (Bool-cases (c == 10)) [
  | inl feed ↦ let same : bs ≡ rest = ground arith in rw same (omega arith)
  | inr other ↦ absurd (ground arith)
]

read_size-length :
    (bs : Bytes) (n m : ℕ) (rest : Bytes)
    → read_size bs n ≡ some (m, rest)
    → length rest < length bs
unfolding read_size next_digit
read_size-length [] n m rest e = cc
read_size-length (c ∷ bs) n m rest e = elim (Bool-cases (c == 13)) [
  | inl return ↦ omega (arith, behind_feed-length n m bs rest (ground arith))
  | inr other ↦ digit (hex_digit c) (read_size-length bs) (ground arith)
]
  where
    digit :
        (o : Option ℕ)
        → ((k i : ℕ) (r : Bytes) → read_size bs k ≡ some (i, r) → length r < length bs)
        → next_digit (read_size bs) n o ≡ some (m, rest)
        → length rest < length (c ∷ bs)
    digit none ih h = cc
    digit (some d) ih h = omega (arith, ih (n * 16 + d) m rest h)

in_front-length :
    (bs out : Bytes) (k : ℕ) (o : Option Bytes)
    → ((more : Bytes) → o ≡ some more → length more ≤ k)
    → in_front bs o ≡ some out
    → length out ≤ length bs + k
unfolding in_front
in_front-length bs out k none h e = cc
in_front-length bs out k (some more) h e =
    let same : bs ++ more ≡ out = ground arith in
    omega (arith, ap (length {A = ℕ}) same, length-append bs more, h more refl)

chunk_of-length :
    (rest : Bytes → Option Bytes) (size : ℕ) (bs out : Bytes)
    → ((more out1 : Bytes) → rest more ≡ some out1 → length out1 ≤ length more)
    → chunk_of rest (some (size, bs)) ≡ some out
    → length out ≤ length bs
unfolding chunk_of
chunk_of-length rest zero bs out h e = elim (Bool-cases (is_crlf bs)) [
  | inl ends ↦ let same : [] ≡ out = ground arith in omega (arith, ap (length {A = ℕ}) same)
  | inr other ↦ absurd (ground arith)
]
chunk_of-length rest (suc n) bs out h e =
    elim (Bool-cases (leb (suc n) (length bs) && is_crlf (drop (suc n) bs))) [
      | inl good ↦
          let found : in_front (take (suc n) bs) (rest (drop (suc n + 2) bs)) ≡ some out =
            ground arith in
          omega (
            arith,
            in_front-length (take (suc n) bs) out (length (drop (suc n + 2) bs))
                (rest (drop (suc n + 2) bs)) (h (drop (suc n + 2) bs)) found,
            length-take (suc n) bs,
            length-drop (suc n + 2) bs,
          )
      | inr bad ↦ absurd (ground arith)
    ]

decode-length : (fuel : ℕ) (bs out : Bytes) → decode fuel bs ≡ some out → length out < length bs
unfolding decode chunk_of
decode-length zero bs out e = cc
decode-length (suc fuel) bs out e = sized (read_size bs 0) refl (decode-length fuel) e
  where
    sized :
        (o : Option (ℕ × Bytes))
        → read_size bs 0 ≡ o
        → ((more out1 : Bytes) → decode fuel more ≡ some out1 → length out1 < length more)
        → chunk_of (decode fuel) o ≡ some out
        → length out < length bs
    sized none r ih h = cc
    sized (some (size, rest)) r ih h = omega (
      arith,
      read_size-length bs 0 size rest r,
      chunk_of-length (decode fuel) size rest out (λ more out1 k. omega (arith, ih more out1 k)) h,
    )

-- No bytes are their own content behind this coding: it always adds some.
pub decode-other : (fuel : ℕ) (bs : Bytes) → decode fuel bs ≢ some bs
decode-other fuel bs e = let less = decode-length fuel bs bs e in absurd (omega arith)
