-- ===== src/Str/Utf8.antt =====
-- `str::as_bytes` and `String::from_utf8_lossy`.
use multi_proxy.Base.{
  All, Bytes, Text, [], arith, if◌then◌else◌, leb, ltb, refl, ℕ, ◌%◌, ◌&&◌, ◌*◌, ◌++◌, ◌+◌, ◌-◌,
  ◌/◌, ◌<◌, ◌==◌, ◌∷◌, ◌≡◌, ◌≢◌,
}

-- The UTF-8 bytes of one character.
encode_char : ℕ → Bytes
encode_char c =
    if ltb c 0x80
    then c ∷ []
    else if ltb c 0x800
    then (0xC0 + c / 64) ∷ (0x80 + c % 64) ∷ []
    else if ltb c 0x10000
    then (0xE0 + c / 4096) ∷ (0x80 + c / 64 % 64) ∷ (0x80 + c % 64) ∷ []
    else (0xF0 + c / 262144) ∷ (0x80 + c / 4096 % 64) ∷ (0x80 + c / 64 % 64) ∷ (0x80 + c % 64) ∷ []

-- `s.as_bytes()`
unfoldable pub as_bytes : Text → Bytes
unfolding encode_char
as_bytes [] = []
as_bytes (c ∷ s) = encode_char c ++ as_bytes s

-- Inside a character: the bytes still to come, the range of the next one, and the bits so far.
pub data Decoder : Type 0 where
  start : Decoder
  inside : ℕ → ℕ → ℕ → ℕ → Decoder

replacement : ℕ
replacement = 0xFFFD

-- The first byte of a character fixes its length and the range of its second byte.
lead : ℕ → Text × Decoder
unfolding replacement
lead b =
    if ltb b 0x80
    then (b ∷ [], start)
    else if leb 0xC2 b && leb b 0xDF
    then ([], inside 1 0x80 0xBF (b - 0xC0))
    else if leb 0xE0 b && leb b 0xEF
    then (
      [],
      inside 2 (if b == 0xE0 then 0xA0 else 0x80) (if b == 0xED then 0x9F else 0xBF) (b - 0xE0),
    )
    else if leb 0xF0 b && leb b 0xF4
    then (
      [],
      inside 3 (if b == 0xF0 then 0x90 else 0x80) (if b == 0xF4 then 0x8F else 0xBF) (b - 0xF0),
    )
    else (replacement ∷ [], start)

-- A byte out of range ends the broken character with U+FFFD and is read again as a first byte.
feed : Decoder → ℕ → Text × Decoder
unfolding lead
feed start b = lead b
feed (inside left lo hi bits) b =
    if leb lo b && leb b hi
    then (if left == 1
        then ((bits * 64 + (b - 0x80)) ∷ [], start)
        else ([], inside (left - 1) 0x80 0xBF (bits * 64 + (b - 0x80))))
    else (replacement ∷ (lead b).0, (lead b).1)

decode : Decoder → Bytes → Text
unfolding feed
decode start [] = []
decode (inside left lo hi bits) [] = replacement ∷ []
decode d (b ∷ s) = (feed d b).0 ++ decode (feed d b).1 s

-- `String::from_utf8_lossy(bytes)`
unfoldable pub from_utf8_lossy : Bytes → Text
unfolding decode
from_utf8_lossy s = decode start s

pub as_bytes-ne-nil : (c : ℕ) (s : Text) → as_bytes (c ∷ s) ≢ []
unfolding as_bytes
as_bytes-ne-nil c s = ground arith

abbrev pub IsAscii : Text → Type 0
IsAscii = All (λ c. c < 0x80)

-- ASCII text is its own encoding, both ways.
pub as_bytes-IsAscii : (s : Text) → IsAscii s → as_bytes s ≡ s
unfolding as_bytes
as_bytes-IsAscii [] h = refl
as_bytes-IsAscii (c ∷ s) h = ground (arith, as_bytes-IsAscii s h.1)

pub from_utf8_lossy-IsAscii : (s : Text) → IsAscii s → from_utf8_lossy s ≡ s
unfolding from_utf8_lossy
from_utf8_lossy-IsAscii [] h = refl
from_utf8_lossy-IsAscii (c ∷ s) h = ground (arith, from_utf8_lossy-IsAscii s h.1)

euro : from_utf8_lossy (as_bytes (0x20AC ∷ b'x' ∷ [])) ≡ 0x20AC ∷ b'x' ∷ []
unfolding from_utf8_lossy as_bytes
euro = refl

broken : from_utf8_lossy (0xE2 ∷ 0x82 ∷ b'x' ∷ 0xFF ∷ []) ≡ 0xFFFD ∷ b'x' ∷ 0xFFFD ∷ []
unfolding from_utf8_lossy
broken = refl
