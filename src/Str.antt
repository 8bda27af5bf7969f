-- ===== src/Str.antt =====
-- What the program uses of Rust's `str`: searching, trimming, splitting, comparing. A text is the list
-- of its characters, so an index counts characters where Rust counts bytes; the program only slices
-- at indices that `find` and `rfind` return, where the two agree.
pub mod Decimal
pub mod Laws
pub mod Lines
pub mod Trimmed
pub mod Utf8
use mathlib.Core.List.{reverse}
use mathlib.Core.Option
use multi_proxy.Base.{
  ℕ, suc, ◌+◌, ◌-◌, Bool, true, false, ◌&&◌, ◌||◌, Option, none, some, List, [], ◌∷◌, ◌++◌, Text,
  leb, ◌==◌, if◌then◌else◌,
}

-- `s.starts_with(p)`
unfoldable pub starts_with : Text → Text → Bool
starts_with s [] = true
starts_with [] (p ∷ ps) = false
starts_with (c ∷ s) (p ∷ ps) = c == p && starts_with s ps

-- `s.find(c)`: the first occurrence.
unfoldable pub find : Text → ℕ → Option ℕ
find [] c = none
find (x ∷ s) c = if x == c then some 0 else Option.map suc (find s c)

later : Bool → Option ℕ → Option ℕ
later here (some i) = some (suc i)
later here none = if here then some 0 else none

-- `s.rfind(c)`: the last occurrence.
unfoldable pub rfind : Text → ℕ → Option ℕ
unfolding later
rfind [] c = none
rfind (x ∷ s) c = later (x == c) (rfind s c)

-- `s.trim_start_matches(c)`
unfoldable pub trim_start_matches : Text → ℕ → Text
trim_start_matches [] c = []
trim_start_matches (x ∷ s) c = if x == c then trim_start_matches s c else x ∷ s

-- `char::is_whitespace`: the characters with Unicode's property White_Space.
unfoldable pub is_whitespace : ℕ → Bool
is_whitespace c =
    (leb 9 c && leb c 13)
    || c == 0x20
    || c == 0x85
    || c == 0xA0
    || c == 0x1680
    || (leb 0x2000 c && leb c 0x200A)
    || c == 0x2028
    || c == 0x2029
    || c == 0x202F
    || c == 0x205F
    || c == 0x3000

unfoldable pub trim_start : Text → Text
trim_start [] = []
trim_start (c ∷ s) = if is_whitespace c then trim_start s else c ∷ s

-- `s.trim()`
unfoldable pub trim : Text → Text
unfolding trim_start is_whitespace
trim s = reverse (trim_start (reverse (trim_start s)))

flush : Text → List Text → List Text
flush [] words = words
flush (c ∷ word) words = (c ∷ word) ∷ words

words_from : Text → Text → List Text
unfolding flush
words_from [] word = flush word []
words_from (c ∷ s) word = elim (is_whitespace c) [
  | true ↦ flush word (words_from s [])
  | false ↦ words_from s (word ++ c ∷ [])
]

-- `s.split_whitespace()`
unfoldable pub split_whitespace : Text → List Text
unfolding words_from is_whitespace
split_whitespace s = words_from s []

-- A line that ended in '\n' loses one '\r' before it; the head of `line` is its last character.
unreturn : Text → Text
unreturn [] = []
unreturn (c ∷ line) = if c == 13 then line else c ∷ line

lines_from : Text → Text → List Text
unfolding unreturn
lines_from [] [] = []
lines_from [] (c ∷ line) = reverse (c ∷ line) ∷ []
lines_from (c ∷ s) line = elim (c == 10) [
  | true ↦ reverse (unreturn line) ∷ lines_from s []
  | false ↦ lines_from s (c ∷ line)
]

-- `s.lines()`
unfoldable pub lines : Text → List Text
unfolding lines_from
lines s = lines_from s []

unfoldable pub to_ascii_lowercase : ℕ → ℕ
to_ascii_lowercase c = if leb b'A' c && leb c b'Z' then c + 32 else c

-- `s.eq_ignore_ascii_case(t)`
unfoldable pub eq_ignore_ascii_case : Text → Text → Bool
unfolding to_ascii_lowercase
eq_ignore_ascii_case [] [] = true
eq_ignore_ascii_case [] (d ∷ t) = false
eq_ignore_ascii_case (c ∷ s) [] = false
eq_ignore_ascii_case (c ∷ s) (d ∷ t) =
    to_ascii_lowercase c == to_ascii_lowercase d && eq_ignore_ascii_case s t

-- `s == t`
unfoldable pub text_eq : Text → Text → Bool
text_eq [] [] = true
text_eq [] (d ∷ t) = false
text_eq (c ∷ s) [] = false
text_eq (c ∷ s) (d ∷ t) = c == d && text_eq s t

-- `s.is_empty()`
unfoldable pub is_empty {ℓ} : {A : Type ℓ} → List A → Bool
is_empty [] = true
is_empty (c ∷ s) = false
