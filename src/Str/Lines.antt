-- ===== src/Str/Lines.antt =====
-- What `lines` and `split_whitespace` find in a text that was put together.
use mathlib.Core.List.{reverse, reverse-cons}
use multi_proxy.Str.{
  lines, lines_from, split_whitespace, words_from, flush, unreturn, is_whitespace,
}
use multi_proxy.Str.Laws.{Lacks}
use multi_proxy.Str.Decimal.{to_string, to_string-digits, is_digit}
use multi_proxy.Base.{
  All, List, Text, [], ap, append-nil, append_assoc, arith, false, refl, sym, ℕ, ◌++◌, ◌==◌, ◌∙◌,
  ◌∷◌, ◌≡◌, ◌≢◌, All-imp, true,
}

-- The characters of a line, put before those that were read.
onto : Text → Text → Text
onto [] read = read
onto (c ∷ l) read = onto l (c ∷ read)

reverse-onto : (l read : Text) → reverse (onto l read) ≡ reverse read ++ l
unfolding onto
reverse-onto [] read = sym (append-nil (reverse read))
reverse-onto (c ∷ l) read =
    reverse-onto l (c ∷ read) ∙ rw reverse-cons (append_assoc (reverse read) (c ∷ []) l)

lines_from-append :
    (l s read : Text) → Lacks 10 l → lines_from (l ++ s) read ≡ lines_from s (onto l read)
unfolding lines_from onto
lines_from-append [] s read h = refl
lines_from-append (c ∷ l) s read h =
    let other : (c == 10) ≡ false = ground arith in
    rw (other, lines_from) (lines_from-append l s (c ∷ read) h.1)

-- A line that ends in CR LF, with the lines behind it.
pub lines-cons : (l s : Text) → Lacks 10 l → lines (l ++ 13 ∷ 10 ∷ s) ≡ l ∷ lines s
unfolding lines unreturn
lines-cons l s h =
    lines_from-append l (13 ∷ 10 ∷ s) [] h ∙ ap (λ t. t ∷ lines_from s []) (reverse-onto l [])

last_line : (read : Text) → read ≢ [] → lines_from [] read ≡ reverse read ∷ []
unfolding lines_from
last_line [] h = absurd (h refl)
last_line (c ∷ read) h = refl

onto-ne-nil : (c : ℕ) (l read : Text) → onto l (c ∷ read) ≢ []
unfolding onto
onto-ne-nil c [] read e = cc
onto-ne-nil c (d ∷ l) read e = onto-ne-nil d l (c ∷ read) e

-- The last line has no end of its own.
pub lines-single : (l : Text) → Lacks 10 l → l ≢ [] → lines l ≡ l ∷ []
unfolding lines onto
lines-single [] h full = absurd (full refl)
lines-single (c ∷ l) h full =
    ap lines (sym (append-nil (c ∷ l)))
    ∙ lines_from-append (c ∷ l) [] [] h
    ∙ last_line (onto l (c ∷ [])) (onto-ne-nil c l [])
    ∙ ap (λ t. t ∷ []) (reverse-onto (c ∷ l) [])

abbrev pub NoSpaces : Text → Type 0
NoSpaces = All (λ c. is_whitespace c ≡ false)

words_from-append :
    (l s word : Text) → NoSpaces l → words_from (l ++ s) word ≡ words_from s (word ++ l)
unfolding words_from
words_from-append [] s word h = ap (words_from s) (sym (append-nil word))
words_from-append (c ∷ l) s word h =
    rw (h.0, words_from)
      (words_from-append l s (word ++ c ∷ []) h.1
        ∙ ap (words_from s) (append_assoc word (c ∷ []) l))

flush-full : (word : Text) (ws : List Text) → word ≢ [] → flush word ws ≡ word ∷ ws
unfolding flush
flush-full [] ws h = absurd (h refl)
flush-full (c ∷ word) ws h = refl

-- A word with a space behind it, and the words after that.
pub split_whitespace-cons :
    (l s : Text) → NoSpaces l → l ≢ [] → split_whitespace (l ++ b' ' ∷ s) ≡ l ∷ split_whitespace s
unfolding split_whitespace
split_whitespace-cons l s h full =
    words_from-append l (b' ' ∷ s) [] h ∙ flush-full l (words_from s []) full

-- The last word of a text.
pub split_whitespace-single : (l : Text) → NoSpaces l → l ≢ [] → split_whitespace l ≡ l ∷ []
unfolding split_whitespace words_from
split_whitespace-single l h full =
    ap split_whitespace (sym (append-nil l)) ∙ words_from-append l [] [] h ∙ flush-full l [] full

pub to_string-NoSpaces : (n : ℕ) → NoSpaces (to_string n)
unfolding is_whitespace is_digit
to_string-NoSpaces n =
    All-imp (to_string n) (λ c (e : is_digit c ≡ true). ground arith) (to_string-digits n)
