-- ===== src/Str/Trimmed.antt =====
-- Texts that `trim` leaves as they are.
use mathlib.Core.List.{reverse, reverse-cons, reverse-append, reverse-reverse}
use multi_proxy.Str.{trim, trim_start, is_whitespace}
use multi_proxy.Str.Lines.{NoSpaces}
use multi_proxy.Base.{
  Text, [], ap, false, refl, sym, ◌++◌, ◌∙◌, ◌∷◌, ◌≡◌, ◌≢◌, append_assoc, subst, All-append,
}

abbrev pub StartsFull : Text → Type 0
StartsFull [] = Unit {0}
StartsFull (c ∷ s) = is_whitespace c ≡ false

-- There is no white space at either end.
pub record IsTrimmed (s : Text) : Type 0 where
  pub front : StartsFull s
  pub back : StartsFull (reverse s)

pub trim_start-StartsFull : (s : Text) → StartsFull s → trim_start s ≡ s
unfolding trim_start
trim_start-StartsFull [] h = refl
trim_start-StartsFull (c ∷ s) h = rw h refl

pub trim-IsTrimmed : (s : Text) → IsTrimmed s → trim s ≡ s
unfolding trim
trim-IsTrimmed s h =
    ap (λ t. reverse (trim_start (reverse t))) (trim_start-StartsFull s h.front)
    ∙ ap reverse (trim_start-StartsFull (reverse s) h.back)
    ∙ reverse-reverse s

pub StartsFull-append : (s t : Text) → s ≢ [] → StartsFull s → StartsFull (s ++ t)
StartsFull-append [] t full h = absurd (full refl)
StartsFull-append (c ∷ s) t full h = h

reverse-ne-nil : (s : Text) → s ≢ [] → reverse s ≢ []
reverse-ne-nil s full e = full (sym (reverse-reverse s) ∙ ap reverse e)

-- Two full texts with anything between them.
pub IsTrimmed-append :
    (s m t : Text) → s ≢ [] → t ≢ [] → IsTrimmed s → IsTrimmed t → IsTrimmed (s ++ (m ++ t))
IsTrimmed-append s m t full full' h h' = record {
  front = StartsFull-append s (m ++ t) full h.front;
  back =
      subst StartsFull
        (sym (
          reverse-append s (m ++ t)
          ∙ ap (λ u. u ++ reverse s) (reverse-append m t)
          ∙ append_assoc (reverse t) (reverse m) (reverse s)))
        (StartsFull-append (reverse t) (reverse m ++ reverse s) (reverse-ne-nil t full') h'.back);
}

-- A space in front is trimmed away.
pub trim-space : (s : Text) → IsTrimmed s → trim (b' ' ∷ s) ≡ s
unfolding trim trim_start
trim-space s h = trim-IsTrimmed s h

reverse-NoSpaces : (s : Text) → NoSpaces s → NoSpaces (reverse s)
reverse-NoSpaces [] h = tt
reverse-NoSpaces (c ∷ s) h = subst NoSpaces (sym (reverse-cons c s)) (
    All-append (λ d. is_whitespace d ≡ false) (reverse s) (c ∷ []) (reverse-NoSpaces s h.1)
      (h.0, tt))

NoSpaces-StartsFull : (s : Text) → NoSpaces s → StartsFull s
NoSpaces-StartsFull [] h = tt
NoSpaces-StartsFull (c ∷ s) h = h.0

pub NoSpaces-IsTrimmed : (s : Text) → NoSpaces s → IsTrimmed s
NoSpaces-IsTrimmed s h = record {
  front = NoSpaces-StartsFull s h;
  back = NoSpaces-StartsFull (reverse s) (reverse-NoSpaces s h);
}
