-- ===== src/Str/Laws.antt =====
-- What the searches find.
use multi_proxy.Base.{
  ℕ, zero, suc, true, none, some, [], ◌∷◌, ◌++◌, ◌≡◌, ◌≢◌, refl, Text, All, arith, length, take,
  drop,
}
use multi_proxy.Str.{find, rfind, starts_with, text_eq}

abbrev pub Lacks : ℕ → Text → Type 0
Lacks b = All (λ c. c ≢ b)

pub starts_with-append : (p s : Text) → starts_with (p ++ s) p ≡ true
unfolding starts_with
starts_with-append [] s = refl
starts_with-append (c ∷ p) s = ground (arith, starts_with-append p s)

-- `find` cuts a text at its first separator.
pub find-append : (s t : Text) (c : ℕ) → Lacks c s → find (s ++ c ∷ t) c ≡ some (length s)
unfolding find
find-append [] t c h = ground arith
find-append (x ∷ s) t c h = ground (arith, find-append s t c h.1)

pub find-Lacks : (s : Text) (c : ℕ) → Lacks c s → find s c ≡ none
unfolding find
find-Lacks [] c h = refl
find-Lacks (x ∷ s) c h = ground (arith, find-Lacks s c h.1)

-- `rfind` cuts a text at its last separator.
pub rfind-Lacks : (s : Text) (c : ℕ) → Lacks c s → rfind s c ≡ none
unfolding rfind
rfind-Lacks [] c h = refl
rfind-Lacks (x ∷ s) c h = ground (arith, rfind-Lacks s c h.1)

pub rfind-append : (s t : Text) (c : ℕ) → Lacks c t → rfind (s ++ c ∷ t) c ≡ some (length s)
unfolding rfind
rfind-append [] t c h = ground (arith, rfind-Lacks t c h)
rfind-append (x ∷ s) t c h = ground (arith, rfind-append s t c h)

-- What is found is there: the text is what stands before it, itself, and what stands behind it.
pub find_sound :
    (s : Text) (c i : ℕ)
    → find s c ≡ some i
    → (s ≡ take i s ++ c ∷ drop (suc i) s) × Lacks c (take i s)
unfolding find
find_sound [] c i e = ground arith
find_sound (x ∷ s) c zero e = ground arith
find_sound (x ∷ s) c (suc i) e = ground (arith, find_sound s c i)

pub rfind-none : (s : Text) (c : ℕ) → rfind s c ≡ none → Lacks c s
unfolding rfind
rfind-none [] c e = tt
rfind-none (x ∷ s) c e = ground (arith, rfind-none s c)

pub rfind_sound :
    (s : Text) (c i : ℕ)
    → rfind s c ≡ some i
    → (s ≡ take i s ++ c ∷ drop (suc i) s) × Lacks c (drop (suc i) s)
unfolding rfind
rfind_sound [] c i e = ground arith
rfind_sound (x ∷ s) c zero e = ground (arith, rfind-none s c)
rfind_sound (x ∷ s) c (suc i) e = ground (arith, rfind_sound s c i)

pub text_eq_iff : (s t : Text) → text_eq s t ≡ true → s ≡ t
unfolding text_eq
text_eq_iff [] [] h = refl
text_eq_iff [] (d ∷ t) h = ground arith
text_eq_iff (c ∷ s) [] h = ground arith
text_eq_iff (c ∷ s) (d ∷ t) h = ground (arith, text_eq_iff s t)

pub text_eq_self : (s : Text) → text_eq s s ≡ true
unfolding text_eq
text_eq_self [] = refl
text_eq_self (c ∷ s) = ground (arith, text_eq_self s)
