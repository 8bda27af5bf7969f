-- ===== src/Proxy/Http/Position.antt =====
-- `position` finds the first occurrence of a pattern.
use mathlib.Core.Option
use native.Mathlib.Nat.{zero-add, suc-add}
use multi_proxy.Str.{starts_with}
use multi_proxy.Proxy.Http.{position}
use multi_proxy.Base.{
  Bool-cases, Bytes, Option, [], arith, drop, inl, inr, length, none, refl, some, subst, suc, take,
  true, ℕ, ◌++◌, ◌+◌, ◌∷◌, ◌≡◌, ◌≤◌, ap, ◌<◌,
}

starts_with_split : (s p : Bytes) → starts_with s p ≡ true → s ≡ p ++ drop (length p) s
unfolding starts_with
starts_with_split s [] h = refl
starts_with_split [] (p ∷ ps) h = ground arith
starts_with_split (c ∷ s) (p ∷ ps) h = ground (arith, starts_with_split s ps)

-- A pattern that fits into the front of a text is found there or not at all.
starts_with-append_of_le :
    (s t p : Bytes) → length p ≤ length s → starts_with (s ++ t) p ≡ starts_with s p
unfolding starts_with
starts_with-append_of_le s t [] h = refl
starts_with-append_of_le [] t (p ∷ ps) h = absurd (omega arith)
starts_with-append_of_le (c ∷ s) t (p ∷ ps) h = ground (arith, starts_with-append_of_le s t ps)

starts_with-le : (s p : Bytes) → starts_with s p ≡ true → length p ≤ length s
unfolding starts_with
starts_with-le s [] h = omega arith
starts_with-le [] (p ∷ ps) h = ground arith
starts_with-le (c ∷ s) (p ∷ ps) h = ground (arith, starts_with-le s ps)

map-some {ℓ κ} :
    {A : Type ℓ} {B : Type κ} (f : A → B) (o : Option A) {b : B}
    → Option.map f o ≡ some b
    → (a : A) × (o ≡ some a) × (b ≡ f a)
map-some f none h = cc
map-some f (some a) h = (a, refl, cc)

pub position-le : (p s : Bytes) (i : ℕ) → position p s ≡ some i → i + length p ≤ length s
unfolding position
position-le p [] i h = ground arith
position-le p (b ∷ s) i h = elim (Bool-cases (starts_with (b ∷ s) p)) [
  | inl here ↦ ground (arith, starts_with-le (b ∷ s) p here)
  | inr later ↦
      let shifted : Option.map suc (position p s) ≡ some i = rw later at h in
      let (j, found, same) = map-some suc (position p s) shifted in
      omega (arith, position-le p s j found)
]

-- What stands before the occurrence, the pattern, and what stands behind it are the whole text.
pub position_split :
    (p s : Bytes) (i : ℕ) → position p s ≡ some i → s ≡ take i s ++ (p ++ drop (i + length p) s)
unfolding position
position_split p [] i h = ground arith
position_split p (b ∷ s) i h = elim (Bool-cases (starts_with (b ∷ s) p)) [
  | inl here ↦
      let first : 0 ≡ i = ground arith in
      subst (λ k. (b ∷ s) ≡ take k (b ∷ s) ++ (p ++ drop (k + length p) (b ∷ s))) first
        (rw zero-add (starts_with_split (b ∷ s) p here))
  | inr later ↦
      let shifted : Option.map suc (position p s) ≡ some i = rw later at h in
      let (j, found, same) = map-some suc (position p s) shifted in
      rw same (rw suc-add (ap (λ u. b ∷ u) (position_split p s j found)))
]

-- More text behind a text with an occurrence does not move its first occurrence.
pub position-append : (p s t : Bytes) (i : ℕ) → position p s ≡ some i → position p (s ++ t) ≡ some i
unfolding position
position-append p [] t i h = ground arith
position-append p (b ∷ s) t i h =
    let whole = position-le p (b ∷ s) i h in
    let same = starts_with-append_of_le (b ∷ s) t p (omega arith) in
    elim (Bool-cases (starts_with (b ∷ s) p)) [
      | inl here ↦ rw (same, here) (ground arith)
      | inr later ↦
          let shifted : Option.map suc (position p s) ≡ some i = rw later at h in
          let (j, found, e) = map-some suc (position p s) shifted in
          rw (same, later) (rw (position-append p s t j found) (cc))
    ]

-- An occurrence that fits into the front of a text is found in the front alone.
pub position-prefix :
    (p s t : Bytes) (i : ℕ)
    → 0 < length p
    → position p (s ++ t) ≡ some i
    → i + length p ≤ length s
    → position p s ≡ some i
unfolding position
position-prefix p [] t i full h le = absurd (omega arith)
position-prefix p (b ∷ s) t i full h le =
    let same = starts_with-append_of_le (b ∷ s) t p (omega arith) in
    elim (Bool-cases (starts_with (b ∷ s) p)) [
      | inl here ↦ ground arith
      | inr later ↦
          let shifted : Option.map suc (position p (s ++ t)) ≡ some i = rw (same, later) at h in
          let (j, found, e) = map-some suc (position p (s ++ t)) shifted in
          rw later (rw (position-prefix p s t j full found (omega arith)) (cc))
    ]
