-- ===== src/Base/Lists.antt =====
-- Vectors: lists measured and indexed by native numbers, under the library's names.
use Prim.Native.Nat.{ℕ, zero, suc, ◌+◌, ◌-◌, ◌≤◌, min}
use mathlib.Core.Path.{◌≡◌, refl, ap}
use mathlib.Core.Logic.{◌≢◌}
use mathlib.Core.List.{List, [], ◌∷◌, ◌++◌, map}
use mathlib.Core.Option
use mathlib.Core.Option.{Option, none, some}
use native.Mathlib.Omega.{arith}

module _ {ℓ} {A : Type ℓ} where
  abbrev pub length : List A → ℕ
  length [] = 0
  length (x ∷ xs) = suc (length xs)

  abbrev pub get_elem? : List A → ℕ → Option A
  get_elem? [] i = none
  get_elem? (x ∷ xs) zero = some x
  get_elem? (x ∷ xs) (suc i) = get_elem? xs i

  abbrev pub take : ℕ → List A → List A
  take zero xs = []
  take (suc n) [] = []
  take (suc n) (x ∷ xs) = x ∷ take n xs

  abbrev pub drop : ℕ → List A → List A
  drop zero xs = xs
  drop (suc n) [] = []
  drop (suc n) (x ∷ xs) = drop n xs

  -- `if let Some(x) = xs.get_mut(i) { *x = f(x) }`: nothing happens out of range.
  abbrev pub modify : (A → A) → ℕ → List A → List A
  modify f i [] = []
  modify f zero (x ∷ xs) = f x ∷ xs
  modify f (suc i) (x ∷ xs) = x ∷ modify f i xs

  pub length-append : (xs ys : List A) → length (xs ++ ys) ≡ length xs + length ys
  length-append [] ys = omega arith
  length-append (x ∷ xs) ys = omega (arith, length-append xs ys)

  pub take-append-drop : (n : ℕ) (xs : List A) → take n xs ++ drop n xs ≡ xs
  take-append-drop zero xs = refl
  take-append-drop (suc n) [] = refl
  take-append-drop (suc n) (x ∷ xs) = ap (λ ys. x ∷ ys) (take-append-drop n xs)

  -- What is cut off inside the first of two lists.
  pub take-append_of_le : (n : ℕ) (xs ys : List A) → n ≤ length xs → take n (xs ++ ys) ≡ take n xs
  take-append_of_le zero xs ys h = refl
  take-append_of_le (suc n) [] ys h = absurd (omega arith)
  take-append_of_le (suc n) (x ∷ xs) ys h =
      ap (λ zs. x ∷ zs) (take-append_of_le n xs ys (omega arith))

  pub drop-append_of_le :
      (n : ℕ) (xs ys : List A) → n ≤ length xs → drop n (xs ++ ys) ≡ drop n xs ++ ys
  drop-append_of_le zero xs ys h = refl
  drop-append_of_le (suc n) [] ys h = absurd (omega arith)
  drop-append_of_le (suc n) (x ∷ xs) ys h = drop-append_of_le n xs ys (omega arith)

  pub length-take : (n : ℕ) (xs : List A) → length (take n xs) ≡ min n (length xs)
  length-take zero xs = omega arith
  length-take (suc n) [] = omega arith
  length-take (suc n) (x ∷ xs) = omega (arith, length-take n xs)

  pub length-drop : (n : ℕ) (xs : List A) → length (drop n xs) ≡ length xs - n
  length-drop zero xs = omega arith
  length-drop (suc n) [] = omega arith
  length-drop (suc n) (x ∷ xs) = omega (arith, length-drop n xs)

  pub take-length-append : (xs ys : List A) → take (length xs) (xs ++ ys) ≡ xs
  take-length-append [] ys = refl
  take-length-append (x ∷ xs) ys = ap (λ zs. x ∷ zs) (take-length-append xs ys)

  pub drop-length-append : (xs ys : List A) → drop (length xs) (xs ++ ys) ≡ ys
  drop-length-append [] ys = refl
  drop-length-append (x ∷ xs) ys = drop-length-append xs ys

  pub take-all : (n : ℕ) (xs : List A) → length xs ≤ n → take n xs ≡ xs
  take-all zero [] h = refl
  take-all zero (x ∷ xs) h = absurd (omega arith)
  take-all (suc n) [] h = refl
  take-all (suc n) (x ∷ xs) h = ap (λ ys. x ∷ ys) (take-all n xs (omega arith))

  pub drop-all : (n : ℕ) (xs : List A) → length xs ≤ n → drop n xs ≡ []
  drop-all zero [] h = refl
  drop-all zero (x ∷ xs) h = absurd (omega arith)
  drop-all (suc n) [] h = refl
  drop-all (suc n) (x ∷ xs) h = drop-all n xs (omega arith)

  -- What stands behind the first list and one more element.
  pub drop-length-append_succ :
      (xs : List A) (x : A) (ys : List A) → drop (length xs + 1) (xs ++ x ∷ ys) ≡ ys
  drop-length-append_succ xs x ys =
      let past : length xs + 1 ≡ suc (length xs) = omega arith in rw past (drop_past xs)
    where
      drop_past : (zs : List A) → drop (suc (length zs)) (zs ++ x ∷ ys) ≡ ys
      drop_past [] = refl
      drop_past (z ∷ zs) = drop_past zs

module _ {ℓ κ} {A : Type ℓ} {B : Type κ} (f : A → B) where
  pub length-map : (xs : List A) → length (map f xs) ≡ length xs
  length-map [] = refl
  length-map (x ∷ xs) = ap suc (length-map xs)

  pub map-take : (k : ℕ) (xs : List A) → map f (take k xs) ≡ take k (map f xs)
  map-take zero xs = refl
  map-take (suc k) [] = refl
  map-take (suc k) (x ∷ xs) = ap (λ ys. f x ∷ ys) (map-take k xs)

  pub map-drop : (k : ℕ) (xs : List A) → map f (drop k xs) ≡ drop k (map f xs)
  map-drop zero xs = refl
  map-drop (suc k) [] = refl
  map-drop (suc k) (x ∷ xs) = map-drop k xs

module _ {ℓ} {A : Type ℓ} (f : A → A) where
  pub length-modify : (i : ℕ) (xs : List A) → length (modify f i xs) ≡ length xs
  length-modify i [] = refl
  length-modify zero (x ∷ xs) = refl
  length-modify (suc i) (x ∷ xs) = ap suc (length-modify i xs)

  pub get_elem?-modify :
      (i : ℕ) (xs : List A) → get_elem? (modify f i xs) i ≡ Option.map f (get_elem? xs i)
  get_elem?-modify i [] = refl
  get_elem?-modify zero (x ∷ xs) = refl
  get_elem?-modify (suc i) (x ∷ xs) = get_elem?-modify i xs

  pub get_elem?-modify_self :
      (i : ℕ) (xs : List A) {x : A}
      → get_elem? xs i ≡ some x
      → get_elem? (modify f i xs) i ≡ some (f x)
  get_elem?-modify_self i [] h = ground arith
  get_elem?-modify_self zero (x ∷ xs) h = ground arith
  get_elem?-modify_self (suc i) (x ∷ xs) h = get_elem?-modify_self i xs h

  pub get_elem?-modify_ne :
      (i j : ℕ) (xs : List A) → i ≢ j → get_elem? (modify f i xs) j ≡ get_elem? xs j
  get_elem?-modify_ne i j [] h = refl
  get_elem?-modify_ne zero zero (x ∷ xs) h = absurd (h refl)
  get_elem?-modify_ne zero (suc j) (x ∷ xs) h = refl
  get_elem?-modify_ne (suc i) zero (x ∷ xs) h = refl
  get_elem?-modify_ne (suc i) (suc j) (x ∷ xs) h = get_elem?-modify_ne i j xs (λ e. h (ap suc e))

  -- What `f` keeps, the write keeps at every position.
  pub map-modify {κ} :
      {B : Type κ} (g : A → B)
      → ((x : A) → g (f x) ≡ g x)
      → (i : ℕ) (xs : List A) → map g (modify f i xs) ≡ map g xs
  map-modify g same i [] = refl
  map-modify g same zero (x ∷ xs) = ap (λ b. b ∷ map g xs) (same x)
  map-modify g same (suc i) (x ∷ xs) = ap (λ bs. g x ∷ bs) (map-modify g same i xs)

module _ {ℓ κ} {A : Type ℓ} (P : A → Type κ) where
  abbrev pub All : List A → Type κ
  All [] = Unit
  All (x ∷ xs) = P x × All xs

  pub All-append : (xs ys : List A) → All xs → All ys → All (xs ++ ys)
  All-append [] ys _ hy = hy
  All-append (x ∷ xs) ys (px, hx) hy = (px, All-append xs ys hx hy)

-- What holds of each image, in terms of the elements.
pub All-of_map {ℓ κ μ} :
    {A : Type ℓ} {B : Type κ} (P : B → Type μ) (f : A → B) (xs : List A)
    → All P (map f xs)
    → All (λ x. P (f x)) xs
All-of_map P f [] h = h
All-of_map P f (x ∷ xs) h = (h.0, All-of_map P f xs h.1)

pub All-imp {ℓ κ μ} :
    {A : Type ℓ} {P : A → Type κ} {Q : A → Type μ} (xs : List A)
    → ((x : A) → P x → Q x)
    → All P xs
    → All Q xs
All-imp [] f h = tt
All-imp (x ∷ xs) f h = (f x h.0, All-imp xs f h.1)

pub All-map {ℓ κ μ} :
    {A B : Type ℓ} (P : A → Type κ) (Q : B → Type μ) (f : A → B) (xs : List A)
    → ((x : A) → P x → Q (f x))
    → All P xs
    → All Q (map f xs)
All-map P Q f [] keeps h = tt
All-map P Q f (x ∷ xs) keeps h = (keeps x h.0, All-map P Q f xs keeps h.1)

-- A list is determined by what stands at each index.
pub get_elem?-ext {ℓ} :
    {A : Type ℓ} (xs ys : List A) → ((i : ℕ) → get_elem? xs i ≡ get_elem? ys i) → xs ≡ ys
get_elem?-ext [] [] h = refl
get_elem?-ext [] (y ∷ ys) h = cc (h 0)
get_elem?-ext (x ∷ xs) [] h = cc (h 0)
get_elem?-ext (x ∷ xs) (y ∷ ys) h = cc (h 0, get_elem?-ext xs ys (λ i. h (suc i)))
