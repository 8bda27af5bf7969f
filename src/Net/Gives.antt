-- ===== src/Net/Gives.antt =====
-- Computations that end in a value, and never in an error. `bad` is what is claimed where one panics or
-- never ends, as for the postconditions of Net.Post.
use multi_proxy.Net.{
  World, Outcome, done, fail, panic, hang, M, next, caught, from_result, prefixed,
}
use multi_proxy.Net.Post.{Post, IsDone}
use multi_proxy.Base.{Result, err, ok, Text, subst, sym, ◌≡◌}

abbrev pub Gives : {A : Type 0} → Type 0 → (A → Type 0) → Outcome A → Type 0
Gives bad P (done a) = P a
Gives bad P (fail e) = ⊥
Gives bad P panic = bad
Gives bad P hang = bad

abbrev pub IsOk : {A : Type 0} → (A → Type 0) → Result A → Type 0
IsOk P (ok a) = P a
IsOk P (err e) = Unit {0}

module _ (bad : Type 0) {A B : Type 0} (P : A → Type 0) (Q : B → Type 0) where
  pub next-Gives :
      (r : Outcome A × World) (f : A → M B)
      → Gives bad P r.0
      → ((a : A) → P a → Gives bad Q (f a r.1).0)
      → Gives bad Q (next r f).0
  next-Gives (done a, w) f h k = k a h
  next-Gives (fail e, w) f h k = absurd h
  next-Gives (panic, w) f h k = h
  next-Gives (hang, w) f h k = h

  pub attempt-Gives :
      (r : Outcome A × World) (f : Result A → M B)
      → Post bad P r.0
      → ((a : Result A) → IsOk P a → (w : World) → Gives bad Q (f a w).0)
      → Gives bad Q (next (caught r.0, r.1) f).0
  attempt-Gives (done a, w) f h k = k (ok a) h w
  attempt-Gives (fail e, w) f h k = k (err e) tt w
  attempt-Gives (panic, w) f h k = h
  attempt-Gives (hang, w) f h k = h

pub Gives-imp :
    {A : Type 0} (bad : Type 0) (P Q : A → Type 0) (o : Outcome A)
    → ((a : A) → P a → Q a)
    → Gives bad P o
    → Gives bad Q o
Gives-imp bad P Q (done a) f h = f a h
Gives-imp bad P Q (fail e) f h = h
Gives-imp bad P Q panic f h = h
Gives-imp bad P Q hang f h = h

pub Gives-Post :
    {A : Type 0} (bad : Type 0) (P : A → Type 0) (o : Outcome A) → Gives bad P o → Post bad P o
Gives-Post bad P (done a) h = h
Gives-Post bad P (fail e) h = tt
Gives-Post bad P panic h = h
Gives-Post bad P hang h = h

pub IsDone-Gives :
    {A : Type 0} (bad : Type 0) (P : A → Type 0) (o : Outcome A)
    → IsDone o
    → Post bad P o
    → Gives bad P o
IsDone-Gives bad P (done a) h k = k
IsDone-Gives bad P (fail e) h k = cc h.1
IsDone-Gives bad P panic h k = k
IsDone-Gives bad P hang h k = k

module _ (bad : Type 0) {A B : Type 0} (Q : B → Type 0) (f : A → M B) where
  pub from_result-Gives :
      (r : Result A) (a : A) (w : World)
      → r ≡ ok a
      → Gives bad Q (f a w).0
      → Gives bad Q (next (from_result r w) f).0
  from_result-Gives r a w e h = subst (λ x. Gives bad Q (next (from_result x w) f).0) (sym e) h

  -- A call that is known to succeed.
  pub done-Gives :
      (prefix : Text) (r : Outcome A × World) (a : A) (w : World)
      → r ≡ (done a, w)
      → Gives bad Q (f a w).0
      → Gives bad Q (next (prefixed prefix r.0, r.1) f).0
  done-Gives prefix r a w e h =
      subst (λ x. Gives bad Q (next (prefixed prefix x.0, x.1) f).0) (sym e) h
