-- ===== src/Net/Guarded.antt =====
-- Computations that keep what the SSH pool is to satisfy, with a postcondition of their value.
use multi_proxy.Net.{
  Env, World, SshPoolEntry, Reply, reply, no_reply, Outcome, done, fail, panic, hang, M, next,
  elapse, answer, ask, prefixed, from_result,
}
use multi_proxy.Net.Post.{Post, weaken-Post}
use multi_proxy.Base.{Option, Result, Text, err, ok, refl, ℕ, ◌≡◌}

module _ (Good : Option SshPoolEntry → Type 0) where
  -- The pool is good, and a value satisfies `P`.
  abbrev pub Safe : {A : Type 0} → (A → Type 0) → Outcome A × World → Type 0
  Safe P r = Good r.1.pool × Post (Unit {0}) P r.0

  pub next-Safe :
      {A B : Type 0} (P : A → Type 0) (Q : B → Type 0) (r : Outcome A × World) (f : A → M B)
      → Safe P r
      → ((a : A) → P a → (w : World) → Good w.pool → Safe Q (f a w))
      → Safe Q (next r f)
  next-Safe P Q (done a, w) f h k = k a h.1 w h.0
  next-Safe P Q (fail e, w) f h k = h
  next-Safe P Q (panic, w) f h k = h
  next-Safe P Q (hang, w) f h k = h

  pub weaken-Safe :
      {A : Type 0} (P Q : A → Type 0) (r : Outcome A × World)
      → ((a : A) → P a → Q a)
      → Safe P r
      → Safe Q r
  weaken-Safe P Q r f h = (h.0, weaken-Post (Unit {0}) P Q r.0 f h.1)

  pub prefixed-Safe :
      {A : Type 0} (P : A → Type 0) (p : Text) (r : Outcome A × World)
      → Safe P r
      → Safe P (prefixed p r.0, r.1)
  prefixed-Safe P p (done a, w) h = h
  prefixed-Safe P p (fail e, w) h = h
  prefixed-Safe P p (panic, w) h = h
  prefixed-Safe P p (hang, w) h = h

  pub from_result-Safe :
      {A : Type 0} (o : Result A) (w : World) → Good w.pool → Safe (λ a. o ≡ ok a) (from_result o w)
  from_result-Safe (ok a) w h = (h, refl)
  from_result-Safe (err e) w h = (h, tt)

  module _ (env : Env)
      (keep : (n : ℕ) (p : Option SshPoolEntry) → Good p → Good ((env.meanwhile n).pool p)) where
    pub elapse-Good : (d : ℕ) (w : World) → Good w.pool → Good (elapse env d w).pool
    unfolding elapse
    elapse-Good d w h = keep w.awaits w.pool h

    answer-Safe :
        {A : Type 0} (call : ℕ → Reply A) (n : ℕ) (r : Reply A) (w : World)
        → call n ≡ r
        → Good w.pool
        → Safe (λ a. (n : ℕ) × (d : ℕ) × (call n ≡ reply d (ok a))) (answer env r w)
    unfolding answer
    answer-Safe call n (reply d (ok a)) w e h = (elapse-Good d w h, (n, d, e))
    answer-Safe call n (reply d (err t)) w e h = (elapse-Good d w h, tt)
    answer-Safe call n no_reply w e h = (h, tt)

    pub ask-Safe :
        {A : Type 0} (call : ℕ → Reply A) (w : World)
        → Good w.pool
        → Safe (λ a. (n : ℕ) × (d : ℕ) × (call n ≡ reply d (ok a))) (ask env call w)
    unfolding ask
    ask-Safe call w h = answer-Safe call w.awaits (call w.awaits) w refl h
