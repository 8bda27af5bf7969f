-- ===== src/Health/Joins.antt =====
-- What joining the ends of the probes makes of the channels, in any order.
use mathlib.Core.List.{Permᴰ}
use mathlib.Core.Option
use multi_proxy.Manager
use multi_proxy.Manager.{ChannelManager}
use multi_proxy.Manager.Laws.{IsIndexed}
use multi_proxy.Net.{Env, World, elapse}
use multi_proxy.Health.{Completion, record_health, join_all}
use multi_proxy.Health.Schedule.{
  completion_of, Distinct, verdict, record_health_self, record_health_other,
}
use multi_proxy.Base.{
  Bool-cases, List, [], arith, false, get_elem?, inl, inr, refl, some, ℕ, ◌∷◌, ◌≡◌, ap, none, ◌==◌,
  ◌∙◌, if◌then◌else◌, subst, sym, ◌≤◌, ==_iff, ◌-◌,
}

swapped :
    (a b : Completion) (l : List Completion)
    → Distinct (a ∷ b ∷ l)
    → Distinct (b ∷ a ∷ l) × ((k : ℕ) → completion_of k (b ∷ a ∷ l) ≡ completion_of k (a ∷ b ∷ l))
unfolding completion_of
swapped a b l d = elim (Bool-cases (b.id == a.id)) [
  | inl same ↦ absurd (ground arith)
  | inr apart ↦
      let apart' : (a.id == b.id) ≡ false = ground arith in
      let none_a : completion_of a.id l ≡ none = ground arith in
      ((rw apart' d.1.0, (none_a, d.1.1)), λ k. ground arith)
]

-- A permutation of ends that are all distinct has the same end for each channel.
pub permuted :
    {cs ds : List Completion}
    → Permᴰ cs ds
    → Distinct ds
    → Distinct cs × ((k : ℕ) → completion_of k cs ≡ completion_of k ds)
unfolding completion_of
permuted Permᴰ.nil d = (tt, λ k. refl)
permuted (Permᴰ.cons {a} {b} {l₁} {l₂} e h) d =
    let (distinct, same) = permuted h d.1 in
    (
      (ap (λ (c : Completion). completion_of c.id l₁) e ∙ same b.id ∙ d.0, distinct),
      λ k.
          ap (λ (c : Completion). if c.id == k then some c else completion_of k l₁) e
          ∙ ap (λ o. if b.id == k then some b else o) (same k),
    )
permuted (Permᴰ.swap {a} {b} {a'} {b'} {l} e f) d =
    subst
      (λ x.
        Distinct (x ∷ b ∷ l)
        × ((k : ℕ) → completion_of k (x ∷ b ∷ l) ≡ completion_of k (a' ∷ b' ∷ l)))
      (sym e)
      (subst
        (λ y.
          Distinct (b' ∷ y ∷ l)
          × ((k : ℕ) → completion_of k (b' ∷ y ∷ l) ≡ completion_of k (a' ∷ b' ∷ l)))
        (sym f) (swapped a' b' l d))
permuted (Permᴰ.trans h k) d =
    let (distinct, same) = permuted k d in
    let (distinct', same') = permuted h distinct in (distinct', λ j. same' j ∙ same j)

later_now : (env : Env) (d : ℕ) (w : World) → w.now ≤ (elapse env d w).now
unfolding elapse
later_now env d w = omega arith

-- No other task marks a channel meanwhile.
abbrev pub IsCalm : Env → Type 0
IsCalm env = (n : ℕ) → (env.meanwhile n).events ≡ []

module _ (env : Env) (calm : IsCalm env) where
  same_manager : (d : ℕ) (w : World) → (elapse env d w).manager ≡ w.manager
  unfolding elapse Manager.Laws.marks
  same_manager d w = rw (calm w.awaits) refl

  abbrev joined : Completion → World → World
  joined c w =
      let w1 = elapse env (c.now - w.now) w in
      record w1 { manager = record_health c.id w1.now c.healthy w1.manager }

  joined-other :
      (c : Completion) (k : ℕ) (w : World)
      → (c.id == k) ≡ false
      → get_elem? (joined c w).manager.channels k ≡ get_elem? w.manager.channels k
  joined-other c k w other =
      record_health_other c.id k (elapse env (c.now - w.now) w).now c.healthy
        (elapse env (c.now - w.now) w).manager (λ e. cc ((==_iff c.id k).1 e))
      ∙ ap (λ (m : ChannelManager). get_elem? m.channels k) (same_manager (c.now - w.now) w)

  joined-own :
      (c : Completion) (k : ℕ) (w : World)
      → c.id ≡ k
      → get_elem? (joined c w).manager.channels k
        ≡ Option.map
            (verdict (elapse env (c.now - w.now) w).now c.healthy)
            (get_elem? w.manager.channels k)
  joined-own c k w own =
      subst
        (λ j.
          get_elem? (joined c w).manager.channels j
          ≡ Option.map (verdict (elapse env (c.now - w.now) w).now c.healthy)
              (get_elem? w.manager.channels j))
        own
        (record_health_self c.id (elapse env (c.now - w.now) w).now c.healthy
            (elapse env (c.now - w.now) w).manager
          ∙ ap
              (λ (m : ChannelManager).
                Option.map (verdict (elapse env (c.now - w.now) w).now c.healthy)
                  (get_elem? m.channels c.id))
              (same_manager (c.now - w.now) w))

  join_all-other :
      (cs : List Completion) (k : ℕ) (w : World)
      → completion_of k cs ≡ none
      → get_elem? (join_all env cs w).1.manager.channels k ≡ get_elem? w.manager.channels k
  unfolding join_all completion_of
  join_all-other [] k w e = refl
  join_all-other (c ∷ cs) k w e = elim (Bool-cases (c.id == k)) [
    | inl own ↦ ground arith
    | inr other ↦ join_all-other cs k (joined c w) (ground arith) ∙ joined-other c k w other
  ]

  -- The channel gets the verdict of the end of its probe, at the time when that is joined.
  pub join_all-own :
      (cs : List Completion) (k : ℕ) (p : Completion) (w : World)
      → Distinct cs
      → completion_of k cs ≡ some p
      → (t : ℕ) × (w.now ≤ t)
        × (get_elem? (join_all env cs w).1.manager.channels k
            ≡ Option.map (verdict t p.healthy) (get_elem? w.manager.channels k))
  unfolding join_all completion_of
  join_all-own [] k p w d e = ground arith
  join_all-own (c ∷ cs) k p w d e = elim (Bool-cases (c.id == k)) [
    | inl own ↦
        let same : c.id ≡ k = (==_iff c.id k).0 own in
        let mine : c ≡ p = ground arith in
        let later : completion_of k cs ≡ none = rw same at d.0 in
        (
          (elapse env (c.now - w.now) w).now,
          later_now env (c.now - w.now) w,
          rw (← mine) (join_all-other cs k (joined c w) later ∙ joined-own c k w same),
        )
    | inr other ↦
        let (t, le, given) = join_all-own cs k p (joined c w) d.1 (ground arith) in
        (
          t,
          omega (arith, later_now env (c.now - w.now) w),
          given ∙ ap (Option.map (verdict t p.healthy)) (joined-other c k w other),
        )
  ]
