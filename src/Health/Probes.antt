-- ===== src/Health/Probes.antt =====
-- What a check makes of the channels, from what the network answers.
use mathlib.Core.List.{Permᴰ}
use mathlib.Core.Option
use multi_proxy.Channel
use multi_proxy.Channel.{Channel}
use multi_proxy.Dsn.{Dsn, http, socks5, ssh}
use multi_proxy.Manager.Laws.{IsIndexed}
use multi_proxy.Net.{Env, World, Dial, accepted, refused, unanswered, Outcome, done, connect}
use multi_proxy.Proxy.Http.{host_port}
use multi_proxy.Health.{
  Completion, probe, check_channel, spawn, spawn_all, check_round, answered, probe_result,
}
use multi_proxy.Health.Schedule.{completion_of, Distinct, verdict}
use multi_proxy.Base.{
  Bool, Bool-cases, List, Text, [], arith, false, get_elem?, inl, inr, leb, refl, some, suc, zero,
  ℕ, ◌+◌, ◌∷◌, ◌≡◌, ap, none, true, ◌<◌, ◌==◌, ◌∙◌, ◌≤◌,
}
use multi_proxy.Health.Joins.{IsCalm, permuted, join_all-own}

-- The address that a probe of a channel connects to.
abbrev pub address : Dsn → Text
address (http d) = host_port d.host d.port
address (socks5 d) = host_port d.host d.port
address (ssh d) = host_port d.host d.port

-- Does the peer accept within the limit?
abbrev pub in_time : ℕ → Dial → Bool
in_time limit (accepted d s) = leb d limit
in_time limit (refused d e) = false
in_time limit unanswered = false

abbrev Probed : ℕ → Dial → Outcome Bool × World → Type 0
Probed limit a r = r.0 ≡ done (in_time limit a)

module _ (env : Env) where
  probe-in_time :
      (host : Text) (port limit : ℕ) (a : Dial) (w : World)
      → env.dial w.awaits (host_port host port) ≡ a
      → (probe env host port limit w).0 ≡ done (in_time limit a)
  unfolding probe connect answered
  probe-in_time host port limit (accepted d s) w e = elim (Bool-cases (leb d limit)) [
    | inl soon ↦ rw (e, soon)
    | inr late ↦ rw (e, late)
  ]
  probe-in_time host port limit (refused d t) w e = elim (Bool-cases (leb d limit)) [
    | inl soon ↦ rw (e, soon)
    | inr late ↦ rw (e, late)
  ]
  probe-in_time host port limit unanswered w e = rw e

  check_channel-in_time :
      (dsn : Dsn) (limit : ℕ) (w : World)
      → (check_channel env dsn limit w).0 ≡ done (in_time limit (env.dial w.awaits (address dsn)))
  unfolding check_channel
  check_channel-in_time (http d) limit w = probe-in_time d.host d.port limit _ w refl
  check_channel-in_time (socks5 d) limit w = probe-in_time d.host d.port limit _ w refl
  check_channel-in_time (ssh d) limit w = probe-in_time d.host d.port limit _ w refl

  -- The ids of the ends are those of the channels.
  completion_of-spawn_all_lt :
      (limit i k : ℕ) (cs : List Channel) (w : World)
      → IsIndexed i cs
      → k < i
      → completion_of k (spawn_all env limit cs w) ≡ none
  unfolding spawn_all spawn completion_of
  completion_of-spawn_all_lt limit i k [] w ids lt = refl
  completion_of-spawn_all_lt limit i k (x ∷ cs) w ids lt =
      let other : (x.id == k) ≡ false = ground arith in
      rw other (completion_of-spawn_all_lt limit (suc i) k cs _ ids.1 (omega arith))

  spawn_all-Distinct :
      (limit i : ℕ) (cs : List Channel) (w : World)
      → IsIndexed i cs
      → Distinct (spawn_all env limit cs w)
  unfolding spawn_all spawn
  spawn_all-Distinct limit i [] w ids = tt
  spawn_all-Distinct limit i (x ∷ cs) w ids = (
    completion_of-spawn_all_lt limit (suc i) x.id cs _ ids.1 (omega (arith, ids.0)),
    spawn_all-Distinct limit (suc i) cs _ ids.1,
  )

  -- The end of a channel's own probe is found under its id.
  completion_of-spawn_all :
      (limit i j k n : ℕ) (cs : List Channel) (c : Channel) (w : World)
      → IsIndexed i cs
      → get_elem? cs j ≡ some c
      → k ≡ i + j
      → n ≡ w.awaits + j
      → (p : Completion) × (completion_of k (spawn_all env limit cs w) ≡ some p)
        × (p.healthy ≡ some (in_time limit (env.dial n (address c.dsn))))
  unfolding spawn_all spawn completion_of probe_result
  completion_of-spawn_all limit i j k n [] c w ids e at_k at_n = ground arith
  completion_of-spawn_all limit i zero k n (x ∷ cs) c w ids e at_k at_n =
      let own : (x.id == k) ≡ true = ground arith in
      let same : x ≡ c = cc in
      let turn : w.awaits ≡ n = omega arith in
      rw own (
        spawn env limit x w,
        refl,
        (ap probe_result (check_channel-in_time x.dsn limit w)
            ∙ ap (λ m. some (in_time limit (env.dial m (address x.dsn)))) turn
            ∙ ap (λ (y : Channel). some (in_time limit (env.dial n (address y.dsn)))) same),
      )
  completion_of-spawn_all limit i (suc j) k n (x ∷ cs) c w ids e at_k at_n =
      let other : (x.id == k) ≡ false = ground arith in
      rw other
        (completion_of-spawn_all limit (suc i) j k n cs c _ ids.1 e (omega arith) (omega arith))

-- What a probe finds.
abbrev pub Found : Bool → ℕ → Channel → Channel
Found true t c = Channel.mark_healthy t c
Found false t c = Channel.mark_unhealthy t c

verdict-Found : (b : Bool) (t : ℕ) (c : Channel) → verdict t (some b) c ≡ Found b t c
unfolding verdict
verdict-Found true t c = refl
verdict-Found false t c = refl

module _ (env : Env) (calm : IsCalm env) where
  -- If no other task marks a channel meanwhile and each probe's end is joined once, in any order, then
  -- after a check of a manager whose ids are the indices, a channel is marked healthy if its address
  -- accepts within the limit and unhealthy if not, at some time since the check began, and is
  -- otherwise as before.
  pub get_elem?-check_round :
      (join : List Completion → List Completion) (limit j : ℕ) (c : Channel) (w : World)
      → ((cs : List Completion) → Permᴰ (join cs) cs)
      → IsIndexed 0 w.manager.channels
      → get_elem? w.manager.channels j ≡ some c
      → (t : ℕ) × (w.now ≤ t)
        × (get_elem? (check_round env join limit w).1.manager.channels j
            ≡ some (Found (in_time limit (env.dial (w.awaits + j) (address c.dsn))) t c))
  unfolding check_round
  get_elem?-check_round join limit j c w perm ids e =
      let ends = spawn_all env limit w.manager.channels w in
      let (p, own, found) =
        completion_of-spawn_all env limit 0 j j (w.awaits + j) w.manager.channels c w ids e
          (omega arith) refl in
      let (distinct, same) =
        permuted (perm ends) (spawn_all-Distinct env limit 0 w.manager.channels w ids) in
      let (t, le, given) = join_all-own env calm (join ends) j p w distinct (same j ∙ own) in
      (
        t,
        le,
        given
            ∙ ap (λ h. Option.map (verdict t h) (get_elem? w.manager.channels j)) found
            ∙ ap
                (Option.map
                  (verdict t (some (in_time limit (env.dial (w.awaits + j) (address c.dsn))))))
                e
            ∙ ap some (verdict-Found (in_time limit (env.dial (w.awaits + j) (address c.dsn))) t c),
      )
