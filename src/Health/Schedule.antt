-- ===== src/Health/Schedule.antt =====
-- A health check does not depend on the order in which the probes end.
use mathlib.Core.Option
use multi_proxy.Channel
use multi_proxy.Channel.{Channel}
use multi_proxy.Manager
use multi_proxy.Manager.{ChannelManager}
use multi_proxy.Health.{Completion, record_health, run_check}
use multi_proxy.Base.{
  ==_iff, Bool, Bool-cases, List, Option, [], ap, false, get_elem?, get_elem?-modify,
  get_elem?-modify_ne, if◌then◌else◌, inl, inr, none, refl, some, sym, true, ℕ, ◌==◌, ◌∙◌, ◌∷◌, ◌≡◌,
  ◌≢◌, get_elem?-ext, subst,
}

-- The first end of a probe of channel `id`.
unfoldable pub completion_of : ℕ → List Completion → Option Completion
completion_of id [] = none
completion_of id (c ∷ cs) = if c.id == id then some c else completion_of id cs

-- No channel is probed twice.
abbrev pub Distinct : List Completion → Type 0
Distinct [] = Unit {0}
Distinct (c ∷ cs) = (completion_of c.id cs ≡ none) × Distinct cs

-- What the end of its own probe makes of a channel.
unfoldable pub verdict : ℕ → Option Bool → Channel → Channel
verdict now (some true) c = Channel.mark_healthy now c
verdict now (some false) c = Channel.mark_unhealthy now c
verdict now none c = c

pub probed : Option Completion → Channel → Channel
unfolding verdict
probed none c = c
probed (some p) c = verdict p.now p.healthy c

pub record_health_self :
    (id now : ℕ) (h : Option Bool) (m : ChannelManager)
    → get_elem? (record_health id now h m).channels id
      ≡ Option.map (verdict now h) (get_elem? m.channels id)
unfolding record_health Manager.mark_healthy Manager.mark_unhealthy verdict
record_health_self id now (some true) m = get_elem?-modify (Channel.mark_healthy now) id m.channels
record_health_self id now (some false) m =
    get_elem?-modify (Channel.mark_unhealthy now) id m.channels
record_health_self id now none m = sym (map-id-lem (get_elem? m.channels id))
  where
    map-id-lem : (o : Option Channel) → Option.map (λ c. c) o ≡ o
    map-id-lem none = refl
    map-id-lem (some c) = refl

pub record_health_other :
    (id j now : ℕ) (h : Option Bool) (m : ChannelManager)
    → id ≢ j
    → get_elem? (record_health id now h m).channels j ≡ get_elem? m.channels j
unfolding record_health Manager.mark_healthy Manager.mark_unhealthy
record_health_other id j now (some true) m h = get_elem?-modify_ne _ id j m.channels h
record_health_other id j now (some false) m h = get_elem?-modify_ne _ id j m.channels h
record_health_other id j now none m h = refl

probed-none : (o : Option Channel) → Option.map (probed none) o ≡ o
unfolding probed
probed-none none = refl
probed-none (some c) = refl

own_verdict :
    (c : Completion) (j : ℕ) (m : ChannelManager)
    → c.id ≡ j
    → get_elem? (record_health c.id c.now c.healthy m).channels j
      ≡ Option.map (probed (some c)) (get_elem? m.channels j)
unfolding probed
own_verdict c j m e =
    subst
      (λ i.
        get_elem? (record_health c.id c.now c.healthy m).channels i
        ≡ Option.map (verdict c.now c.healthy) (get_elem? m.channels i))
      e (record_health_self c.id c.now c.healthy m)

-- If no channel is probed twice, each channel ends up with the verdict of its own probe, and with
-- nothing else.
pub get_elem?-run_check :
    (cs : List Completion) (m : ChannelManager) (j : ℕ)
    → Distinct cs
    → get_elem? (run_check cs m).channels j
      ≡ Option.map (probed (completion_of j cs)) (get_elem? m.channels j)
unfolding run_check completion_of
get_elem?-run_check [] m j d = sym (probed-none (get_elem? m.channels j))
get_elem?-run_check (c ∷ cs) m j d = elim (Bool-cases (c.id == j)) [
  | inl own ↦
      let same : c.id ≡ j = (==_iff c.id j).0 own in
      let later : completion_of j cs ≡ none = rw same at d.0 in
      rw own (
        get_elem?-run_check cs (record_health c.id c.now c.healthy m) j d.1
        ∙ ap
            (λ o.
              Option.map (probed o) (get_elem? (record_health c.id c.now c.healthy m).channels j))
            later
        ∙ probed-none (get_elem? (record_health c.id c.now c.healthy m).channels j)
        ∙ own_verdict c j m same)
  | inr other ↦ rw other (
      get_elem?-run_check cs (record_health c.id c.now c.healthy m) j d.1
      ∙ ap (Option.map (probed (completion_of j cs)))
          (record_health_other c.id j c.now c.healthy m (λ e. cc ((==_iff c.id j).1 e))))
]

-- The order in which the probes end does not matter: two checks in which no channel is probed twice
-- and each has the same end of its probe leave the same channels.
pub run_check-order :
    (cs ds : List Completion) (m : ChannelManager)
    → Distinct cs
    → Distinct ds
    → ((j : ℕ) → completion_of j cs ≡ completion_of j ds)
    → (run_check cs m).channels ≡ (run_check ds m).channels
run_check-order cs ds m h k same =
    get_elem?-ext (run_check cs m).channels (run_check ds m).channels λ j.
      get_elem?-run_check cs m j h
      ∙ ap (λ o. Option.map (probed o) (get_elem? m.channels j)) (same j)
      ∙ sym (get_elem?-run_check ds m j k)
