-- ===== src/Manager/Laws.antt =====
-- The channels of a manager under marks.
use multi_proxy.Channel
use multi_proxy.Channel.{Channel, Health, healthy, unhealthy, unknown}
use multi_proxy.Channel.Laws.{IsSound, mark_healthy-IsSound, mark_unhealthy-IsSound}
use multi_proxy.Dsn.{Dsn}
use multi_proxy.Manager.{ChannelManager, select, healthy_channels, mark_healthy, mark_unhealthy}
use multi_proxy.Base.{
  All, List, [], arith, if◌then◌else◌, map, map-modify, modify, refl, suc, zero, ℕ, ◌∙◌, ◌∷◌, ◌≡◌,
}

-- The channels that are marked healthy, in order.
pub marked_healthy : List Channel → List Channel
marked_healthy [] = []
marked_healthy (c ∷ cs) =
    let rest = marked_healthy cs in if Channel.is_healthy c.health then c ∷ rest else rest

select-marked_healthy : (now : ℕ) (cs : List Channel) → select now cs ≡ marked_healthy cs
unfolding select marked_healthy Channel.should_retry Channel.is_healthy
select-marked_healthy now [] = refl
select-marked_healthy now (c ∷ cs) = ground (arith, select-marked_healthy now cs)

-- The circuit breaker never drops a channel that is marked healthy: `healthy_channels` returns
-- exactly those, whatever the time.
pub healthy_channels-marked_healthy :
    (now : ℕ) (m : ChannelManager) → healthy_channels now m ≡ marked_healthy m.channels
unfolding healthy_channels
healthy_channels-marked_healthy now m = select-marked_healthy now m.channels

-- What a mark is about.
pub data Verdict : Type 0 where
  good bad : Verdict

-- A mark by one of the tasks that share the manager.
pub record Event : Type 0 where
  pub verdict : Verdict
  pub id : ℕ
  pub now : ℕ

unfoldable pub mark : Verdict → ℕ → ℕ → ChannelManager → ChannelManager
unfolding mark_healthy mark_unhealthy
mark good now id m = mark_healthy now id m
mark bad now id m = mark_unhealthy now id m

unfoldable pub marks : List Event → ChannelManager → ChannelManager
unfolding mark
marks [] m = m
marks (e ∷ es) m = marks es (mark e.verdict e.now e.id m)

-- The id of a channel is its index.
abbrev pub IsIndexed : ℕ → List Channel → Type 0
IsIndexed i [] = Unit {0}
IsIndexed i (c ∷ cs) = (c.id ≡ i) × IsIndexed (suc i) cs

pub record IsValid (m : ChannelManager) : Type 0 where
  pub indexed : IsIndexed 0 m.channels
  pub sound : All IsSound m.channels

modify-IsIndexed :
    (f : Channel → Channel)
    → ((c : Channel) → (f c).id ≡ c.id)
    → (j i : ℕ) (cs : List Channel) → IsIndexed i cs
    → IsIndexed i (modify f j cs)
modify-IsIndexed f same j i [] h = h
modify-IsIndexed f same zero i (c ∷ cs) h = (same c ∙ h.0, h.1)
modify-IsIndexed f same (suc j) i (c ∷ cs) h = (h.0, modify-IsIndexed f same j (suc i) cs h.1)

modify-All {ℓ} :
    (P : Channel → Type ℓ) (f : Channel → Channel)
    → ((c : Channel) → P (f c))
    → (j : ℕ) (cs : List Channel) → All P cs
    → All P (modify f j cs)
modify-All P f after j [] h = h
modify-All P f after zero (c ∷ cs) h = (after c, h.1)
modify-All P f after (suc j) (c ∷ cs) h = (h.0, modify-All P f after j cs h.1)

pub mark-IsValid :
    (v : Verdict) (now id : ℕ) (m : ChannelManager) → IsValid m → IsValid (mark v now id m)
unfolding mark Channel.mark_healthy Channel.mark_unhealthy
mark-IsValid good now id m h = record {
  indexed = modify-IsIndexed (Channel.mark_healthy now) (λ c. refl) id 0 m.channels h.indexed;
  sound = modify-All IsSound _ (mark_healthy-IsSound now) id m.channels h.sound;
}
mark-IsValid bad now id m h = record {
  indexed = modify-IsIndexed (Channel.mark_unhealthy now) (λ c. refl) id 0 m.channels h.indexed;
  sound = modify-All IsSound _ (mark_unhealthy-IsSound now) id m.channels h.sound;
}

-- Any sequence of marks keeps the ids equal to the indices and every health record sound.
pub marks-IsValid : (es : List Event) (m : ChannelManager) → IsValid m → IsValid (marks es m)
unfolding marks
marks-IsValid [] m h = h
marks-IsValid (e ∷ es) m h = marks-IsValid es _ (mark-IsValid e.verdict e.now e.id m h)

abbrev pub dsns : ChannelManager → List Dsn
dsns m = map (λ (c : Channel). c.dsn) m.channels

pub dsns-mark : (v : Verdict) (now id : ℕ) (m : ChannelManager) → dsns (mark v now id m) ≡ dsns m
unfolding mark Channel.mark_healthy Channel.mark_unhealthy
dsns-mark good now id m = map-modify _ _ (λ c. refl) id m.channels
dsns-mark bad now id m = map-modify _ _ (λ c. refl) id m.channels

-- Marks change no DSN and neither add, drop nor reorder a channel.
pub dsns-marks : (es : List Event) (m : ChannelManager) → dsns (marks es m) ≡ dsns m
unfolding marks
dsns-marks [] m = refl
dsns-marks (e ∷ es) m = dsns-marks es _ ∙ dsns-mark e.verdict e.now e.id m
