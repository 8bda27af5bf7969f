-- ===== src/Proxy/Tunnel/Offers.antt =====
-- What the loop over the channels gives.
use multi_proxy.Channel
use multi_proxy.Channel.{Channel}
use multi_proxy.Dsn.{Dsn}
use multi_proxy.Net.{World, M}
use multi_proxy.Net.Gives.{Gives, IsOk, attempt-Gives}
use multi_proxy.Net.Post.{Post}
use multi_proxy.Proxy.Tunnel.{Tried, got, exhausted, try_channels, settle}
use multi_proxy.Base.{All, Bool-cases, List, Result, Text, [], err, inl, inr, ok, ◌∷◌}

-- A response, if there is one, satisfies `P`.
abbrev pub Offers : {A : Type 0} → (A → Type 0) → Tried A → Type 0
Offers P (got a) = P a
Offers P (exhausted e) = Unit {0}

-- The loop over the channels never ends in an error, and what it gives is what an attempt gave.
pub try_channels-Gives :
    {A : Type 0} (bad : Type 0) (P : A → Type 0) (establish : Dsn → M A) (chs : List Channel)
    (last_err : Text)
    → All (λ (c : Channel). (w : World) → Post bad P (establish c.dsn w).0) chs
    → (w : World) → Gives bad (Offers P) (try_channels establish chs last_err w).0
unfolding try_channels settle
try_channels-Gives bad P establish [] last_err h w = tt
try_channels-Gives {A} bad P establish (ch ∷ chs) last_err h w =
    elim (Bool-cases (Channel.should_retry w.now ch)) [
      | inl retry ↦
          rw (retry, try_channels)
            (attempt-Gives bad P (Offers P) (establish ch.dsn w)
              (settle (try_channels establish chs) ch.id) (h.0 w)
              (λ a ok_a w1.
                settled a ok_a w1 (λ e w2. try_channels-Gives bad P establish chs e h.1 w2)))
      | inr skip ↦ rw (skip, try_channels) (try_channels-Gives bad P establish chs last_err h.1 w)
    ]
  where
    settled :
        (a : Result A)
        → IsOk P a
        → (w : World)
        → ((e : Text) (w1 : World) → Gives bad (Offers P) (try_channels establish chs e w1).0)
        → Gives bad (Offers P) (settle (try_channels establish chs) ch.id a w).0
    settled (ok a) h w k = h
    settled (err e) h w k = k e _
