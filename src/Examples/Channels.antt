-- ===== src/Examples/Channels.antt =====
-- Examples: channels, managers, the order of the channels and the health check.
use multi_proxy.Examples.Data.{failed, http_dsn, manager}
use multi_proxy.Channel
use multi_proxy.Channel.{Channel, unhealthy, backoff, should_retry, max_u32, new}
use multi_proxy.Channel.Laws.{Mark, up, down, apply_all, streak, failure_count-streak}
use multi_proxy.Channel.Backoff.{should_retry_iff, Waits}
use multi_proxy.Dsn.{http}
use multi_proxy.Manager
use multi_proxy.Manager.{healthy_channels}
use multi_proxy.Manager.Laws.{dsns}
use multi_proxy.Strategy.{hash}
use multi_proxy.Proxy.Tunnel.{ordered_channels}
use multi_proxy.Proxy.Tunnel.Order.{ordered_channels-perm, ordered_channels-affinity}
use mathlib.Core.List.{Perm}
use multi_proxy.Base.{List, [], map, min, refl, text, true, ℕ, ◌↔◌, ◌∷◌, ◌≡◌, arith, false}

abbrev http_failed : Channel
http_failed = failed 0 (http http_dsn)

should_retry_iff_example : (should_retry 18999 http_failed ≡ false) ↔ Waits 18999 http_failed
should_retry_iff_example = should_retry_iff 18999 http_failed

http_failed-Waits : Waits 18999 http_failed
http_failed-Waits = (refl, (10000, refl, omega arith))

retried : should_retry 20000 http_failed ≡ true
unfolding should_retry backoff
retried = refl

abbrev history : List Mark
history = down 30 ∷ down 20 ∷ up 10 ∷ down 5 ∷ []

failure_count-streak_example :
    (apply_all history (new 0 (http http_dsn))).failure_count ≡ min (streak history) max_u32
failure_count-streak_example = failure_count-streak 0 (http http_dsn) history

abbrev first_byte : List ℕ → List ℕ
first_byte bs = bs

ordered_channels-perm_example :
    Perm (ordered_channels first_byte manager hash (text "a:80")) manager.channels
ordered_channels-perm_example = ordered_channels-perm first_byte manager hash (text "a:80")

abbrev marked : Manager.ChannelManager
marked = Manager.mark_healthy 15000 0 manager

same_dsns : dsns manager ≡ dsns marked
unfolding Manager.mark_healthy Channel.mark_healthy
same_dsns = refl

ordered_channels-affinity_example :
    map (λ (c : Channel). c.dsn) (ordered_channels first_byte manager hash (text "a:80"))
    ≡ map (λ (c : Channel). c.dsn) (ordered_channels first_byte marked hash (text "a:80"))
ordered_channels-affinity_example =
    ordered_channels-affinity first_byte manager marked hash (text "a:80") same_dsns
