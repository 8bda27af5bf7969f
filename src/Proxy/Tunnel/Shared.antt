-- ===== src/Proxy/Tunnel/Shared.antt =====
-- Acquiring a tunnel keeps the shared manager well formed, whatever the network answers and the
-- other tasks do.
use multi_proxy.Channel
use multi_proxy.Channel.{Channel}
use multi_proxy.Dsn.{Dsn, http, socks5, ssh}
use multi_proxy.Manager
use multi_proxy.Manager.Laws.{good, bad, mark}
use multi_proxy.Strategy.{Strategy}
use multi_proxy.Ssh.Shared.{establish-Keeps}
use multi_proxy.Net.{Env, Stream, M, attempt}
use multi_proxy.Net.Run.{
  Keeps, Kept-refl, Kept-trans, mark-Kept, next-Kept, >>=-Keeps, connect-Keeps,
}
use multi_proxy.Proxy.Http.Shared.{establish_http-Keeps}
use multi_proxy.Proxy.Socks5.Shared.{establish_socks5-Keeps}
use multi_proxy.Proxy.Tunnel.{
  Tried, got, exhausted, settle, try_channels, establish_direct, establish_via_dsn, direct_if,
  conclude, last_resort, by_channels, acquire_tunnel, ordered_channels,
}
use multi_proxy.Base.{
  Bool, Bool-cases, List, Result, Text, [], err, false, inl, inr, not, ok, true, ℕ, ◌∷◌,
}

module _ {A : Type 0} where
  settle-Keeps :
      (rest : Text → M (Tried A)) (id : ℕ) (r : Result A)
      → ((e : Text) → Keeps (rest e))
      → Keeps (settle rest id r)
  unfolding settle mark
  settle-Keeps rest id (ok a) h w = mark-Kept good id w
  settle-Keeps rest id (err e) h w = Kept-trans (mark-Kept bad id w) (h e _)

  -- The loop over the channels keeps what each attempt keeps.
  pub try_channels-Keeps :
      (establish : Dsn → M A) (chs : List Channel) (last_err : Text)
      → ((d : Dsn) → Keeps (establish d))
      → Keeps (try_channels establish chs last_err)
  unfolding try_channels
  try_channels-Keeps establish [] last_err h w = Kept-refl w
  try_channels-Keeps establish (ch ∷ chs) last_err h w =
      elim (Bool-cases (Channel.should_retry w.now ch)) [
        | inl retry ↦ rw retry (
            next-Kept (attempt (establish ch.dsn) w) (settle (try_channels establish chs) ch.id)
              (h ch.dsn w)
              (λ r.
                settle-Keeps (try_channels establish chs) ch.id r
                  (λ e. try_channels-Keeps establish chs e h)))
        | inr skip ↦ rw skip (try_channels-Keeps establish chs last_err h w)
      ]

pub direct_if-Keeps : (b : Bool) (m : M Stream) → Keeps m → Keeps (direct_if b m)
unfolding direct_if
direct_if-Keeps true m h = h
direct_if-Keeps false m h = Kept-refl

conclude-Keeps : (e : Text) (r : Result Stream) → Keeps (conclude e r)
unfolding conclude
conclude-Keeps e (ok s) = Kept-refl
conclude-Keeps e (err x) = Kept-refl

last_resort-Keeps :
    (turn : Bool) (direct : M Stream) (t : Tried Stream)
    → Keeps direct
    → Keeps (last_resort turn direct t)
unfolding last_resort
last_resort-Keeps turn direct (got s) h = Kept-refl
last_resort-Keeps turn direct (exhausted e) h =
    >>=-Keeps (direct_if turn direct) (conclude e) (direct_if-Keeps turn direct h)
      (conclude-Keeps e)

module _ (env : Env) where
  pub establish_direct-Keeps :
      (host : Text) (port limit : ℕ) → Keeps (establish_direct env host port limit)
  unfolding establish_direct
  establish_direct-Keeps host port limit = connect-Keeps env limit _ _ _

  pub establish_via_dsn-Keeps :
      (host : Text) (port limit : ℕ) (d : Dsn) → Keeps (establish_via_dsn env d host port limit)
  unfolding establish_via_dsn
  establish_via_dsn-Keeps host port limit (http d) = establish_http-Keeps env host port d limit
  establish_via_dsn-Keeps host port limit (socks5 d) = establish_socks5-Keeps env host port d limit
  establish_via_dsn-Keeps host port limit (ssh d) = establish-Keeps env d host port

  by_channels-Keeps :
      (strategy : Strategy) (host : Text) (port limit : ℕ) (r : Result Stream)
      → Keeps (by_channels env strategy host port limit r)
  unfolding by_channels
  by_channels-Keeps strategy host port limit (ok s) w = Kept-refl w
  by_channels-Keeps strategy host port limit (err e) w =
      next-Kept (try_channels _ (ordered_channels env.sha256 w.manager strategy _) [] w) _
        (try_channels-Keeps _ (ordered_channels env.sha256 w.manager strategy _) []
          (establish_via_dsn-Keeps host port limit) w)
        (λ tried.
          last_resort-Keeps (not (Manager.direct_first w.manager)) _ tried
            (establish_direct-Keeps host port limit))

  -- `acquire_tunnel` keeps the manager's channels well formed, changes no DSN and no setting, adds,
  -- drops and reorders no channel, and the clock never goes back: for every network, every result
  -- and every interleaving with marks by other tasks.
  pub acquire_tunnel-Keeps :
      (strategy : Strategy) (host : Text) (port limit : ℕ)
      → Keeps (acquire_tunnel env strategy host port limit)
  unfolding acquire_tunnel
  acquire_tunnel-Keeps strategy host port limit w =
      next-Kept
        (direct_if (Manager.direct_first w.manager) (establish_direct env host port limit) w)
        (by_channels env strategy host port limit)
        (direct_if-Keeps (Manager.direct_first w.manager) _ (establish_direct-Keeps host port limit)
          w)
        (by_channels-Keeps strategy host port limit)
