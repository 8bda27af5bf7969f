-- ===== src/Proxy/Tunnel/Obtained.antt =====
-- src/proxy.rs, `acquire_tunnel`: where the stream of a tunnel comes from.
use mathlib.Core.List.{Memᴰ}
use multi_proxy.Channel.{Channel}
use multi_proxy.Dsn.{Dsn}
use multi_proxy.Manager
use multi_proxy.Manager.Laws.{dsns}
use multi_proxy.Strategy.{Strategy}
use multi_proxy.Net.{Env, World, Stream, Outcome, done, fail, panic, hang, M, next, caught}
use multi_proxy.Net.Gives.{IsOk, Gives-Post}
use multi_proxy.Net.Post.{Post, Dialed, connect-Dialed, weaken-Post, next-Post}
use multi_proxy.Net.Run.{Kept}
use multi_proxy.Proxy.Http.{host_port}
use multi_proxy.Proxy.Tunnel.{
  Tried, got, exhausted, acquire_tunnel, by_channels, conclude, direct_if, establish_direct,
  establish_via_dsn, last_resort, ordered_channels, try_channels,
}
use multi_proxy.Proxy.Tunnel.Fallback.{ordered_channels-All}
use multi_proxy.Proxy.Tunnel.Offers.{Offers, try_channels-Gives}
use multi_proxy.Proxy.Tunnel.Shared.{establish_direct-Keeps, direct_if-Keeps}
use multi_proxy.Base.{
  All, Bool, List, Result, Text, [], inl, inr, refl, ℕ, ◌∷◌, ◌≡◌, ◌⊎◌, All-of_map, err, false, not,
  ok, subst, sym, true,
}

-- A stream that leads to the origin: dialed by the program, or by way of one of the channels.
abbrev pub Obtained : Env → List Dsn → Text → ℕ → ℕ → Stream → Type 0
Obtained env ds host port limit s =
    Dialed (Unit {0}) env (host_port host port) s
    ⊎ ((d : Dsn) × Memᴰ d ds
        × ((w : World) × ((establish_via_dsn env d host port limit w).0 ≡ done s)))

pub All-of_Memᴰ : (P : Dsn → Type 0) (ds : List Dsn) → ((d : Dsn) → Memᴰ d ds → P d) → All P ds
All-of_Memᴰ P [] h = tt
All-of_Memᴰ P (d ∷ ds) h = (h d (Memᴰ.head refl), All-of_Memᴰ P ds (λ e m. h e (Memᴰ.tail m)))

pub All-imp_Memᴰ :
    (P Q : Dsn → Type 0) (ds : List Dsn) → All P ds → ((d : Dsn) → Memᴰ d ds → P d → Q d) → All Q ds
All-imp_Memᴰ P Q [] h k = tt
All-imp_Memᴰ P Q (d ∷ ds) h k =
    (k d (Memᴰ.head refl) h.0, All-imp_Memᴰ P Q ds h.1 (λ e m. k e (Memᴰ.tail m)))

pub own_outcome : (s : Outcome Stream) → Post (Unit {0}) (λ a. s ≡ done a) s
own_outcome (done a) = refl
own_outcome (fail e) = tt
own_outcome panic = tt
own_outcome hang = tt

module _ (env : Env) (host : Text) (port limit : ℕ) where
  establish_direct-Obtained :
      (ds : List Dsn) (w : World)
      → Post (Unit {0}) (Obtained env ds host port limit) (establish_direct env host port limit w).0
  unfolding establish_direct
  establish_direct-Obtained ds w =
      weaken-Post (Unit {0}) (Dialed (Unit {0}) env (host_port host port))
        (Obtained env ds host port limit) _ (λ s dialed. inl dialed)
        (connect-Dialed (Unit {0}) env limit (host_port host port) _ _ w)

  establish_via_dsn-Obtained :
      (ds : List Dsn)
      → All
          (λ d.
            (w : World)
            → Post
                (Unit {0})
                (Obtained env ds host port limit)
                (establish_via_dsn env d host port limit w).0)
          ds
  establish_via_dsn-Obtained ds = All-of_Memᴰ _ ds (λ d m w.
      weaken-Post (Unit {0}) _ (Obtained env ds host port limit) _ (λ s own. inr (d, m, (w, own)))
        (own_outcome (establish_via_dsn env d host port limit w).0))

  module _ (P : Stream → Type 0) where
    caught-IsOk : (o : Outcome Stream) → Post (Unit {0}) P o → Post (Unit {0}) (IsOk P) (caught o)
    caught-IsOk (done s) h = h
    caught-IsOk (fail e) h = tt
    caught-IsOk panic h = h
    caught-IsOk hang h = h

    direct_if-IsOk :
        (b : Bool) (direct : M Stream) (w : World)
        → Post (Unit {0}) P (direct w).0
        → Post (Unit {0}) (IsOk P) (direct_if b direct w).0
    unfolding direct_if
    direct_if-IsOk true direct w h = caught-IsOk (direct w).0 h
    direct_if-IsOk false direct w h = tt

    conclude-Post :
        (last_err : Text) (r : Result Stream) (w : World)
        → IsOk P r
        → Post (Unit {0}) P (conclude last_err r w).0
    unfolding conclude
    conclude-Post last_err (ok s) w h = h
    conclude-Post last_err (err e) w h = tt

    last_resort-Post :
        (turn : Bool) (direct : M Stream) (t : Tried Stream) (w : World)
        → Offers P t
        → ((w1 : World) → Post (Unit {0}) P (direct w1).0)
        → Post (Unit {0}) P (last_resort turn direct t w).0
    unfolding last_resort
    last_resort-Post turn direct (got s) w h k = h
    last_resort-Post turn direct (exhausted e) w h k =
        next-Post (Unit {0}) (IsOk P) P (direct_if turn direct w) (conclude e)
          (direct_if-IsOk turn direct w (k w)) (λ r given w1. conclude-Post e r w1 given)

    next_here :
        (r : Outcome (Result Stream) × World) (f : Result Stream → M Stream)
        → Post (Unit {0}) (IsOk P) r.0
        → ((a : Result Stream) → IsOk P a → Post (Unit {0}) P (f a r.1).0)
        → Post (Unit {0}) P (next r f).0
    next_here (done a, w) f h k = k a h
    next_here (fail e, w) f h k = tt
    next_here (panic, w) f h k = tt
    next_here (hang, w) f h k = tt

  by_channels-Obtained :
      (ds : List Dsn) (strategy : Strategy) (r : Result Stream) (w : World)
      → dsns w.manager ≡ ds
      → IsOk (Obtained env ds host port limit) r
      → Post
          (Unit {0})
          (Obtained env ds host port limit)
          (by_channels env strategy host port limit r w).0
  unfolding by_channels
  by_channels-Obtained ds strategy (ok s) w same h = h
  by_channels-Obtained ds strategy (err e) w same h =
      let P = Obtained env ds host port limit in
      let chs = ordered_channels env.sha256 w.manager strategy (host_port host port) in
      let tried = try_channels (λ d. establish_via_dsn env d host port limit) chs [] w in
      next-Post (Unit {0}) (Offers P) P tried _
        (Gives-Post (Unit {0}) (Offers P) tried.0 (
          try_channels-Gives (Unit {0}) P (λ d. establish_via_dsn env d host port limit) chs []
            (ordered_channels-All env.sha256 _ w.manager strategy (host_port host port) (
              All-of_map _ (λ (c : Channel). c.dsn) w.manager.channels
                (subst (All _) (sym same) (establish_via_dsn-Obtained ds))))
            w))
        (λ t offers w1.
          last_resort-Post P (not (Manager.direct_first w.manager))
            (establish_direct env host port limit) t w1 offers (establish_direct-Obtained ds))

  -- A stream that is acquired was dialed to the origin, or comes by way of a channel of the manager.
  pub acquire_tunnel-Obtained :
      (strategy : Strategy) (w : World)
      → Post
          (Unit {0})
          (Obtained env (dsns w.manager) host port limit)
          (acquire_tunnel env strategy host port limit w).0
  unfolding acquire_tunnel
  acquire_tunnel-Obtained strategy w =
      let P = Obtained env (dsns w.manager) host port limit in
      let direct = establish_direct env host port limit in
      let first = Manager.direct_first w.manager in
      let kept : Kept w (direct_if first direct w).1 =
        direct_if-Keeps first direct (establish_direct-Keeps env host port limit) w in
      next_here P (direct_if first direct w) (by_channels env strategy host port limit)
        (direct_if-IsOk P first direct w (establish_direct-Obtained (dsns w.manager) w))
        (λ r given.
          by_channels-Obtained (dsns w.manager) strategy r (direct_if first direct w).1
            kept.same_dsns given)
