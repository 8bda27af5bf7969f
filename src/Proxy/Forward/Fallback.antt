-- ===== src/Proxy/Forward/Fallback.antt =====
-- src/proxy.rs, `handle_path_forward`: which response the attempts end in.
use multi_proxy.Channel.{Channel}
use multi_proxy.Manager
use multi_proxy.Manager.Laws.{dsns}
use multi_proxy.Strategy.{Strategy}
use multi_proxy.Net.{Env, World, Stream, M, ◌>>=◌}
use multi_proxy.Net.Gives.{Gives, IsOk, next-Gives, attempt-Gives}
use multi_proxy.Proxy.Tunnel.Offers.{Offers, try_channels-Gives}
use multi_proxy.Net.Post.{Post, next-Post}
use multi_proxy.Net.Run.{Kept, Keeps}
use multi_proxy.Proxy.Http.{host_port}
use multi_proxy.Proxy.Response.{Response, error_response, full}
use multi_proxy.Str.Utf8.{as_bytes}
use multi_proxy.Proxy.Tunnel.{
  Tried, got, exhausted, establish_direct, establish_via_dsn, ordered_channels,
}
use multi_proxy.Proxy.Tunnel.Fallback.{ordered_channels-All}
use multi_proxy.Proxy.Tunnel.Shared.{establish_direct-Keeps}
use multi_proxy.Proxy.Forward.{
  attempts, direct_turn, direct_connected, direct_outcome, or_next, give_up, channel_turn,
}
use multi_proxy.Proxy.Forward.Shared.{direct_turn-Keeps}
use multi_proxy.Base.{
  All, Bool, Result, Text, [], err, false, inl, inr, ok, text, true, ℕ, ◌++◌, ◌≡◌, ◌⊎◌, All-imp,
  All-of_map, refl, not,
}

-- A response that an upstream gave, or 502 with a body that begins with `All channels failed: `.
abbrev pub Served : (Response → Type 0) → Response → Type 0
Served P resp =
    P resp
    ⊎ ((resp.status ≡ 502)
        × ((e : Text) × (resp.body ≡ full (as_bytes (text "All channels failed: " ++ e)))))

module _ (bad : Type 0) (env : Env) (strategy : Strategy) (host : Text) (port limit : ℕ) where
  module _ (send : Stream → M Response) (Good : Stream → Type 0) (P : Response → Type 0)
      (sends : (s : Stream) → Good s → (w : World) → Post bad P (send s w).0) where
    direct_outcome-Gives :
        (r : Result Response)
        → IsOk P r
        → (w : World) → Gives bad (Offers P) (direct_outcome env r w).0
    unfolding direct_outcome
    direct_outcome-Gives (ok resp) h w = h
    direct_outcome-Gives (err e) h w = tt

    direct_connected-Gives :
        (last_err : Text) (r : Result Stream)
        → IsOk Good r
        → (w : World) → Gives bad (Offers P) (direct_connected env send last_err r w).0
    unfolding direct_connected
    direct_connected-Gives last_err (ok s) h w =
        attempt-Gives bad P (Offers P) (send s w) (direct_outcome env) (sends s h w)
          direct_outcome-Gives
    direct_connected-Gives last_err (err e) h w = tt

    direct_turn-Gives :
        (b : Bool) (last_err : Text) (w : World)
        → ((w1 : World) → Post bad Good (establish_direct env host port limit w1).0)
        → Gives bad
            (Offers P)
            (direct_turn env b (establish_direct env host port limit) send last_err w).0
    unfolding direct_turn
    direct_turn-Gives true last_err w h =
        attempt-Gives bad Good (Offers P) (establish_direct env host port limit w)
          (direct_connected env send last_err) (h w) (direct_connected-Gives last_err)
    direct_turn-Gives false last_err w h = tt

    pub or_next-Gives :
        (stage : Text → M (Tried Response)) (t : Tried Response) (w : World)
        → Offers P t
        → ((e : Text) → Gives bad (Offers P) (stage e w).0)
        → Gives bad (Offers P) (or_next env stage t w).0
    unfolding or_next
    or_next-Gives stage (got resp) w h k = h
    or_next-Gives stage (exhausted e) w h k = k e

    pub channel_turn-Gives :
        (last_err : Text) (w : World)
        → All
            (λ d. (w1 : World) → Post bad Good (establish_via_dsn env d host port limit w1).0)
            (dsns w.manager)
        → Gives bad (Offers P) (channel_turn env strategy host port limit send last_err w).0
    unfolding channel_turn
    channel_turn-Gives last_err w h =
        try_channels-Gives bad P (λ d. establish_via_dsn env d host port limit >>= send)
          (ordered_channels env.sha256 w.manager strategy (host_port host port)) last_err
          (ordered_channels-All env.sha256 _ w.manager strategy (host_port host port) (
            All-imp w.manager.channels
              (λ c opens w1.
                next-Post bad Good P (establish_via_dsn env c.dsn host port limit w1) send
                  (opens w1) sends)
              (All-of_map _ (λ (c : Channel). c.dsn) w.manager.channels h)))
          w

    give_up-Gives :
        (t : Tried Response) (w : World) → Offers P t → Gives bad (Served P) (give_up env t w).0
    unfolding give_up error_response
    give_up-Gives (got resp) w h = inl h
    give_up-Gives (exhausted e) w h = inr (refl, (e, refl))

    -- If every direct attempt and every attempt through a channel gives a stream that is good or an error,
    -- and every exchange on a good stream gives a response that satisfies `P` or an error, then the client
    -- gets a response that satisfies `P`, or 502 with a reason in its body, and never an error. Where `bad` is
    -- `⊥` all of them come back, and so does the whole; else `bad` covers panics and endless waits.
    pub attempts-Served :
        (w : World)
        → ((s : Stream) → Keeps (send s))
        → ((w1 : World) → Post bad Good (establish_direct env host port limit w1).0)
        → All
            (λ d. (w1 : World) → Post bad Good (establish_via_dsn env d host port limit w1).0)
            (dsns w.manager)
        → Gives bad (Served P) (attempts env strategy host port limit send w).0
    unfolding attempts
    attempts-Served w keeps direct via =
        let first = Manager.direct_first w.manager in
        let r = direct_turn env first (establish_direct env host port limit) send [] w in
        let kept : Kept w r.1 =
          direct_turn-Keeps env send keeps first (establish_direct env host port limit) []
            (establish_direct-Keeps env host port limit) w in
        next-Gives bad (Offers P) (Served P) r _ (direct_turn-Gives first [] w direct) λ t1 given1.
          next-Gives bad (Offers P) (Served P)
            (or_next env (channel_turn env strategy host port limit send) t1 r.1) _
            (or_next-Gives (channel_turn env strategy host port limit send) t1 r.1 given1
              (λ e. channel_turn-Gives e r.1 (rw kept.same_dsns via)))
            λ t2 given2.
              let w2 = (or_next env (channel_turn env strategy host port limit send) t1 r.1).1 in
              next-Gives bad (Offers P) (Served P)
                (or_next env
                  (direct_turn env (not first) (establish_direct env host port limit) send) t2 w2)
                (give_up env)
                (or_next-Gives
                  (direct_turn env (not first) (establish_direct env host port limit) send) t2 w2
                  given2 (λ e. direct_turn-Gives (not first) e w2 direct))
                (λ t3 given3. give_up-Gives t3 _ given3)
