-- ===== src/Proxy/Forward/Origin.antt =====
-- src/proxy.rs, `handle_path_forward`: an origin that can be reached directly is always heard.
use multi_proxy.Manager
use multi_proxy.Manager.Laws.{dsns}
use multi_proxy.Strategy.{Strategy}
use multi_proxy.Net.{
  Env, World, Stream, Outcome, done, fail, panic, hang, M, next, caught, accepted, elapse,
}
use multi_proxy.Net.Gives.{Gives, next-Gives}
use multi_proxy.Net.Post.{Ensures}
use multi_proxy.Proxy.Http.{host_port}
use multi_proxy.Proxy.Response.{Response}
use multi_proxy.Proxy.Tunnel.{Tried, got, exhausted, establish_direct, establish_via_dsn}
use multi_proxy.Proxy.Tunnel.Fallback.{establish_direct-accepted}
use multi_proxy.Proxy.Tunnel.Offers.{Offers}
use multi_proxy.Proxy.Forward.{
  attempts, direct_turn, direct_connected, direct_outcome, or_next, give_up, channel_turn,
}
use multi_proxy.Proxy.Forward.Fallback.{channel_turn-Gives}
use multi_proxy.Base.{All, Bool-cases, Text, [], false, inl, inr, true, ℕ, ◌≡◌, ◌≤◌}

abbrev pub IsGot : {A : Type 0} → (A → Type 0) → Tried A → Type 0
IsGot P (got a) = P a
IsGot P (exhausted e) = ⊥

module _ (env : Env) (strategy : Strategy) (host : Text) (port limit : ℕ)
    (send : Stream → M Response) (Good : Stream → Type 0) (P : Response → Type 0)
    (sends : (s : Stream) → Good s → (w : World) → Ensures P (send s w).0) where
  -- The origin accepts every connection, and gives a response that satisfies `P` on each of them.
  abbrev pub Serves : Type 0
  Serves =
      (n : ℕ)
      → (d : ℕ) × (s : Stream) × (env.dial n (host_port host port) ≡ accepted d s)
        × (d ≤ limit)
        × ((w : World) → Gives ⊥ P (send s w).0)

  answered :
      (r : Outcome Response × World)
      → Gives ⊥ P r.0
      → Gives ⊥ (IsGot P) (next (caught r.0, r.1) (direct_outcome env)).0
  unfolding direct_outcome
  answered (done resp, w) h = h
  answered (fail e, w) h = absurd h
  answered (panic, w) h = absurd h
  answered (hang, w) h = absurd h

  served_directly :
      (last_err : Text) (w : World)
      → Serves
      → Gives ⊥
          (IsGot P)
          (direct_turn env true (establish_direct env host port limit) send last_err w).0
  unfolding direct_turn direct_connected
  served_directly last_err w h =
      let (d, s, e, le, answers) = h w.awaits in
      rw (establish_direct-accepted env host port limit d s w e le)
        (answered (send s (elapse env d w)) (answers (elapse env d w)))

  IsGot-Offers : (t : Tried Response) → IsGot P t → Offers P t
  IsGot-Offers (got resp) h = h
  IsGot-Offers (exhausted e) h = absurd h

  got_now : (t : Tried Response) (w : World) → IsGot P t → Gives ⊥ P (give_up env t w).0
  unfolding give_up
  got_now (got resp) w h = h
  got_now (exhausted e) w h = absurd h

  passed_on :
      (stage : Text → M (Tried Response)) (t : Tried Response) (w : World)
      → IsGot P t
      → Gives ⊥ (IsGot P) (or_next env stage t w).0
  unfolding or_next
  passed_on stage (got resp) w h = h
  passed_on stage (exhausted e) w h = absurd h

  last_stage :
      (stage : Text → M (Tried Response)) (t : Tried Response) (w : World)
      → Offers P t
      → ((e : Text) → Gives ⊥ (IsGot P) (stage e w).0)
      → Gives ⊥ (IsGot P) (or_next env stage t w).0
  unfolding or_next
  last_stage stage (got resp) w h k = h
  last_stage stage (exhausted e) w h k = k e

  -- If the origin itself serves, and every attempt through a channel and every exchange on its stream
  -- comes back, then the client gets a response that satisfies `P`, and never 502.
  pub attempts-Gives :
      (w : World)
      → Serves
      → All
          (λ d. (w1 : World) → Ensures Good (establish_via_dsn env d host port limit w1).0)
          (dsns w.manager)
      → Gives ⊥ P (attempts env strategy host port limit send w).0
  unfolding attempts direct_turn or_next
  attempts-Gives w serves via =
      let direct = establish_direct env host port limit in
      let by_channels = channel_turn env strategy host port limit send in
      elim (Bool-cases (Manager.direct_first w.manager)) [
        | inl first ↦ rw first (
            let r1 = direct_turn env true direct send [] w in
            next-Gives ⊥ (IsGot P) P r1 _ (served_directly [] w serves) λ t1 got1.
              let r2 = or_next env by_channels t1 r1.1 in
              next-Gives ⊥ (IsGot P) P r2 _ (passed_on by_channels t1 r1.1 got1) λ t2 got2.
                next-Gives ⊥ (IsGot P) P (or_next env (direct_turn env false direct send) t2 r2.1)
                  (give_up env) (passed_on (direct_turn env false direct send) t2 r2.1 got2)
                  (λ t3 got3. got_now t3 _ got3))
        | inr last ↦ rw last (
            let r2 = by_channels [] w in
            next-Gives ⊥ (Offers P) P r2 _
              (channel_turn-Gives ⊥ env strategy host port limit send Good P sends [] w via)
              λ t2 given.
                next-Gives ⊥ (IsGot P) P (or_next env (direct_turn env true direct send) t2 r2.1)
                  (give_up env)
                  (last_stage (direct_turn env true direct send) t2 r2.1 given
                    (λ e. served_directly e r2.1 serves))
                  (λ t3 got3. got_now t3 _ got3))
      ]
