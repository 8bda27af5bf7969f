-- ===== src/Proxy/Server/Dispatch.antt =====
-- How a request is dispatched, and what every request keeps.
use multi_proxy.Strategy.{Strategy}
use multi_proxy.Proxy.Request.{parse_authority}
use multi_proxy.Proxy.Tunnel.{acquire_tunnel}
use multi_proxy.Proxy.Tunnel.Shared.{acquire_tunnel-Keeps}
use multi_proxy.Proxy.Forward.{Request}
use multi_proxy.Proxy.Forward.Shared.{handle_path_forward-Keeps}
use multi_proxy.Net.{Env, World, attempt, from_result, Stream, ask}
use multi_proxy.Net.Run.{Keeps, Kept-refl, >>=-Keeps, from_result-Keeps, ask-Keeps}
use multi_proxy.Str.{text_eq}
use multi_proxy.Dsn.{unwrap_or}
use multi_proxy.Proxy.Server.{
  connect_to, is_connect, handle_connect, handle_request, copy_tunnel, copy_with,
}
use multi_proxy.Manager.Laws.{IsValid, dsns}
use multi_proxy.Base.{Text, ℕ, Bool-cases, [], inl, inr, text, ◌≡◌, ◌≤◌, Result, err, ok}

module _ (env : Env) where
  handle_connect-Keeps :
      (strategy : Strategy) (limit : ℕ) (host : Text) (port : ℕ)
      → Keeps (handle_connect env strategy limit host port)
  unfolding handle_connect
  handle_connect-Keeps strategy limit host port =
      >>=-Keeps (attempt (acquire_tunnel env strategy host port limit)) _
        (acquire_tunnel-Keeps env strategy host port limit) λ r. Kept-refl

  connect_to-Keeps :
      (strategy : Strategy) (limit : ℕ) (authority : Text)
      → Keeps (connect_to env strategy limit authority)
  unfolding connect_to
  connect_to-Keeps strategy limit authority =
      >>=-Keeps (from_result (parse_authority authority)) _
        (from_result-Keeps (parse_authority authority))
        λ r. handle_connect-Keeps strategy limit r.0 r.1

  copy_with-Keeps : (up : Stream) (r : Result Stream) → Keeps (copy_with env up r)
  unfolding copy_with
  copy_with-Keeps up (err e) = Kept-refl
  copy_with-Keeps up (ok client_io) =
      >>=-Keeps (attempt (ask env (λ n. env.copy_bidirectional n client_io up))) _
        (ask-Keeps env (λ n. env.copy_bidirectional n client_io up)) (λ r. Kept-refl)

  -- The copying task of a tunnel keeps the shared state.
  pub copy_tunnel-Keeps : (upstream : Stream) → Keeps (copy_tunnel env upstream)
  unfolding copy_tunnel
  copy_tunnel-Keeps upstream =
      >>=-Keeps (attempt (ask env env.upgrade)) _ (ask-Keeps env env.upgrade)
        (copy_with-Keeps upstream)

  -- A request keeps the shared state well formed.
  pub handle_request-Keeps :
      (req : Request) (strategy : Strategy) (limit : ℕ)
      → Keeps (handle_request env req strategy limit)
  unfolding handle_request
  handle_request-Keeps req strategy limit w =
      elim (Bool-cases (text_eq req.path (text "/health"))) [
        | inl health ↦ rw health (Kept-refl w)
        | inr other ↦ rw other (elim (Bool-cases (is_connect req)) [
          | inl tunnel ↦ rw tunnel (connect_to-Keeps strategy limit (unwrap_or [] req.authority) w)
          | inr path ↦ rw path (handle_path_forward-Keeps env req strategy limit w)
        ])
      ]

  -- Every request, however it ends, leaves a well-formed manager well formed, with the same DSNs in the
  -- same order and the same settings, and the clock never goes back: for every network, every result
  -- and every interleaving with marks by other tasks.
  pub handle_request-IsValid :
      (req : Request) (strategy : Strategy) (limit : ℕ) (w : World)
      → IsValid w.manager
      → IsValid (handle_request env req strategy limit w).1.manager
        × (dsns (handle_request env req strategy limit w).1.manager ≡ dsns w.manager)
        × ((handle_request env req strategy limit w).1.manager.config ≡ w.manager.config)
        × (w.now ≤ (handle_request env req strategy limit w).1.now)
  handle_request-IsValid req strategy limit w valid =
      let kept = handle_request-Keeps req strategy limit w in
      (kept.valid valid, kept.same_dsns, kept.same_config, kept.later)
