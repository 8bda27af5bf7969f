-- ===== src/Proxy/Serve/Shutdown.antt =====
-- src/proxy.rs, `serve`: how the accept loop ends.
use multi_proxy.Proxy.Serve.{Turn, shutdown, accept_error, accepted, Server, turn, serve_loop}
use multi_proxy.Base.{All, List, [], arith, false, ℕ, ◌++◌, ◌+◌, ◌∷◌, ◌≡◌, ◌≢◌, refl, ◌∙◌, ap}

-- How many connections were accepted.
unfoldable pub accepts : List Turn → ℕ
accepts [] = 0
accepts (shutdown ∷ ts) = accepts ts
accepts (accept_error ∷ ts) = accepts ts
accepts (accepted ∷ ts) = accepts ts + 1

-- The loop goes on until the first shutdown, also past accepts that fail: then it stops, with one task
-- for each connection that was accepted before, and nothing that would come later is accepted.
pub serve_loop-shutdown :
    (ts us : List Turn) (s : Server)
    → All (λ e. e ≢ shutdown) ts
    → serve_loop (ts ++ shutdown ∷ us) s
      ≡ record { running = false; connections = s.connections + accepts ts }
unfolding serve_loop turn accepts
serve_loop-shutdown [] us s on = ground arith
serve_loop-shutdown (shutdown ∷ ts) us s on = absurd (on.0 refl)
serve_loop-shutdown (accept_error ∷ ts) us s on = serve_loop-shutdown ts us s on.1
serve_loop-shutdown (accepted ∷ ts) us s on =
    serve_loop-shutdown ts us (turn accepted s) on.1
    ∙ ap (λ n. record { running = false; connections = n }) (omega arith)
