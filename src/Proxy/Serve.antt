-- ===== src/Proxy/Serve.antt =====
-- src/proxy.rs, `serve`: the accept loop. What `tokio::select!` picks is one turn; the task of a
-- connection is counted from the accept that spawns it.
pub mod Shutdown
use multi_proxy.Base.{Bool, List, ℕ, [], ◌∷◌, ◌+◌, false}

pub data Turn : Type 0 where
  shutdown accept_error accepted : Turn

pub record Server : Type 0 where
  pub running : Bool
  pub connections : ℕ

-- One turn of the loop.
unfoldable pub turn : Turn → Server → Server
turn shutdown s = record s { running = false }
turn accept_error s = s
turn accepted s = record s { connections = s.connections + 1 }

-- The loop, over what `select!` picks: it ends at the first shutdown, and leaves the rest undone.
unfoldable pub serve_loop : List Turn → Server → Server
unfolding turn
serve_loop [] s = s
serve_loop (shutdown ∷ ts) s = turn shutdown s
serve_loop (accept_error ∷ ts) s = serve_loop ts (turn accept_error s)
serve_loop (accepted ∷ ts) s = serve_loop ts (turn accepted s)
