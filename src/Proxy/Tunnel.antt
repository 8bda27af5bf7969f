-- ===== src/Proxy/Tunnel.antt =====
-- src/proxy.rs, "Channel establishment" and `acquire_tunnel`: the channels in the order in which they
-- are tried, and the first stream that one of them, or the origin itself, gives.
pub mod Order
pub mod Fallback
pub mod Trace
pub mod Shared
pub mod Offers
pub mod Obtained
use multi_proxy.Str.{is_empty}
use multi_proxy.Channel
use multi_proxy.Channel.{Channel}
use multi_proxy.Dsn.{Dsn, http, socks5, ssh}
use multi_proxy.Manager
use multi_proxy.Manager.{ChannelManager}
use multi_proxy.Strategy.{Strategy, start_index}
use multi_proxy.Ssh
use multi_proxy.Proxy.Http.{host_port, establish_http}
use multi_proxy.Proxy.Socks5.{establish_socks5}
use multi_proxy.Net.{
  Env, World, Stream, M, pure, throw, next, get, update, attempt, connect, ◌>>=◌, ◌>>◌,
}
use multi_proxy.Base.{
  Bool, Bytes, List, Result, Text, [], drop, err, false, if◌then◌else◌, length, ok, take, text,
  true, ℕ, ◌++◌, ◌∷◌, not,
}

-- `xs.rotate_left(k)`, for `k` up to the length.
unfoldable pub rotate_left {ℓ} : {A : Type ℓ} → ℕ → List A → List A
rotate_left k xs = drop k xs ++ take k xs

unfoldable pub ordered_channels : (Bytes → Bytes) → ChannelManager → Strategy → Text → List Channel
unfolding rotate_left is_empty
ordered_channels sha256 manager strategy target_key =
    let all = manager.channels in
    if is_empty all
    then all
    else rotate_left (start_index sha256 strategy (length all) target_key) all

-- How the loop over the channels ends: with what an attempt gave, or with the last error.
pub data Tried (A : Type 0) : Type 0 where
  got : A → Tried A
  exhausted : Text → Tried A

-- The marks of the live manager, at the present time.
abbrev pub mark_healthy : ℕ → World → World
mark_healthy id w = record w { manager = Manager.mark_healthy w.now id w.manager }

abbrev pub mark_unhealthy : ℕ → World → World
mark_unhealthy id w = record w { manager = Manager.mark_unhealthy w.now id w.manager }

-- What follows an attempt on channel `id`; `rest` is the rest of the loop.
settle : {A : Type 0} → (Text → M (Tried A)) → ℕ → Result A → M (Tried A)
settle rest id (ok a) = do update (mark_healthy id); pure (got a)
settle rest id (err e) = do update (mark_unhealthy id); rest e

-- The loop over the snapshot of the channels; `establish` makes one attempt.
unfoldable pub try_channels : {A : Type 0} → (Dsn → M A) → List Channel → Text → M (Tried A)
unfolding settle
try_channels establish [] last_err w = pure (exhausted last_err) w
try_channels establish (ch ∷ chs) last_err w =
    let rest = try_channels establish chs in
    if Channel.should_retry w.now ch
    then next (attempt (establish ch.dsn) w) (settle rest ch.id)
    else rest last_err w

-- A direct attempt, if it is this one's turn. Its error is dropped.
pub direct_if : Bool → M Stream → M (Result Stream)
direct_if true direct = attempt direct
direct_if false direct = pure (err [])

conclude : Text → Result Stream → M Stream
conclude last_err (ok s) = pure s
conclude last_err (err _) =
    throw (if is_empty last_err then text "no usable upstream" else last_err)

-- The direct attempt behind the channels.
last_resort : Bool → M Stream → Tried Stream → M Stream
unfolding direct_if conclude
last_resort turn direct (got s) = pure s
last_resort turn direct (exhausted last_err) = direct_if turn direct >>= conclude last_err

module _ (env : Env) where
  unfoldable pub establish_direct : Text → ℕ → ℕ → M Stream
  establish_direct host port limit =
      connect env limit (host_port host port) (text "Direct connection timeout")
        (text "Direct connect failed: ")

  unfoldable pub establish_via_dsn : Dsn → Text → ℕ → ℕ → M Stream
  establish_via_dsn (http dsn) host port limit = establish_http env host port dsn limit
  establish_via_dsn (socks5 dsn) host port limit = establish_socks5 env host port dsn limit
  establish_via_dsn (ssh dsn) host port limit = Ssh.establish env dsn host port

  -- The channels, where the direct attempt in front of them gave no stream.
  by_channels : Strategy → Text → ℕ → ℕ → Result Stream → M Stream
  unfolding last_resort
  by_channels strategy host port limit (ok s) = pure s
  by_channels strategy host port limit (err _) = do
    w ← get
    tried ←
        try_channels (λ dsn. establish_via_dsn dsn host port limit)
          (ordered_channels env.sha256 w.manager strategy (host_port host port)) []
    last_resort (not (Manager.direct_first w.manager)) (establish_direct host port limit) tried

  unfoldable pub acquire_tunnel : Strategy → Text → ℕ → ℕ → M Stream
  unfolding direct_if by_channels
  acquire_tunnel strategy host port limit = do
    w ← get
    first ← direct_if (Manager.direct_first w.manager) (establish_direct host port limit)
    by_channels strategy host port limit first
