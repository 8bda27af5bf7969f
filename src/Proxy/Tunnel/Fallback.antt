-- ===== src/Proxy/Tunnel/Fallback.antt =====
-- Which attempts are made, and when one of them must succeed.
use multi_proxy.Channel
use multi_proxy.Channel.{Channel}
use multi_proxy.Dsn.{Dsn, HttpDsn, Socks5Dsn, http, socks5}
use multi_proxy.Manager
use multi_proxy.Strategy.{Strategy}
use multi_proxy.Net.{
  Env, World, Stream, accepted, Outcome, done, fail, panic, hang, M, next, connect, caught, elapse,
}
use multi_proxy.Net.Post.{
  Peers, weaken-Post, Returned, Settles, IsDone, next-IsDone, attempt-IsDone,
}
use multi_proxy.Proxy.Http.{host_port, establish_http, connect_request}
use multi_proxy.Proxy.Http.Handshake.{establish_http-Ensures}
use multi_proxy.Proxy.Socks5.{establish_socks5}
use multi_proxy.Proxy.Socks5.Handshake.{establish_socks5-Ensures, Spoken}
use multi_proxy.Str.Utf8.{as_bytes}
use multi_proxy.Proxy.Tunnel.{
  Tried, got, exhausted, settle, try_channels, establish_direct, establish_via_dsn, conclude,
  last_resort, by_channels, acquire_tunnel, ordered_channels, rotate_left,
}
use multi_proxy.Str.{is_empty}
use multi_proxy.Strategy.{start_index}
use multi_proxy.Base.{
  All, List, Text, [], refl, true, ℕ, ◌∷◌, ◌≡◌, Bool-cases, arith, inl, inr, ◌≤◌, not, All-append,
  Bytes, drop, length, suc, take, zero, some, ap, leb,
}

module _ {A : Type 0} where
  -- If the attempts on these channels come back, so does the loop, and it never ends in an error.
  pub try_channels-IsDone :
      (establish : Dsn → M A) (chs : List Channel) (last_err : Text)
      → All (λ (c : Channel). Settles (establish c.dsn)) chs
      → (w : World) → IsDone (try_channels establish chs last_err w).0
  unfolding try_channels
  try_channels-IsDone establish [] last_err h w = (exhausted last_err, refl)
  try_channels-IsDone establish (ch ∷ chs) last_err h w =
      elim (Bool-cases (Channel.should_retry w.now ch)) [
        | inl retry ↦
            rw (retry, try_channels)
              (settled (establish ch.dsn w) (h.0 w)
                (λ e w1. try_channels-IsDone establish chs e h.1 w1))
        | inr skip ↦ rw (skip, try_channels) (try_channels-IsDone establish chs last_err h.1 w)
      ]
    where
      settled :
          (r : Outcome A × World)
          → Returned r.0
          → ((e : Text) (w1 : World) → IsDone (try_channels establish chs e w1).0)
          → IsDone (next (caught r.0, r.1) (settle (try_channels establish chs) ch.id)).0
      settled (done a, w1) h k = (got a, refl)
      settled (fail e, w1) h k = k e _
      settled (panic, w1) h k = absurd h
      settled (hang, w1) h k = absurd h

All-take {ℓ κ} : {A : Type ℓ} (P : A → Type κ) (k : ℕ) (xs : List A) → All P xs → All P (take k xs)
All-take P zero xs h = tt
All-take P (suc k) [] h = tt
All-take P (suc k) (x ∷ xs) h = (h.0, All-take P k xs h.1)

All-drop {ℓ κ} : {A : Type ℓ} (P : A → Type κ) (k : ℕ) (xs : List A) → All P xs → All P (drop k xs)
All-drop P zero xs h = h
All-drop P (suc k) [] h = tt
All-drop P (suc k) (x ∷ xs) h = All-drop P k xs h.1

-- What holds of the manager's channels holds of the channels in the order of a strategy.
pub ordered_channels-All :
    (sha256 : Bytes → Bytes) (P : Channel → Type 0) (m : Manager.ChannelManager) (s : Strategy)
    → (target : Text) → All P m.channels
    → All P (ordered_channels sha256 m s target)
unfolding ordered_channels rotate_left
ordered_channels-All sha256 P m s target h = elim (Bool-cases (is_empty m.channels)) [
  | inl e ↦ rw e h
  | inr e ↦ rw e (
      let k = start_index sha256 s (length m.channels) target in
      All-append P (drop k m.channels) (take k m.channels) (All-drop P k m.channels h)
        (All-take P k m.channels h))
]

-- The origin accepts every connection within the limit.
abbrev pub Reachable : Env → Text → ℕ → ℕ → Type 0
Reachable env host port limit =
    (n : ℕ)
    → (d : ℕ) × (s : Stream) × (env.dial n (host_port host port) ≡ accepted d s) × (d ≤ limit)

module _ (env : Env) where
  -- A connection that is accepted within the limit.
  pub establish_direct-accepted :
      (host : Text) (port limit d : ℕ) (s : Stream) (w : World)
      → env.dial w.awaits (host_port host port) ≡ accepted d s
      → d ≤ limit
      → establish_direct env host port limit w ≡ (done s, elapse env d w)
  unfolding establish_direct connect
  establish_direct-accepted host port limit d s w e le =
      let soon : leb d limit ≡ true = ground arith in rw (e, soon)

  establish_direct-IsDone :
      (host : Text) (port limit : ℕ)
      → Reachable env host port limit
      → (w : World) → IsDone (establish_direct env host port limit w).0
  establish_direct-IsDone host port limit h w =
      let (d, s, e, le) = h w.awaits in
      (s, ap (λ r. r.0) (establish_direct-accepted host port limit d s w e le))

  module _ (host : Text) (port limit : ℕ) (h : Reachable env host port limit) where
    last_resort-IsDone :
        (t : Tried Stream) (w : World)
        → IsDone (last_resort true (establish_direct env host port limit) t w).0
    unfolding last_resort
    last_resort-IsDone (got s) w = (s, refl)
    last_resort-IsDone (exhausted e) w =
        attempt-IsDone (establish_direct env host port limit w) (conclude e)
          (establish_direct-IsDone host port limit h w) (λ s w1. (s, refl))

  -- If the origin accepts every connection within the limit, then a tunnel is acquired, in front of
  -- the channels or behind them, whatever the channels of the manager answer, as long as an attempt
  -- through each of them does come back with a stream or with an error.
  pub acquire_tunnel-IsDone :
      (strategy : Strategy) (host : Text) (port limit : ℕ) (w : World)
      → Reachable env host port limit
      → All
          (λ (c : Channel). Settles (establish_via_dsn env c.dsn host port limit))
          w.manager.channels
      → IsDone (acquire_tunnel env strategy host port limit w).0
  unfolding acquire_tunnel
  acquire_tunnel-IsDone strategy host port limit w h k =
      elim (Bool-cases (Manager.direct_first w.manager)) [
        | inl first ↦ rw first (
            attempt-IsDone (establish_direct env host port limit w)
              (by_channels env strategy host port limit)
              (establish_direct-IsDone host port limit h w) (λ s w1. (s, refl)))
        | inr later ↦ rw later (
            next-IsDone
              (try_channels (λ d. establish_via_dsn env d host port limit)
                (ordered_channels env.sha256 w.manager strategy (host_port host port)) [] w)
              (last_resort (not (Manager.direct_first w.manager))
                (establish_direct env host port limit))
              (try_channels-IsDone (λ d. establish_via_dsn env d host port limit)
                (ordered_channels env.sha256 w.manager strategy (host_port host port)) []
                (ordered_channels-All env.sha256 _ w.manager strategy (host_port host port) k) w)
              (λ t w1. rw later (last_resort-IsDone host port limit h t w1)))
      ]

  -- An attempt through an HTTP proxy comes back if no peer is silent for ever or stops reading.
  pub establish_via_dsn-http :
      (d : HttpDsn) (host : Text) (port limit : ℕ)
      → Peers ⊥ env
      → Settles (establish_via_dsn env (http d) host port limit)
  unfolding establish_via_dsn
  establish_via_dsn-http d host port limit peers w =
      weaken-Post ⊥ (λ s. s.sent ≡ as_bytes (connect_request env.base64 host port d))
        (λ _. Unit {0}) (establish_http env host port d limit w).0 (λ s sent. tt)
        (establish_http-Ensures env host port d limit w peers)

  -- So does one through a SOCKS5 proxy, if the DSN has a user name and a password.
  pub establish_via_dsn-socks5 :
      (d : Socks5Dsn) (user pass : Text) (host : Text) (port limit : ℕ)
      → d.user ≡ some user
      → d.pass ≡ some pass
      → Peers ⊥ env
      → Settles (establish_via_dsn env (socks5 d) host port limit)
  unfolding establish_via_dsn
  establish_via_dsn-socks5 d user pass host port limit u p peers w =
      weaken-Post ⊥ (λ s. Spoken d host port s.sent) (λ _. Unit {0})
        (establish_socks5 env host port d limit w).0 (λ s spoken. tt)
        (establish_socks5-Ensures env host port d limit w user pass u p peers)
