-- ===== src/Examples/Handshakes.antt =====
-- Examples: attempts through channels, tunnels and the pooled SSH session.
use multi_proxy.Examples.Data.{
  channel, failed, http_dsn, socks5_dsn, ssh_dsn, other_ssh_dsn, manager, world, peer, http_network,
  socks5_network, http_network-Peers, socks5_network-Peers,
}
use multi_proxy.Channel
use multi_proxy.Channel.{Channel}
use multi_proxy.Dsn.{Dsn, http, socks5}
use multi_proxy.Strategy.{order}
use multi_proxy.Str.Utf8.{as_bytes}
use multi_proxy.Net.{World, done, fail, M, elapse}
use multi_proxy.Net.Post.{Settles, IsDone, Ensures}
use multi_proxy.Proxy.Http.{establish_http, connect_request, host_port}
use multi_proxy.Proxy.Http.Answer.{Opened, establish_http-Opened}
use multi_proxy.Proxy.Socks5.{establish_socks5, connect_command}
use multi_proxy.Proxy.Socks5.Handshake.{establish_socks5-Ensures, Spoken}
use multi_proxy.Proxy.Socks5.Frames.{read_command, read_command-connect_command, read_command-long}
use multi_proxy.Proxy.Tunnel.{got, try_channels, establish_via_dsn, acquire_tunnel}
use multi_proxy.Proxy.Tunnel.Fallback.{
  Reachable, acquire_tunnel-IsDone, establish_via_dsn-http, establish_via_dsn-socks5,
}
use multi_proxy.Proxy.Tunnel.Trace.{Traced, try_channels-Traced}
use multi_proxy.Net.{ask, SshPoolEntry}
use multi_proxy.Ssh.{open_session, get_or_connect, check_idle}
use multi_proxy.Ssh.Pool.{Undisturbed, get_or_connect_shared}
use multi_proxy.Base.{
  All, List, [], ap, arith, length, refl, some, suc, text, zero, ℕ, ◌<◌, ◌∷◌, ◌≡◌, ◌≢◌, ◌%◌, ◌++◌,
  ◌/◌,
}

abbrev pub origin : List ℕ
origin = text "example.org"

pub reachable : Reachable http_network origin 443 3000
reachable n = (5, peer _, refl, omega arith)

abbrev pub AllSettle : Type 0
AllSettle =
    All (λ (c : Channel). Settles (establish_via_dsn http_network c.dsn origin 443 3000))
      manager.channels

pub all_settle : AllSettle
all_settle = (
  establish_via_dsn-http http_network http_dsn origin 443 3000 http_network-Peers,
  (
    establish_via_dsn-socks5 http_network socks5_dsn (text "bob") (text "pw") origin 443 3000 refl
        refl http_network-Peers,
    tt,
  ),
)

acquire_tunnel-IsDone_example : IsDone (acquire_tunnel http_network order origin 443 3000 world).0
acquire_tunnel-IsDone_example =
    acquire_tunnel-IsDone http_network order origin 443 3000 world reachable all_settle

-- An attempt that only the SOCKS5 channel survives.
abbrev choosy : Dsn → M ℕ
choosy (socks5 d) w = (done d.port, elapse http_network 5 w)
choosy d w = (fail (text "refused"), elapse http_network 5 w)

-- One in its backoff window, one that fails, one that works.
abbrev tried_in_turn : List Channel
tried_in_turn =
    failed 0 (http http_dsn) ∷ channel 1 (http http_dsn) ∷ channel 2 (socks5 socks5_dsn) ∷ []

try_channels-Traced_example :
    Traced choosy tried_in_turn [] world
      (try_channels choosy tried_in_turn [] world).0
      (try_channels choosy tried_in_turn [] world).1
try_channels-Traced_example = try_channels-Traced choosy tried_in_turn [] world

tried_tested : (try_channels choosy tried_in_turn [] world).0 ≡ done (got 1080)
unfolding try_channels Channel.should_retry Channel.backoff
tried_tested = refl

establish_http-Opened_example :
    Ensures
      (Opened http_network
        (as_bytes (connect_request http_network.base64 origin 443 http_dsn))
        (host_port http_dsn.host http_dsn.port))
      (establish_http http_network origin 443 http_dsn 3000 world).0
establish_http-Opened_example =
    establish_http-Opened http_network origin 443 http_dsn 3000 world http_network-Peers

establish_socks5-Ensures_example :
    Ensures
      (λ s. Spoken socks5_dsn origin 443 s.sent)
      (establish_socks5 socks5_network origin 443 socks5_dsn 3000 world).0
establish_socks5-Ensures_example =
    establish_socks5-Ensures socks5_network origin 443 socks5_dsn 3000 world (text "bob")
      (text "pw") refl refl socks5_network-Peers

short : (s : List ℕ) → length (as_bytes s) ≡ 2 → length (as_bytes s) < 256
short s e = omega arith

host_bytes : length (as_bytes (text "ab")) ≡ 2
unfolding as_bytes text
host_bytes = refl

read_command-connect_command_example :
    read_command (connect_command (text "ab") 8080) ≡ some (as_bytes (text "ab"), 8080)
read_command-connect_command_example =
    read_command-connect_command (text "ab") 8080 (short (text "ab") host_bytes)

letters : ℕ → List ℕ
letters zero = []
letters (suc n) = b'a' ∷ letters n

letters-length : (n : ℕ) → length (as_bytes (letters n)) ≡ n
unfolding as_bytes letters
letters-length zero = refl
letters-length (suc n) = omega (arith, letters-length n)

read_command-long_example :
    (connect_command (letters 300) 80
      ≡ 5
        ∷ 1
        ∷ 0
        ∷ 3
        ∷ (length (as_bytes (letters 300)) % 256)
        ∷ (as_bytes (letters 300) ++ (80 / 256) ∷ (80 % 256) ∷ []))
    × (read_command (connect_command (letters 300) 80) ≢ some (as_bytes (letters 300), 80))
read_command-long_example = read_command-long (letters 300) 80 (omega (arith, letters-length 300))

undisturbed : Undisturbed http_network
undisturbed = record { pool = λ n p. refl; stays = λ n handle. refl }

after_first : (get_or_connect http_network ssh_dsn world).0 ≡ done 7
unfolding get_or_connect elapse open_session ask
after_first = refl

get_or_connect_shared_example :
    (get_or_connect http_network other_ssh_dsn (get_or_connect http_network ssh_dsn world).1).0
    ≡ done 7
get_or_connect_shared_example =
    get_or_connect_shared http_network ssh_dsn other_ssh_dsn 7 world
      (get_or_connect http_network ssh_dsn world).1 undisturbed
      (ap (λ o. (o, (get_or_connect http_network ssh_dsn world).1)) after_first)

abbrev entry : SshPoolEntry
entry = record { handle = 7; last_used = 5000; dsn_key = text "eve@10.0.0.3:22" }

abbrev pooled : World
pooled = record world { pool = some entry }

kept : (check_idle http_network 60000 pooled).1.pool ≡ some entry
unfolding check_idle elapse
kept = refl
