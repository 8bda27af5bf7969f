-- ===== src/Examples/Sessions.antt =====
-- Examples: SSH sessions.
use multi_proxy.Examples.Data.{http_network, ssh_dsn, world}
use multi_proxy.Net.Post.{Post}
use multi_proxy.Net.{reply}
use multi_proxy.Ssh.{establish}
use multi_proxy.Ssh.Login.{Trusted, PoolTrusted, OthersKeep, establish-Trusted}
use multi_proxy.Base.{Text, ok, text, ℕ, ◌≡◌}

others : OthersKeep http_network
others n p h = h

establish-Trusted_example :
    PoolTrusted http_network (establish http_network ssh_dsn (text "a") 443 world).1.pool
    × Post
        (Unit {0})
        (λ s.
          (handle : ℕ) × (key : Text) × Trusted http_network handle key
          × (n : ℕ) × (d : ℕ) × (http_network.ssh_open n handle
                (text "a")
                443
                ssh_dsn.host
                ssh_dsn.port
              ≡ reply d (ok s)))
        (establish http_network ssh_dsn (text "a") 443 world).0
establish-Trusted_example = establish-Trusted http_network others ssh_dsn (text "a") 443 world tt
