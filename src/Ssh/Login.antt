-- ===== src/Ssh/Login.antt =====
-- src/upstream/ssh.rs, `establish`: how the sessions that are used were logged in.
use multi_proxy.Dsn.{SshDsn}
use multi_proxy.Net.{Env, World, SshPoolEntry, reply, M, elapse, ask, from_result, map_err}
use multi_proxy.Net.Post.{Post}
use multi_proxy.Net.Guarded.{
  Safe, next-Safe, weaken-Safe, prefixed-Safe, from_result-Safe, elapse-Good, ask-Safe,
}
use multi_proxy.Proxy.Http.{host_port}
use multi_proxy.Ssh.{
  client_config, check_server_key, session_key, get_default_key_path, with_key, authenticate,
  store_session, touch, clear, finish_session, open_session, is_closed, reuse, get_or_connect,
}
use multi_proxy.Ssh.{establish, idle_check, check_idle, reap, session_idle_timeout}
use multi_proxy.Net.{Stream}
use multi_proxy.Base.{
  Bool, Bool-cases, Option, Text, false, inl, inr, none, ok, refl, some, text, true, ℕ, ◌≡◌, subst,
  ltb, ◌-◌, ◌||◌,
}

module _ (env : Env) where
  -- The server took the key that the file at `path` holds.
  abbrev KeyLogin : ℕ → Text → Text → Type 0
  KeyLogin session user path =
      (content : Text) × (key : Text) × (n : ℕ) × (d : ℕ) × (env.read_to_string path ≡ ok content)
      × (env.decode_secret_key content ≡ ok key)
      × (env.ssh_publickey n session user key ≡ reply d (ok true))

  -- The server took the login of a DSN with this password, key and default key.
  abbrev LoggedIn : ℕ → Text → Option Text → Option Text → Option Text → Type 0
  LoggedIn session user (some pass) key default_key =
      (n : ℕ) × (d : ℕ) × (env.ssh_password n session user pass ≡ reply d (ok true))
  LoggedIn session user none (some path) default_key = KeyLogin session user path
  LoggedIn session user none none (some path) = KeyLogin session user path
  LoggedIn session user none none none = ⊥

  -- The session was connected to the address of a DSN with this key, and logged in as the DSN says.
  pub record Trusted (handle : ℕ) (key : Text) : Type 0 where
    pub dsn : SshDsn
    pub named : session_key dsn ≡ key
    pub connected :
        (n : ℕ) × (d : ℕ) × (env.ssh_connect n
            (client_config dsn)
            (host_port dsn.host dsn.port)
            check_server_key
          ≡ reply d (ok handle))
    pub logged_in : LoggedIn handle dsn.user dsn.pass dsn.key_path (get_default_key_path env)

  abbrev pub PoolTrusted : Option SshPoolEntry → Type 0
  PoolTrusted none = Unit {0}
  PoolTrusted (some e) = Trusted e.handle e.dsn_key

  -- The other tasks keep the pool so.
  abbrev pub OthersKeep : Type 0
  OthersKeep =
      (n : ℕ) (p : Option SshPoolEntry) → PoolTrusted p → PoolTrusted ((env.meanwhile n).pool p)

  module _ (keep : OthersKeep) where
    with_key-Safe :
        (session : ℕ) (user reading path : Text) (w : World)
        → PoolTrusted w.pool
        → Safe PoolTrusted
            (λ b. b ≡ true → KeyLogin session user path)
            (with_key env session user reading path w)
    unfolding with_key
    with_key-Safe session user reading path w h =
        let Login = λ (b : Bool). b ≡ true → KeyLogin session user path in
        next-Safe PoolTrusted (λ content. env.read_to_string path ≡ ok content) Login
          (map_err reading (from_result (env.read_to_string path)) w) _
          (prefixed-Safe PoolTrusted _ reading (from_result (env.read_to_string path) w)
            (from_result-Safe PoolTrusted (env.read_to_string path) w h))
          λ content is_read w1 h1.
            next-Safe PoolTrusted (λ key. env.decode_secret_key content ≡ ok key) Login
              (map_err (text "Failed to parse key: ") (from_result (env.decode_secret_key content))
                w1)
              _
              (prefixed-Safe PoolTrusted _ (text "Failed to parse key: ")
                (from_result (env.decode_secret_key content) w1)
                (from_result-Safe PoolTrusted (env.decode_secret_key content) w1 h1))
              λ key decoded w2 h2.
                weaken-Safe PoolTrusted _ Login
                  (ask env (λ n. env.ssh_publickey n session user key) w2)
                  (λ b (n, d, e) agreed. (
                    content,
                    key,
                    n,
                    d,
                    is_read,
                    decoded,
                    subst (λ x. env.ssh_publickey n session user key ≡ reply d (ok x)) agreed e,
                  ))
                  (ask-Safe PoolTrusted env keep (λ n. env.ssh_publickey n session user key) w2 h2)

    authenticate-Safe :
        (session : ℕ) (user : Text) (pass key default_key : Option Text) (w : World)
        → PoolTrusted w.pool
        → Safe PoolTrusted
            (λ b. b ≡ true → LoggedIn session user pass key default_key)
            (authenticate env session user pass key default_key w)
    unfolding authenticate
    authenticate-Safe session user (some pass) key default_key w h =
        weaken-Safe PoolTrusted _
          (λ b. b ≡ true → LoggedIn session user (some pass) key default_key)
          (ask env (λ n. env.ssh_password n session user pass) w)
          (λ b (n, d, e) agreed.
            (n, d, subst (λ x. env.ssh_password n session user pass ≡ reply d (ok x)) agreed e))
          (ask-Safe PoolTrusted env keep (λ n. env.ssh_password n session user pass) w h)
    authenticate-Safe session user none (some path) default_key w h =
        with_key-Safe session user (text "Failed to read key: ") path w h
    authenticate-Safe session user none none (some path) w h =
        with_key-Safe session user (text "Failed to read default key: ") path w h
    authenticate-Safe session user none none none w h = (h, tt)

    abbrev Usable : ℕ → Type 0
    Usable handle = (key : Text) × Trusted handle key

    finish_session-Safe :
        (dsn : SshDsn) (session : ℕ) (b : Bool) (w : World)
        → (b ≡ true → Trusted session (session_key dsn))
        → PoolTrusted w.pool
        → Safe PoolTrusted Usable (finish_session env dsn session b w)
    unfolding finish_session store_session
    finish_session-Safe dsn session true w t h = (t refl, (session_key dsn, t refl))
    finish_session-Safe dsn session false w t h = (h, tt)

    open_session-Safe :
        (dsn : SshDsn) (w : World)
        → PoolTrusted w.pool
        → Safe PoolTrusted Usable (open_session env dsn w)
    unfolding open_session
    open_session-Safe dsn w h =
        let call = λ (n : ℕ).
          env.ssh_connect n (client_config dsn) (host_port dsn.host dsn.port) check_server_key in
        next-Safe PoolTrusted _ Usable (map_err (text "SSH connect failed: ") (ask env call) w) _
          (prefixed-Safe PoolTrusted _ (text "SSH connect failed: ") (ask env call w)
            (ask-Safe PoolTrusted env keep call w h))
          λ session connected w1 h1.
            next-Safe PoolTrusted
              (λ b.
                b ≡ true
                → LoggedIn session dsn.user dsn.pass dsn.key_path (get_default_key_path env))
              Usable
              (authenticate env session dsn.user dsn.pass dsn.key_path (get_default_key_path env)
                w1)
              _
              (authenticate-Safe session dsn.user dsn.pass dsn.key_path (get_default_key_path env)
                w1 h1)
              λ b login w2 h2.
                finish_session-Safe dsn session b w2
                  (λ agreed. record {
                    dsn = dsn;
                    named = refl;
                    connected = connected;
                    logged_in = login agreed;
                  })
                  h2

    reuse-Safe :
        (slow : M ℕ) (entry : Option SshPoolEntry) (w : World)
        → ((w : World) → PoolTrusted w.pool → Safe PoolTrusted Usable (slow w))
        → PoolTrusted entry
        → PoolTrusted w.pool
        → Safe PoolTrusted Usable (reuse env slow entry w)
    unfolding reuse touch clear
    reuse-Safe slow none w opens e h = opens w h
    reuse-Safe slow (some entry) w opens e h = elim (Bool-cases (is_closed env entry w)) [
      | inl gone ↦ rw (gone, reuse) (opens (clear w) tt)
      | inr kept ↦ rw (kept, reuse) (e, (entry.dsn_key, e))
    ]

    -- A session that is given was logged in, whether it is new or was in the pool.
    pub get_or_connect-Trusted :
        (dsn : SshDsn) (w : World)
        → PoolTrusted w.pool
        → PoolTrusted (get_or_connect env dsn w).1.pool
          × Post
              (Unit {0})
              (λ handle. (key : Text) × Trusted handle key)
              (get_or_connect env dsn w).0
    unfolding get_or_connect
    get_or_connect-Trusted dsn w h =
        let w1 = elapse env 0 w in
        reuse-Safe (open_session env dsn) w1.pool w1 (open_session-Safe dsn)
          (elapse-Good PoolTrusted env keep 0 w h) (elapse-Good PoolTrusted env keep 0 w h)

    -- A stream to the target, on a session that was logged in.
    abbrev Opened : SshDsn → Text → ℕ → Stream → Type 0
    Opened dsn host port s =
        (handle : ℕ) × (key : Text) × Trusted handle key
        × (n : ℕ) × (d : ℕ) × (env.ssh_open n handle host port dsn.host dsn.port ≡ reply d (ok s))

    -- If the other tasks leave in the pool only sessions that were connected to the address of a DSN and
    -- then logged in with what that DSN has (by its password, if it has one, even where it has a key too;
    -- without a password by its key; without that by the default key), each under that DSN's name, then `establish` does so too; and a stream that it gives
    -- was opened to the host and port that were asked for, on one of these sessions: never on one whose
    -- login failed or was not tried.
    pub establish-Trusted :
        (dsn : SshDsn) (host : Text) (port : ℕ) (w : World)
        → PoolTrusted w.pool
        → PoolTrusted (establish env dsn host port w).1.pool
          × Post
              (Unit {0})
              (λ s.
                (handle : ℕ) × (key : Text) × Trusted handle key
                × (n : ℕ) × (d : ℕ) × (env.ssh_open n handle host port dsn.host dsn.port
                    ≡ reply d (ok s)))
              (establish env dsn host port w).0
    unfolding establish
    establish-Trusted dsn host port w h =
        next-Safe PoolTrusted Usable (Opened dsn host port) (get_or_connect env dsn w) _
          (get_or_connect-Trusted dsn w h)
          λ handle (key, trusted) w1 h1.
            let call = λ (n : ℕ). env.ssh_open n handle host port dsn.host dsn.port in
            prefixed-Safe PoolTrusted (Opened dsn host port) (text "SSH channel open failed: ")
              (ask env call w1)
              (weaken-Safe PoolTrusted _ (Opened dsn host port) (ask env call w1)
                (λ s (n, d, e). (handle, key, trusted, n, d, e))
                (ask-Safe PoolTrusted env keep call w1 h1))

    idle_check-Trusted :
        (idle_timeout : ℕ) (w : World) (o : Option SshPoolEntry)
        → PoolTrusted w.pool
        → PoolTrusted (idle_check env idle_timeout w o).pool
    unfolding idle_check clear
    idle_check-Trusted idle_timeout w none h = h
    idle_check-Trusted idle_timeout w (some entry) h =
        elim (Bool-cases (is_closed env entry w || ltb idle_timeout (w.now - entry.last_used))) [
          | inl out ↦ rw out tt
          | inr stays ↦ rw stays h
        ]

    -- The idle reaper keeps the pool so as well.
    pub reap-Trusted :
        (wait : ℕ) (w : World) → PoolTrusted w.pool → PoolTrusted (reap env wait w).1.pool
    unfolding reap check_idle
    reap-Trusted wait w h =
        let w1 = elapse env wait w in
        let w2 = elapse env 0 w1 in
        idle_check-Trusted (session_idle_timeout env) w2 w2.pool
          (elapse-Good PoolTrusted env keep 0 w1 (elapse-Good PoolTrusted env keep wait w h))
