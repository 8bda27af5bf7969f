-- ===== src/Ssh.antt =====
-- src/upstream/ssh.rs: the pooled SSH session and the streams opened on it. russh, russh_keys, the
-- environment variables and the file system answer through `Env`. The wait for a session's mutex is
-- part of the delay of the call made under it.
pub mod Pool
pub mod Login
pub mod Shared
use multi_proxy.Str.{is_empty}
use multi_proxy.Dsn.{SshDsn, unwrap_or}
use multi_proxy.Proxy.Http.{host_port}
use multi_proxy.Net.{
  Env, World, Stream, SshPoolEntry, M, pure, throw, next, get, update, map_err, from_result, pause,
  ask, ◌>>=◌, ◌>>◌, ClientConfig,
}
use multi_proxy.Base.{
  Bool, List, Option, Text, [], false, if◌then◌else◌, ltb, none, some, text, true, ℕ, ◌++◌, ◌-◌,
  ◌==◌, ◌||◌, ◌∷◌, Result, ok,
}

-- `SimpleHandler`: every key of a server is accepted.
abbrev pub check_server_key : Text → Result Bool
check_server_key server_public_key = ok true

abbrev pub client_config : SshDsn → ClientConfig
client_config dsn = record {
  inactivity_timeout = some 60;
  keepalive_interval = some dsn.keepalive;
  keepalive_max = 3;
}

-- Does a path end in a slash?
slashed : Text → Bool
slashed [] = true
slashed (c ∷ []) = c == b'/'
slashed (c ∷ d ∷ s) = slashed (d ∷ s)

-- `dir.join(name)`
unfoldable pub join : Text → Text → Text
unfolding slashed
join dir name = if slashed dir then dir ++ name else dir ++ b'/' ∷ name

abbrev pub key_names : List Text
key_names = text "id_ed25519" ∷ text "id_rsa" ∷ text "id_ecdsa" ∷ []

abbrev pub session_key : SshDsn → Text
session_key dsn = dsn.user ++ b'@' ∷ host_port dsn.host dsn.port

store_session : SshDsn → ℕ → World → World
store_session dsn handle w = record w {
  pool = some (record { handle = handle; last_used = w.now; dsn_key = session_key dsn });
}

-- Note the use of a pooled session.
touch : SshPoolEntry → World → World
touch entry w = record w { pool = some (record entry { last_used = w.now }) }

clear : World → World
clear w = record w { pool = none }

module _ (env : Env) where
  -- The first key that exists in a directory.
  unfoldable pub first_key : Text → List Text → Option Text
  unfolding join
  first_key dir [] = none
  first_key dir (name ∷ names) =
      if env.exists (join dir name) then some (join dir name) else first_key dir names

  key_under : Option Text → Option Text
  unfolding first_key join
  key_under none = none
  key_under (some dir) = first_key (join dir (text ".ssh")) key_names

  or_else : Option Text → Option Text → Option Text
  or_else (some path) later = some path
  or_else none later = later

  unfoldable pub get_default_key_path : Option Text
  unfolding key_under or_else
  get_default_key_path =
      or_else (key_under (env.var (text "HOME"))) (key_under (env.var (text "USERPROFILE")))

  -- Log in with the private key in a file.
  with_key : ℕ → Text → Text → Text → M Bool
  with_key session user reading path = do
    key_str ← map_err reading (from_result (env.read_to_string path))
    key_pair ← map_err (text "Failed to parse key: ") (from_result (env.decode_secret_key key_str))
    ask env (λ n. env.ssh_publickey n session user key_pair)

  -- A password goes before a key, and a key before the default key.
  unfoldable pub authenticate : ℕ → Text → Option Text → Option Text → Option Text → M Bool
  unfolding with_key
  authenticate session user (some pass) key default_key =
      ask env (λ n. env.ssh_password n session user pass)
  authenticate session user none (some path) default_key =
      with_key session user (text "Failed to read key: ") path
  authenticate session user none none (some path) =
      with_key session user (text "Failed to read default key: ") path
  authenticate session user none none none = throw (text "SSH auth: need password or key")

  -- Put a session that is logged in into the pool.
  finish_session : SshDsn → ℕ → Bool → M ℕ
  unfolding store_session
  finish_session dsn session true = do pause env 0; update (store_session dsn session); pure session
  finish_session dsn session false = throw (text "SSH authentication failed")

  -- The slow path: connect, log in, and put the session into the pool.
  unfoldable pub open_session : SshDsn → M ℕ
  unfolding authenticate get_default_key_path finish_session
  open_session dsn = do
    session ← map_err (text "SSH connect failed: ") (
        ask env (λ n.
          env.ssh_connect n (client_config dsn) (host_port dsn.host dsn.port) check_server_key))
    authenticated ← authenticate session dsn.user dsn.pass dsn.key_path get_default_key_path
    finish_session dsn session authenticated

  -- `try_lock().map(|h| h.is_closed()).unwrap_or(false)`: a session in use counts as open.
  pub is_closed : SshPoolEntry → World → Bool
  unfolding unwrap_or
  is_closed entry w = unwrap_or false (env.ssh_closed w.awaits entry.handle)

  -- The fast path, on the entry that the pool holds; `slow` is the rest of the function.
  reuse : M ℕ → Option SshPoolEntry → M ℕ
  unfolding is_closed touch clear
  reuse slow none w = slow w
  reuse slow (some entry) w =
      if is_closed entry w then slow (clear w) else pure entry.handle (touch entry w)

  unfoldable pub get_or_connect : SshDsn → M ℕ
  unfolding reuse
  get_or_connect dsn = do pause env 0; w ← get; reuse (open_session dsn) w.pool

  -- What `check_idle` leaves of the pool.
  idle_check : ℕ → World → Option SshPoolEntry → World
  unfolding is_closed
  idle_check idle_timeout w none = w
  idle_check idle_timeout w (some entry) =
      if is_closed entry w || ltb idle_timeout (w.now - entry.last_used) then clear w else w

  unfoldable pub check_idle : ℕ → M (Unit {0})
  unfolding idle_check clear
  check_idle idle_timeout = do pause env 0; update (λ w. idle_check idle_timeout w w.pool)

  -- `SESSION_IDLE_TIMEOUT`, in milliseconds.
  abbrev pub session_idle_timeout : ℕ
  session_idle_timeout = 60000

  -- The period of `start_idle_reaper`, in milliseconds.
  abbrev pub reap_period : ℕ
  reap_period = 30000

  -- One round of `start_idle_reaper`; `wait` is what is left of the period, nothing the first time.
  unfoldable pub reap : ℕ → M (Unit {0})
  unfolding check_idle
  reap wait = do pause env wait; check_idle session_idle_timeout

  unfoldable pub establish : SshDsn → Text → ℕ → M Stream
  establish dsn target_host target_port = do
    handle ← get_or_connect dsn
    map_err (text "SSH channel open failed: ")
        (ask env (λ n. env.ssh_open n handle target_host target_port dsn.host dsn.port))
