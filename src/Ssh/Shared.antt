-- ===== src/Ssh/Shared.antt =====
-- Opening an SSH stream keeps the manager well formed, whatever russh answers.
use multi_proxy.Dsn.{SshDsn}
use multi_proxy.Net.{Env, World, SshPoolEntry, M, map_err, from_result, ask}
use multi_proxy.Net.Run.{
  Kept, Keeps, Kept-refl, Kept-trans, elapse-Kept, >>=-Keeps, from_result-Keeps, ask-Keeps,
}
use multi_proxy.Ssh.{
  with_key, authenticate, open_session, reuse, is_closed, touch, clear, get_or_connect, establish,
  store_session, get_default_key_path, finish_session,
}
use multi_proxy.Net.{World, SshPoolEntry, elapse}
use multi_proxy.Net.Run.{Kept, Kept-refl, Kept-trans, elapse-Kept}
use multi_proxy.Ssh.{clear, idle_check, check_idle, reap, session_idle_timeout}
use multi_proxy.Base.{
  Bool, Bool-cases, Option, Text, false, inl, inr, none, some, text, true, ℕ, arith, if◌then◌else◌,
  refl,
}

-- The pool is no part of what is kept.
pool-Kept :
    (pool : Option SshPoolEntry) {w w1 : World} → Kept w w1 → Kept w (record w1 { pool = pool })
pool-Kept pool h = record {
  valid = h.valid;
  same_dsns = h.same_dsns;
  same_config = h.same_config;
  later = h.later;
}

module _ (env : Env) where
  with_key-Keeps :
      (session : ℕ) (user reading path : Text) → Keeps (with_key env session user reading path)
  unfolding with_key
  with_key-Keeps session user reading path =
      >>=-Keeps (map_err reading (from_result (env.read_to_string path))) _
        (from_result-Keeps (env.read_to_string path))
        λ key_str.
          >>=-Keeps
            (map_err (text "Failed to parse key: ") (from_result (env.decode_secret_key key_str))) _
            (from_result-Keeps (env.decode_secret_key key_str))
            λ key_pair. ask-Keeps env (λ n. env.ssh_publickey n session user key_pair)

  authenticate-Keeps :
      (session : ℕ) (user : Text) (pass key default_key : Option Text)
      → Keeps (authenticate env session user pass key default_key)
  unfolding authenticate
  authenticate-Keeps session user (some pass) key default_key = ask-Keeps env _
  authenticate-Keeps session user none (some path) default_key = with_key-Keeps session user _ path
  authenticate-Keeps session user none none (some path) = with_key-Keeps session user _ path
  authenticate-Keeps session user none none none = Kept-refl

  finish-Keeps :
      (dsn : SshDsn) (session : ℕ) (authenticated : Bool)
      → Keeps (finish_session env dsn session authenticated)
  unfolding finish_session store_session
  finish-Keeps dsn session true w = pool-Kept _ (elapse-Kept env 0 w)
  finish-Keeps dsn session false w = Kept-refl w

  open_session-Keeps : (dsn : SshDsn) → Keeps (open_session env dsn)
  unfolding open_session
  open_session-Keeps dsn =
      >>=-Keeps (map_err (text "SSH connect failed: ") (ask env _)) _ (ask-Keeps env _) λ session.
        >>=-Keeps
          (authenticate env session dsn.user dsn.pass dsn.key_path (get_default_key_path env)) _
          (authenticate-Keeps session dsn.user dsn.pass dsn.key_path (get_default_key_path env))
          (finish-Keeps dsn session)

  reuse-Keeps :
      (slow : M ℕ) (entry : Option SshPoolEntry) → Keeps slow → Keeps (reuse env slow entry)
  unfolding reuse touch clear
  reuse-Keeps slow none h w = h w
  reuse-Keeps slow (some entry) h w = elim (Bool-cases (is_closed env entry w)) [
    | inl e ↦ rw (e, reuse) (Kept-trans (pool-Kept none (Kept-refl w)) (h (clear w)))
    | inr e ↦ rw (e, reuse) (pool-Kept _ (Kept-refl w))
  ]

  get_or_connect-Keeps : (dsn : SshDsn) → Keeps (get_or_connect env dsn)
  unfolding get_or_connect
  get_or_connect-Keeps dsn w =
      Kept-trans (elapse-Kept env 0 w)
        (reuse-Keeps (open_session env dsn) _ (open_session-Keeps dsn) _)

  pub establish-Keeps :
      (dsn : SshDsn) (host : Text) (port : ℕ) → Keeps (establish env dsn host port)
  unfolding establish
  establish-Keeps dsn host port =
      >>=-Keeps (get_or_connect env dsn) _ (get_or_connect-Keeps dsn) λ handle. ask-Keeps env _

module _ (env : Env) where
  cleared_Kept : (b : Bool) (w : World) → Kept w (if b then clear w else w)
  unfolding clear
  cleared_Kept true w = record {
    valid = λ h. h;
    same_dsns = refl;
    same_config = refl;
    later = omega arith;
  }
  cleared_Kept false w = Kept-refl w

  idle_check-Kept :
      (timeout : ℕ) (w : World) (o : Option SshPoolEntry) → Kept w (idle_check env timeout w o)
  unfolding idle_check clear
  idle_check-Kept timeout w none = Kept-refl w
  idle_check-Kept timeout w (some e) = cleared_Kept _ w

  -- So does a round of the idle reaper.
  pub reap-Keeps : (wait : ℕ) → Keeps (reap env wait)
  unfolding reap check_idle
  reap-Keeps wait w = Kept-trans (elapse-Kept env wait w) (
      Kept-trans (elapse-Kept env 0 (elapse env wait w)) (
        idle_check-Kept (session_idle_timeout env) (elapse env 0 (elapse env wait w))
          (elapse env 0 (elapse env wait w)).pool))
