-- ===== src/Ssh/Pool.antt =====
-- The pool of SSH sessions: one slot, whichever DSN asks.
use multi_proxy.Net.{
  Env, World, SshPoolEntry, Outcome, done, fail, panic, hang, M, next, elapse, map_err, ask,
}
use multi_proxy.Dsn.{SshDsn, unwrap_or}
use multi_proxy.Ssh.{
  finish_session, store_session, open_session, reuse, touch, clear, get_or_connect, is_closed,
  authenticate, get_default_key_path, client_config, check_server_key,
}
use multi_proxy.Proxy.Http.{host_port}
use multi_proxy.Base.{
  ◌≢◌, Option, false, some, ℕ, ◌≡◌, Bool, Bool-cases, inl, inr, none, refl, true, ◌-◌, ◌≤◌, ap,
  subst, ◌∙◌, text,
}

module _ (env : Env) where
  -- Nobody else touches the pool, and no session is ever closed.
  pub record Undisturbed : Type 0 where
    pub pool : (n : ℕ) (p : Option SshPoolEntry) → (env.meanwhile n).pool p ≡ p
    pub stays : (n handle : ℕ) → env.ssh_closed n handle ≡ some false

  -- The pool holds a session with this handle.
  abbrev pub Holds : ℕ → World → Type 0
  Holds handle w = (e : SshPoolEntry) × (w.pool ≡ some e) × (e.handle ≡ handle)

  Stored : Outcome ℕ → World → Type 0
  Stored (done handle) w = Holds handle w
  Stored (fail e) w = Unit {0}
  Stored panic w = Unit {0}
  Stored hang w = Unit {0}

  next-Stored :
      {A : Type 0} (r : Outcome A × World) (f : A → M ℕ)
      → ((a : A) (w : World) → Stored (f a w).0 (f a w).1)
      → Stored (next r f).0 (next r f).1
  unfolding Stored
  next-Stored (done a, w) f h = h a w
  next-Stored (fail e, w) f h = tt
  next-Stored (panic, w) f h = tt
  next-Stored (hang, w) f h = tt

  finish_session-Stored :
      (dsn : SshDsn) (session : ℕ) (b : Bool) (w : World)
      → Stored (finish_session env dsn session b w).0 (finish_session env dsn session b w).1
  unfolding finish_session store_session Stored
  finish_session-Stored dsn session true w = (_, refl, refl)
  finish_session-Stored dsn session false w = tt

  open_session-Stored :
      (dsn : SshDsn) (w : World) → Stored (open_session env dsn w).0 (open_session env dsn w).1
  unfolding open_session
  open_session-Stored dsn w =
      next-Stored
        (map_err (text "SSH connect failed: ")
          (ask env (λ n.
            env.ssh_connect n (client_config dsn) (host_port dsn.host dsn.port) check_server_key))
          w)
        _
        λ session w1.
          next-Stored
            (authenticate env session dsn.user dsn.pass dsn.key_path (get_default_key_path env) w1)
            _ λ b w2. finish_session-Stored dsn session b w2

  reuse-Stored :
      (slow : M ℕ) (entry : Option SshPoolEntry) (w : World)
      → ((w1 : World) → Stored (slow w1).0 (slow w1).1)
      → Stored (reuse env slow entry w).0 (reuse env slow entry w).1
  unfolding reuse touch clear Stored
  reuse-Stored slow none w h = h w
  reuse-Stored slow (some entry) w h = elim (Bool-cases (is_closed env entry w)) [
    | inl e ↦ rw (e, reuse) (h (clear w))
    | inr e ↦ rw (e, reuse) (_, refl, refl)
  ]

  get_or_connect-Stored :
      (dsn : SshDsn) (w : World) → Stored (get_or_connect env dsn w).0 (get_or_connect env dsn w).1
  unfolding get_or_connect
  get_or_connect-Stored dsn w =
      reuse-Stored (open_session env dsn) (elapse env 0 w).pool (elapse env 0 w)
        (open_session-Stored dsn)

  -- One session serves all DSNs: if nobody else changes the pool and no session is ever closed,
  -- then once a call for one DSN has given a session, a call for any other DSN gives the same
  -- session, to the first server.
  pub get_or_connect_shared :
      (first second : SshDsn) (handle : ℕ) (w w1 : World)
      → Undisturbed
      → get_or_connect env first w ≡ (done handle, w1)
      → (get_or_connect env second w1).0 ≡ done handle
  unfolding get_or_connect elapse reuse is_closed unwrap_or Stored
  get_or_connect_shared first second handle w w1 quiet e =
      let (entry, p, q) : Stored (done handle) w1 =
        subst (λ r. Stored r.0 r.1) e (get_or_connect-Stored first w) in
      let held : (elapse env 0 w1).pool ≡ some entry = quiet.pool w1.awaits w1.pool ∙ p in
      let usable : is_closed env entry (elapse env 0 w1) ≡ false =
        ap (unwrap_or false) (quiet.stays (elapse env 0 w1).awaits entry.handle) in
      rw (held, reuse) (rw (usable, reuse) (ap done q))

  -- A session that the idle check keeps.
  abbrev pub Stays : ℕ → World → SshPoolEntry → Type 0
  Stays idle_timeout w e =
      (w.pool ≡ some e)
      × (env.ssh_closed w.awaits e.handle ≢ some true)
      × (w.now - e.last_used ≤ idle_timeout)
