-- ===== src/Net/Run.antt =====
-- What every run keeps of the shared state, with a rule for each way to build a computation.
use multi_proxy.Manager.{ChannelManager}
use multi_proxy.Manager.Laws.{
  Event, IsValid, Verdict, good, bad, dsns, mark, marks, marks-IsValid, dsns-marks,
}
use multi_proxy.Net.{
  Env, World, Stream, Dial, accepted, refused, unanswered, Reply, reply, no_reply, Outcome, done,
  fail, panic, hang, M, next, from_result, elapse, answer, ask, dialed, connect, Arrival, bytes,
  eof, error, never, arrive, gather, received, read, read_exact, write_all, ◌>>=◌, blocked,
}
use multi_proxy.Base.{
  List, [], arith, refl, ℕ, ◌∙◌, ◌∷◌, ◌≡◌, ◌≤◌, Bool, Bool-cases, Bytes, Option-cases, Result, Text,
  err, false, if◌then◌else◌, inl, inr, leb, length, ltb, ok, true, ◌++◌, Option, none, some,
}

-- The manager stays well formed, with the same channels and settings, and the clock never goes back.
pub record Kept (w w' : World) : Type 0 where
  pub valid : IsValid w.manager → IsValid w'.manager
  pub same_dsns : dsns w'.manager ≡ dsns w.manager
  pub same_config : w'.manager.config ≡ w.manager.config
  pub later : w.now ≤ w'.now

pub Kept-refl : (w : World) → Kept w w
Kept-refl w = record { valid = λ h. h; same_dsns = refl; same_config = refl; later = omega arith }

pub Kept-trans : {u v w : World} → Kept u v → Kept v w → Kept u w
Kept-trans h k = record {
  valid = λ v. k.valid (h.valid v);
  same_dsns = k.same_dsns ∙ h.same_dsns;
  same_config = k.same_config ∙ h.same_config;
  later = omega arith;
}

config-marks : (es : List Event) (m : ChannelManager) → (marks es m).config ≡ m.config
unfolding marks
config-marks [] m = refl
config-marks (e ∷ es) m =
    config-marks es (mark e.verdict e.now e.id m) ∙ config-mark e.verdict e.now e.id m
  where
    config-mark :
        (v : Verdict) (now id : ℕ) (m : ChannelManager) → (mark v now id m).config ≡ m.config
    config-mark good now id m = refl
    config-mark bad now id m = refl

pub elapse-Kept : (env : Env) (delay : ℕ) (w : World) → Kept w (elapse env delay w)
unfolding elapse
elapse-Kept env delay w = record {
  valid = marks-IsValid (env.meanwhile w.awaits).events w.manager;
  same_dsns = dsns-marks (env.meanwhile w.awaits).events w.manager;
  same_config = config-marks (env.meanwhile w.awaits).events w.manager;
  later = omega arith;
}

-- The manager after a mark of this task, the rest of the world as it was.
pub mark-Kept :
    (v : Verdict) (id : ℕ) (w : World) → Kept w (record w { manager = mark v w.now id w.manager })
unfolding marks
mark-Kept v id w =
    let e : Event = record { verdict = v; id = id; now = w.now } in
    record {
      valid = marks-IsValid (e ∷ []) w.manager;
      same_dsns = dsns-marks (e ∷ []) w.manager;
      same_config = config-marks (e ∷ []) w.manager;
      later = omega arith;
    }

abbrev pub Keeps : {A : Type 0} → M A → Type 0
Keeps m = (w : World) → Kept w (m w).1

module _ {A B : Type 0} where
  pub next-Kept :
      {w : World} (r : Outcome A × World) (f : A → M B)
      → Kept w r.1
      → ((a : A) → Keeps (f a))
      → Kept w (next r f).1
  next-Kept (done a, w1) f h k = Kept-trans h (k a w1)
  next-Kept (fail e, w1) f h k = h
  next-Kept (panic, w1) f h k = h
  next-Kept (hang, w1) f h k = h

  pub >>=-Keeps : (m : M A) (f : A → M B) → Keeps m → ((a : A) → Keeps (f a)) → Keeps (m >>= f)
  >>=-Keeps m f h k w = next-Kept (m w) f (h w) k

module _ {A : Type 0} where
  pub from_result-Keeps : (r : Result A) → Keeps (from_result r)
  from_result-Keeps (ok a) w = Kept-refl w
  from_result-Keeps (err e) w = Kept-refl w

  pub if-Keeps : (b : Bool) (m n : M A) → Keeps m → Keeps n → Keeps (if b then m else n)
  if-Keeps true m n h k = h
  if-Keeps false m n h k = k

module _ (env : Env) where
  answer-Kept : {A : Type 0} (r : Reply A) (w : World) → Kept w (answer env r w).1
  unfolding answer
  answer-Kept (reply delay r) w =
      Kept-trans (elapse-Kept env delay w) (from_result-Keeps r (elapse env delay w))
  answer-Kept no_reply w = Kept-refl w

  pub ask-Keeps : {A : Type 0} (call : ℕ → Reply A) → Keeps (ask env call)
  unfolding ask
  ask-Keeps call w = answer-Kept (call w.awaits) w

  dialed-Kept :
      (limit : ℕ) (late prefix : Text) (d : Dial) (w : World)
      → Kept w (dialed env limit late prefix d w).1
  unfolding dialed
  dialed-Kept limit late prefix (accepted delay s) w = elim (Bool-cases (leb delay limit)) [
    | inl e ↦ rw e (elapse-Kept env delay w)
    | inr e ↦ rw e (elapse-Kept env limit w)
  ]
  dialed-Kept limit late prefix (refused delay t) w = elim (Bool-cases (leb delay limit)) [
    | inl e ↦ rw e (elapse-Kept env delay w)
    | inr e ↦ rw e (elapse-Kept env limit w)
  ]
  dialed-Kept limit late prefix unanswered w = elapse-Kept env limit w

  pub connect-Keeps :
      (limit : ℕ) (addr late prefix : Text) → Keeps (connect env limit addr late prefix)
  unfolding connect
  connect-Keeps limit addr late prefix w = dialed-Kept limit late prefix (env.dial w.awaits addr) w

  received-Kept :
      (s : Stream) (cap : ℕ) (a : Arrival) (w : World) → Kept w (received env s cap a w).1
  unfolding received
  received-Kept s cap (bytes d bs rest) w = elapse-Kept env d w
  received-Kept s cap (eof d) w = elapse-Kept env d w
  received-Kept s cap (error d e) w = elapse-Kept env d w
  received-Kept s cap never w = Kept-refl w

  pub read-Keeps : (cap : ℕ) (s : Stream) → Keeps (read env cap s)
  unfolding read
  read-Keeps cap s = received-Kept s cap (arrive 0 s.inbox)

  pub read_exact-Keeps : (need : ℕ) (s : Stream) → Keeps (read_exact env need s)
  unfolding read_exact
  read_exact-Keeps need s = received-Kept s need (gather need [] 0 s.inbox)

  blocked-Kept : (t : Option Text) (w : World) → Kept w (blocked env t w).1
  unfolding blocked
  blocked-Kept none w = Kept-refl w
  blocked-Kept (some e) w = elapse-Kept env 0 w

  pub write_all-Keeps : (buf : Bytes) (s : Stream) → Keeps (write_all env buf s)
  unfolding write_all
  write_all-Keeps buf s w = elim (Option-cases s.write_fault) [
    | inl e ↦ rw (e, write_all) (elapse-Kept env 0 w)
    | inr ((n, t), e) ↦
        rw (e, write_all)
          (elim (Bool-cases (ltb n (length (s.sent ++ buf)))) [
            | inl full ↦ rw full (blocked-Kept t w)
            | inr room ↦ rw room (elapse-Kept env 0 w)
          ])
  ]
