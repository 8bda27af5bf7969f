-- ===== src/Net/Post.antt =====
-- Postconditions of a computation. `bad` is what is claimed where it panics or never ends: with `⊥`
-- a postcondition says that it returns (total), with `Unit` only what holds if it does (partial).
use multi_proxy.Net.{
  Env, World, Stream, Inbox, closed, silent, broken, chunk, Dial, accepted, refused, unanswered,
  Outcome, done, fail, panic, hang, M, next, caught, connect, dialed, read, read_exact, received,
  Arrival, bytes, eof, error, never, arrive, gather, put_back, write_all, from_result, blocked,
}
use multi_proxy.Base.{
  Option, none, some, subst, sym, arith, ◌<◌, Bool-cases, Bytes, Result, Text, [], drop, inl, inr,
  leb, length, ltb, ok, refl, ℕ, ◌++◌, ◌+◌, ◌∷◌, ◌≡◌, err, Bool, false, if◌then◌else◌, true,
}

abbrev pub Post : {A : Type 0} → Type 0 → (A → Type 0) → Outcome A → Type 0
Post bad P (done a) = P a
Post bad P (fail e) = Unit {0}
Post bad P panic = bad
Post bad P hang = bad

-- It comes back, with a value that satisfies `P` or with an error.
abbrev pub Ensures : {A : Type 0} → (A → Type 0) → Outcome A → Type 0
Ensures = Post ⊥

abbrev pub Returned : {A : Type 0} → Outcome A → Type 0
Returned = Ensures (λ _. Unit {0})

abbrev pub Settles : {A : Type 0} → M A → Type 0
Settles m = (w : World) → Returned (m w).0

abbrev pub IsDone : {A : Type 0} → Outcome A → Type 0
IsDone {A} o = (a : A) × (o ≡ done a)

module _ {A B : Type 0} where
  pub next-IsDone :
      (r : Outcome A × World) (f : A → M B)
      → IsDone r.0
      → ((a : A) (w : World) → IsDone (f a w).0)
      → IsDone (next r f).0
  next-IsDone (done a, w) f h k = k a w
  next-IsDone (fail e, w) f h k = cc h.1
  next-IsDone (panic, w) f h k = cc h.1
  next-IsDone (hang, w) f h k = cc h.1

  pub attempt-IsDone :
      (r : Outcome A × World) (f : Result A → M B)
      → IsDone r.0
      → ((a : A) (w : World) → IsDone (f (ok a) w).0)
      → IsDone (next (caught r.0, r.1) f).0
  attempt-IsDone (done a, w) f h k = k a w
  attempt-IsDone (fail e, w) f h k = cc h.1
  attempt-IsDone (panic, w) f h k = cc h.1
  attempt-IsDone (hang, w) f h k = cc h.1

module _ (bad : Type 0) where
  pub next-Post :
      {A B : Type 0} (P : A → Type 0) (Q : B → Type 0) (r : Outcome A × World) (f : A → M B)
      → Post bad P r.0
      → ((a : A) → P a → (w : World) → Post bad Q (f a w).0)
      → Post bad Q (next r f).0
  next-Post P Q (done a, w) f h k = k a h w
  next-Post P Q (fail e, w) f h k = tt
  next-Post P Q (panic, w) f h k = h
  next-Post P Q (hang, w) f h k = h

  pub from_result-Post :
      {A B : Type 0} (Q : B → Type 0) (r : Result A) (f : A → M B) (w : World)
      → ((a : A) → r ≡ ok a → Post bad Q (f a w).0)
      → Post bad Q (next (from_result r w) f).0
  from_result-Post Q (ok a) f w h = h a refl
  from_result-Post Q (err e) f w h = tt

  pub if-Post :
      {A : Type 0} (P : A → Type 0) (b : Bool) (m n : M A) (w : World)
      → Post bad P (m w).0
      → Post bad P (n w).0
      → Post bad P ((if b then m else n) w).0
  if-Post P true m n w h k = h
  if-Post P false m n w h k = k

  pub weaken-Post :
      {A : Type 0} (P Q : A → Type 0) (o : Outcome A)
      → ((a : A) → P a → Q a)
      → Post bad P o
      → Post bad Q o
  weaken-Post P Q (done a) k h = k a h
  weaken-Post P Q (fail e) k h = tt
  weaken-Post P Q panic k h = h
  weaken-Post P Q hang k h = h

  -- A peer that is not silent for ever.
  abbrev pub Ends : Inbox → Type 0
  Ends closed = Unit {0}
  Ends silent = bad
  Ends (broken d e) = Unit {0}
  Ends (chunk d bs rest) = Ends rest

  -- A peer to which writing ends, if it ends at all, with an error.
  abbrev pub Takes : Option (ℕ × Option Text) → Type 0
  Takes none = Unit {0}
  Takes (some (n, some e)) = Unit {0}
  Takes (some (n, none)) = bad

  -- A stream on which neither reading nor writing waits for ever.
  abbrev pub Alive : Stream → Type 0
  Alive s = Ends s.inbox × Takes s.write_fault

  abbrev pub Heard : Arrival → Type 0
  Heard (bytes d bs rest) = Ends rest
  Heard (eof d) = Unit {0}
  Heard (error d e) = Unit {0}
  Heard never = bad

  pub arrive-Heard : (d : ℕ) (i : Inbox) → Ends i → Heard (arrive d i)
  unfolding arrive
  arrive-Heard d closed h = tt
  arrive-Heard d silent h = h
  arrive-Heard d (broken e t) h = tt
  arrive-Heard d (chunk e [] rest) h = arrive-Heard (d + e) rest h
  arrive-Heard d (chunk e (b ∷ bs) rest) h = h

  put_back-Ends : (bs : Bytes) (i : Inbox) → Ends i → Ends (put_back bs i)
  unfolding put_back
  put_back-Ends [] i h = h
  put_back-Ends (b ∷ bs) i h = h

  gather-Heard : (need : ℕ) (got : Bytes) (d : ℕ) (i : Inbox) → Ends i → Heard (gather need got d i)
  unfolding gather
  gather-Heard need got d closed h = tt
  gather-Heard need got d silent h = h
  gather-Heard need got d (broken e t) h = tt
  gather-Heard need got d (chunk e bs rest) h = elim (Bool-cases (leb need (length (got ++ bs)))) [
    | inl enough ↦ rw enough (put_back-Ends (drop need (got ++ bs)) rest h)
    | inr more ↦ rw more (gather-Heard need (got ++ bs) (d + e) rest h)
  ]

  module _ (env : Env) where
    -- Reading leaves what was sent, and a stream that is alive stays so.
    abbrev pub ReadFrom : Stream → Bytes × Stream → Type 0
    ReadFrom s r = (r.1.sent ≡ s.sent) × Alive r.1

    received-Post :
        (s : Stream) (cap : ℕ) (a : Arrival) (w : World)
        → Heard a
        → Takes s.write_fault
        → Post bad (ReadFrom s) (received env s cap a w).0
    unfolding received
    received-Post s cap (bytes d bs rest) w h t = (refl, (put_back-Ends (drop cap bs) rest h, t))
    received-Post s cap (eof d) w h t = (refl, (tt, t))
    received-Post s cap (error d e) w h t = tt
    received-Post s cap never w h t = h

    pub read-Post :
        (cap : ℕ) (s : Stream) (w : World) → Alive s → Post bad (ReadFrom s) (read env cap s w).0
    unfolding read
    read-Post cap s w h = received-Post s cap (arrive 0 s.inbox) w (arrive-Heard 0 s.inbox h.0) h.1

    pub read_exact-Post :
        (need : ℕ) (s : Stream) (w : World)
        → Alive s
        → Post bad (ReadFrom s) (read_exact env need s w).0
    unfolding read_exact
    read_exact-Post need s w h =
        received-Post s need (gather need [] 0 s.inbox) w (gather-Heard need [] 0 s.inbox h.0) h.1

    -- Writing appends to what was sent.
    abbrev pub Wrote : Bytes → Stream → Stream → Type 0
    Wrote buf s s' =
        (s'.sent ≡ s.sent ++ buf) × (s'.inbox ≡ s.inbox) × (s'.write_fault ≡ s.write_fault)

    pub Wrote-Alive : (buf : Bytes) (s s' : Stream) → Wrote buf s s' → Alive s → Alive s'
    Wrote-Alive buf s s' wrote alive =
        (subst Ends (sym wrote.1) alive.0, subst Takes (sym wrote.2) alive.1)

    -- Not all of these bytes are ever taken by the stream, and no error comes.
    abbrev pub Stuck : Bytes → Stream → Type 0
    Stuck buf s = (n : ℕ) × (s.write_fault ≡ some (n, none)) × (n < length buf)

    abbrev pub Written : Bytes → Stream → Outcome Stream → Type 0
    Written buf s (done s') = Wrote buf s s'
    Written buf s (fail e) = Unit {0}
    Written buf s panic = ⊥
    Written buf s hang = Stuck (s.sent ++ buf) s

    blocked-Written :
        (inbox : Inbox) (sent buf : Bytes) (n : ℕ) (e : Option Text) (w : World)
        → n < length (sent ++ buf)
        → Written buf
            (record { inbox = inbox; sent = sent; write_fault = some (n, e) })
            (blocked env e w).0
    unfolding blocked
    blocked-Written inbox sent buf n none w full = (n, refl, full)
    blocked-Written inbox sent buf n (some e) w full = tt

    faulty-Written :
        (inbox : Inbox) (sent buf : Bytes) (fault : Option (ℕ × Option Text)) (w : World)
        → let s : Stream = record { inbox = inbox; sent = sent; write_fault = fault } in
          Written buf s (write_all env buf s w).0
    unfolding write_all
    faulty-Written inbox sent buf none w = (refl, refl, refl)
    faulty-Written inbox sent buf (some (n, e)) w =
        elim (Bool-cases (ltb n (length (sent ++ buf)))) [
          | inl full ↦ rw full (blocked-Written inbox sent buf n e w (ground arith))
          | inr room ↦ rw room (refl, refl, refl)
        ]

    -- A write is done, fails, or waits for ever on a peer that does not take all of it.
    pub write_all-Written :
        (buf : Bytes) (s : Stream) (w : World) → Written buf s (write_all env buf s w).0
    write_all-Written buf s w = faulty-Written s.inbox s.sent buf s.write_fault w

    pub write_all-Post :
        (buf : Bytes) (s : Stream) (w : World)
        → Alive s
        → Post bad (Wrote buf s) (write_all env buf s w).0
    write_all-Post buf s w alive = returned (write_all env buf s w).0 (write_all-Written buf s w)
      where
        returned : (o : Outcome Stream) → Written buf s o → Post bad (Wrote buf s) o
        returned (done s') h = h
        returned (fail e) h = tt
        returned panic h = absurd h
        returned hang (n, e, full) = subst Takes e alive.1

    -- Every connection that is accepted is fresh, and its peer neither is silent for ever nor stops
    -- reading without an error.
    abbrev pub Peers : Type 0
    Peers =
        (n : ℕ) (addr : Text) (d : ℕ) (s : Stream)
        → env.dial n addr ≡ accepted d s
        → (s.sent ≡ []) × Alive s

    dialed-Post :
        (P : Stream → Type 0) (limit : ℕ) (late prefix : Text) (a : Dial) (w : World)
        → ((d : ℕ) (s : Stream) → a ≡ accepted d s → P s)
        → Post bad P (dialed env limit late prefix a w).0
    unfolding dialed
    dialed-Post P limit late prefix (accepted d s) w h = elim (Bool-cases (leb d limit)) [
      | inl e ↦ rw e (h d s refl)
      | inr e ↦ rw e tt
    ]
    dialed-Post P limit late prefix (refused d t) w h = elim (Bool-cases (leb d limit)) [
      | inl e ↦ rw e tt
      | inr e ↦ rw e tt
    ]
    dialed-Post P limit late prefix unanswered w h = tt

    pub connect-Post :
        (limit : ℕ) (addr late prefix : Text) (w : World)
        → Peers
        → Post bad (λ s. (s.sent ≡ []) × Alive s) (connect env limit addr late prefix w).0
    unfolding connect
    connect-Post limit addr late prefix w h =
        dialed-Post _ limit late prefix (env.dial w.awaits addr) w (h w.awaits addr)

    -- A connection that a peer accepted.
    abbrev pub Dialed : Text → Stream → Type 0
    Dialed addr s = (n : ℕ) × (d : ℕ) × (env.dial n addr ≡ accepted d s)

    pub connect-Dialed :
        (limit : ℕ) (addr late prefix : Text) (w : World)
        → Post bad (Dialed addr) (connect env limit addr late prefix w).0
    unfolding connect
    connect-Dialed limit addr late prefix w =
        dialed-Post (Dialed addr) limit late prefix (env.dial w.awaits addr) w
          (λ d s e. (w.awaits, d, e))
