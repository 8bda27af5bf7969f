-- ===== src/Net/Ask.antt =====
-- How a call of another crate ends.
use multi_proxy.Net.{
  read, arrive, Env, World, Reply, reply, no_reply, Outcome, done, fail, panic, hang, answer, ask,
  write_all, Stream, elapse, Inbox, chunk, read_exact, received, gather, put_back,
}
use multi_proxy.Base.{
  err, ok, refl, ℕ, ◌≡◌, Bytes, none, ◌++◌, ap, [], arith, leb, length, true, ◌+◌, ◌∙◌, ◌∷◌,
  drop-all, take-all, ◌≢◌, ◌≤◌,
}

-- It gives what was replied, or an error; or it never ends, if there is no reply.
abbrev pub Replied : {A : Type 0} → (ℕ → Reply A) → Outcome A → Type 0
Replied call (done a) = (n : ℕ) × (d : ℕ) × (call n ≡ reply d (ok a))
Replied call (fail e) = Unit {0}
Replied call panic = ⊥
Replied call hang = (n : ℕ) × (call n ≡ no_reply)

-- A stream that takes all that is written.
pub write_all-open :
    (env : Env) (buf : Bytes) (s : Stream) (w : World)
    → s.write_fault ≡ none
    → write_all env buf s w ≡ (done (record s { sent = s.sent ++ buf }), elapse env 0 w)
unfolding write_all
write_all-open env buf s w e =
    rw (e, write_all)
      (ap
        (λ f. (
          done (record { inbox = s.inbox; sent = s.sent ++ buf; write_fault = f }),
          elapse env 0 w,
        ))
        e)

module _ (env : Env) {A : Type 0} where
  answer-Replied :
      (call : ℕ → Reply A) (n : ℕ) (r : Reply A) (w : World)
      → call n ≡ r
      → Replied call (answer env r w).0
  unfolding answer
  answer-Replied call n (reply d (ok a)) w e = (n, d, e)
  answer-Replied call n (reply d (err t)) w e = tt
  answer-Replied call n no_reply w e = (n, e)

  pub ask-Replied : (call : ℕ → Reply A) (w : World) → Replied call (ask env call w).0
  unfolding ask
  ask-Replied call w = answer-Replied call w.awaits (call w.awaits) w refl

  pub ask-reply :
      (call : ℕ → Reply A) (d : ℕ) (a : A) (w : World)
      → call w.awaits ≡ reply d (ok a)
      → ask env call w ≡ (done a, elapse env d w)
  unfolding ask answer
  ask-reply call d a w e = rw e refl

-- Two bytes that come in one piece.
pub read_exact-pair :
    (env : Env) (s : Stream) (d a b : ℕ) (bs : Bytes) (rest : Inbox) (w : World)
    → s.inbox ≡ chunk d (a ∷ b ∷ bs) rest
    → (s1 : Stream) × (w1 : World) × (read_exact env 2 s w ≡ (done (a ∷ b ∷ [], s1), w1))
unfolding read_exact received gather
read_exact-pair env s d a b bs rest w e =
    let enough : leb 2 (length (a ∷ b ∷ bs)) ≡ true = ground arith in
    (
      record s { inbox = put_back bs rest },
      elapse env (0 + d) w,
      ap (λ i. received env s 2 (gather 2 [] 0 i) w) e ∙ rw enough refl,
    )

-- A piece that fits into the buffer.
pub read-piece :
    (env : Env) (s : Stream) (d : ℕ) (bs : Bytes) (rest : Inbox) (w : World)
    → s.inbox ≡ chunk d bs rest
    → bs ≢ []
    → length bs ≤ 256
    → read env 256 s w ≡ (done (bs, record s { inbox = rest }), elapse env d w)
unfolding read received arrive put_back
read-piece env s d [] rest w e full short = absurd (full refl)
read-piece env s d (b ∷ bs) rest w e full short =
    ap (λ i. received env s 256 (arrive 0 i) w) e
    ∙ rw (take-all 256 (b ∷ bs) short, drop-all 256 (b ∷ bs) short)
        (ap (λ k. (done (b ∷ bs, record s { inbox = rest }), elapse env k w)) (omega arith))
