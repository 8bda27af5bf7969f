-- ===== src/Proxy/Response/Prompt.antt =====
-- src/proxy.rs, `read_streaming_response`: an upstream that answers in time is heard.
use multi_proxy.Str.{is_empty}
use multi_proxy.Net.{
  Env, World, Stream, Inbox, closed, silent, broken, chunk, Arrival, bytes, eof, error, never,
  arrive, put_back, elapse, Outcome, done, next,
}
use multi_proxy.Net.Post.{IsDone}
use multi_proxy.Net.Pending.{pending, left, Full, left-arrive, arrive-Full, Moved, bytes-Moved}
use multi_proxy.Proxy.Http.{position, is_some}
use multi_proxy.Proxy.Http.Position.{position-prefix}
use multi_proxy.Proxy.Response.{separator, arrived, header_round, read_head, is_empty}
use multi_proxy.Base.{
  Bytes, [], arith, drop, leb, length, refl, subst, suc, take, true, zero, ℕ, ◌+◌, ◌-◌, ◌<◌, ◌∷◌,
  ◌≡◌, ◌≤◌, Bool-cases, append_assoc, false, inl, inr, length-append, length-drop, length-take, ltb,
  some, ◌++◌, sym,
}

-- The peer sends the next `n` bytes within `t` milliseconds, whatever it does afterwards.
abbrev pub Prompt : ℕ → ℕ → Inbox → Type 0
Prompt zero t i = Unit {0}
Prompt (suc n) t closed = ⊥
Prompt (suc n) t silent = ⊥
Prompt (suc n) t (broken d e) = ⊥
Prompt (suc n) t (chunk d bs rest) = (d ≤ t) × Prompt (suc n - length bs) (t - d) rest

abbrev Arrives : ℕ → ℕ → Arrival → Type 0
Arrives n t (bytes d bs rest) = (d ≤ t) × Prompt (n - length bs) (t - d) rest
Arrives n t (eof d) = ⊥
Arrives n t (error d e) = ⊥
Arrives n t never = ⊥

arrive-Arrives :
    (n t d : ℕ) (i : Inbox) → d ≤ t → Prompt (suc n) (t - d) i → Arrives (suc n) t (arrive d i)
unfolding arrive
arrive-Arrives n t d closed le h = absurd h
arrive-Arrives n t d silent le h = absurd h
arrive-Arrives n t d (broken e m) le h = absurd h
arrive-Arrives n t d (chunk e [] rest) le (soon, h) =
    let same : t - d - e ≡ t - (d + e) = omega arith in
    let all : suc n - 0 ≡ suc n = omega arith in
    arrive-Arrives n t (d + e) rest (omega arith)
      (subst (λ k. Prompt k (t - (d + e)) rest) all (subst (λ k. Prompt (suc n - 0) k rest) same h))
arrive-Arrives n t d (chunk e (b ∷ bs) rest) le (soon, h) =
    let same : t - d - e ≡ t - (d + e) = omega arith in
    (omega arith, subst (λ k. Prompt (suc n - length (b ∷ bs)) k rest) same h)

put_back-Prompt :
    (n t : ℕ) (bs : Bytes) (i : Inbox) → Prompt (n - length bs) t i → Prompt n t (put_back bs i)
unfolding put_back
put_back-Prompt n t [] i h = let all : n - 0 ≡ n = omega arith in subst (λ k. Prompt k t i) all h
put_back-Prompt zero t (b ∷ bs) i h = tt
put_back-Prompt (suc n) t (b ∷ bs) i h =
    let all : t ≡ t - 0 = omega arith in
    (omega arith, subst (λ k. Prompt (suc n - length (b ∷ bs)) k i) all h)

-- Of bytes that arrive some are taken, and the others are still due.
take-more : (cap b : ℕ) (bs cs : Bytes) → bs ≡ b ∷ cs → 0 < length (take (suc cap) bs)
take-more cap b bs cs e = rw e (omega arith)

split_due : (n k : ℕ) (bs : Bytes) → n - length bs ≡ n - length (take k bs) - length (drop k bs)
split_due n k bs = omega (arith, length-take k bs, length-drop k bs)

pub Prompt-cast : (n n' t t' : ℕ) (i : Inbox) → n ≡ n' → t ≡ t' → Prompt n t i → Prompt n' t' i
Prompt-cast n n' t t' i e f h = subst (λ k. Prompt n' k i) f (subst (λ k. Prompt k t i) e h)

module _ (env : Env) where
  -- What a read in time gives: bytes, at least one, and the rest in time.
  record Got (n t : ℕ) (s : Stream) (w : World) (r : Outcome (Bytes × Stream) × World)
      : Type 0 where
    chunk_of : Bytes × Stream
    delay : ℕ
    gives : r ≡ (done chunk_of, elapse env delay w)
    moved : Moved s chunk_of
    more : 0 < length chunk_of.0
    prompt : Prompt (n - length chunk_of.0) (t - delay) chunk_of.1.inbox

  arrived-Got :
      (n t : ℕ) (s : Stream) (a : Arrival) (w : World)
      → left a ≡ pending s.inbox
      → Full a
      → Arrives n t a
      → Got n t s w (arrived env t s a w)
  unfolding arrived
  arrived-Got n t s (bytes d bs rest) w same full (soon, h) =
      let in_time : leb d t ≡ true = ground arith in
      rw in_time (record {
        chunk_of = (take 4096 bs, record s { inbox = put_back (drop 4096 bs) rest });
        delay = d;
        gives = refl;
        moved = bytes-Moved s 4095 d bs rest same full;
        more = take-more 4095 full.0 bs full.1 full.2;
        prompt =
            put_back-Prompt (n - length (take 4096 bs)) (t - d) (drop 4096 bs) rest
              (subst (λ k. Prompt k (t - d) rest) (split_due n 4096 bs) h);
      })
  arrived-Got n t s (eof d) w same full h = absurd h
  arrived-Got n t s (error d e) w same full h = absurd h
  arrived-Got n t s never w same full h = absurd h

  header_round-IsDone :
      (deadline fuel i : ℕ) (buf : Bytes) (s : Stream) (r : Bytes × Stream) (w : World)
      → position separator (buf ++ pending s.inbox) ≡ some i
      → i + 4 ≤ 65536
      → 65537 ≤ length buf + suc fuel
      → Moved s r
      → 0 < length r.0
      → Prompt (i + 4 - length (buf ++ r.0)) (deadline - w.now) r.1.inbox
      → ((b : Bytes) (s1 : Stream)
          → position separator (b ++ pending s1.inbox) ≡ some i
          → length b < i + 4
          → 65537 ≤ length b + fuel
          → Prompt (i + 4 - length b) (deadline - w.now) s1.inbox
          → IsDone (read_head env deadline fuel b s1 w).0)
      → IsDone (header_round env (read_head env deadline fuel) buf r w).0
  unfolding header_round is_empty
  header_round-IsDone deadline fuel i buf s ([], s1) w found small fits moved more prompt again =
      (_, refl)
  header_round-IsDone deadline fuel i buf s (b ∷ bs, s1) w found small fits moved more prompt
        again =
      let joined : buf ++ pending s.inbox ≡ (buf ++ b ∷ bs) ++ pending s1.inbox =
        cc (moved.in_order, append_assoc buf (b ∷ bs) (pending s1.inbox)) in
      let found1 : position separator ((buf ++ b ∷ bs) ++ pending s1.inbox) ≡ some i =
        rw joined at found in
      elim (Bool-cases (is_some (position separator (buf ++ b ∷ bs)))) [
        | inl here ↦ rw here (_, refl)
        | inr on ↦
            let short : length (buf ++ b ∷ bs) < i + 4 =
              elim (Bool-cases (ltb (length (buf ++ b ∷ bs)) (i + 4))) [
                | inl less ↦ ground arith
                | inr enough ↦
                    let inside : position separator (buf ++ b ∷ bs) ≡ some i =
                      position-prefix separator (buf ++ b ∷ bs) (pending s1.inbox) i (omega arith)
                        found1 (ground arith) in
                    ground (arith, inside)
              ] in
            let room : ltb 65536 (length (buf ++ b ∷ bs)) ≡ false = ground arith in
            rw (on, room)
              (again (buf ++ b ∷ bs) s1 found1 short (omega (arith, length-append buf (b ∷ bs)))
                prompt)
      ]

  -- If the bytes up to the first blank line come before the deadline, the head is read.
  pub read_head-IsDone :
      (deadline fuel i : ℕ) (buf : Bytes) (s : Stream) (w : World)
      → position separator (buf ++ pending s.inbox) ≡ some i
      → i + 4 ≤ 65536
      → length buf < i + 4
      → 65537 ≤ length buf + fuel
      → Prompt (i + 4 - length buf) (deadline - w.now) s.inbox
      → IsDone (read_head env deadline fuel buf s w).0
  unfolding read_head elapse
  read_head-IsDone deadline zero i buf s w found small short fits prompt = absurd (omega arith)
  read_head-IsDone deadline (suc fuel) i buf s w found small short fits prompt =
      let t = deadline - w.now in
      let m = i + 3 - length buf in
      let arrives : Arrives (suc m) t (arrive 0 s.inbox) =
        arrive-Arrives m t 0 s.inbox (omega arith) (
          Prompt-cast (i + 4 - length buf) (suc m) t (t - 0) s.inbox (omega arith) (omega arith)
            prompt) in
      let got =
        arrived-Got (suc m) t s (arrive 0 s.inbox) w (left-arrive 0 s.inbox) (arrive-Full 0 s.inbox)
          arrives in
      let r = got.chunk_of in
      let w1 = elapse env got.delay w in
      subst (λ x. IsDone (next x (header_round env (read_head env deadline fuel) buf)).0)
        (sym got.gives)
        (header_round-IsDone deadline fuel i buf s r w1 found small fits got.moved got.more
          (Prompt-cast (suc m - length r.0) (i + 4 - length (buf ++ r.0)) (t - got.delay)
            (deadline - w1.now) r.1.inbox (omega (arith, length-append buf r.0)) (omega arith)
            got.prompt)
          (λ b s1 found1 short1 fits1 prompt1.
            read_head-IsDone deadline fuel i b s1 w1 found1 small short1 fits1 prompt1))
