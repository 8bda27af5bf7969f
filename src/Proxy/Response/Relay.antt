-- ===== src/Proxy/Response/Relay.antt =====
-- src/proxy.rs, `read_streaming_response`: what the response has of the bytes that the upstream sends.
use multi_proxy.Str.{is_empty, lines}
use multi_proxy.Str.Utf8.{from_utf8_lossy}
use multi_proxy.Net.{
  Env, World, Stream, Arrival, bytes, eof, error, never, arrive, Outcome, done, fail, panic, hang,
  next,
}
use multi_proxy.Net.Post.{Ensures, next-Post}
use multi_proxy.Net.Pending.{
  pending, left, Full, left-arrive, arrive-Full, Moved, bytes-Moved, eof-Moved,
}
use multi_proxy.Proxy.Http.{position, is_some}
use multi_proxy.Proxy.Http.Position.{position-append, position-le}
use multi_proxy.Proxy.Response.{
  ReaderBody, Response, streaming, separator, arrived, header_round, read_head, Builder,
  add_headers, tail_lines, status_of, build, respond, parse_response, read_streaming_response,
  sep_index, new,
}
use multi_proxy.Proxy.Response.Body.{remaining}
use multi_proxy.Base.{
  Bool-cases, Bytes, [], ap, append_assoc, arith, inl, inr, leb, length, length-append, ltb, suc,
  true, zero, ℕ, ◌++◌, ◌+◌, ◌-◌, ◌∷◌, ◌≡◌, ◌≤◌, ◌⊎◌, List, Option-cases, Text, drop, max, none,
  refl, some, sym, take, ◌*◌, ◌∙◌, append-nil, drop-append_of_le, false, take-append_of_le, ◌≢◌,
}

-- What a head was read into: the bytes so far are followed by what is pending, and there is a blank
-- line in them unless nothing is pending.
pub record Headed (all sent : Bytes) (r : Bytes × Stream) : Type 0 where
  pub whole : all ≡ r.0 ++ pending r.1.inbox
  pub stop : (is_some (position separator r.0) ≡ true) ⊎ (pending r.1.inbox ≡ [])
  pub same_sent : r.1.sent ≡ sent

-- The head of a response, up to the first blank line.
abbrev pub head_lines : Bytes → ℕ → List Text
head_lines all i = lines (from_utf8_lossy (take i all))

abbrev pub headers_of : Env → Bytes → ℕ → Builder
headers_of env all i = add_headers env (tail_lines env (head_lines all i)) (some [])

-- What a response has of the bytes that the upstream sends: status and headers are those of the head,
-- and the body is all that comes behind the blank line.
pub record Answers (env : Env) (all sent : Bytes) (resp : Response) : Type 0 where
  pub blank : ℕ
  pub body : ReaderBody
  pub found : position separator all ≡ some blank
  pub status : resp.status ≡ status_of (head_lines all blank)
  pub headers : headers_of env all blank ≡ some resp.headers
  pub streams : resp.body ≡ streaming body
  pub behind : remaining body ≡ drop (blank + 4) all
  pub same_sent : body.reader.sent ≡ sent

-- Why the handler panics: there is no blank line, or a header is invalid.
abbrev pub Panics : Env → Bytes → Type 0
Panics env all =
    (position separator all ≡ none)
    ⊎ ((i : ℕ) × (position separator all ≡ some i) × (headers_of env all i ≡ none))

abbrev pub Answered : Env → Bytes → Bytes → Outcome Response → Type 0
Answered env all sent (done resp) = Answers env all sent resp
Answered env all sent (fail e) = Unit {0}
Answered env all sent panic = Panics env all
Answered env all sent hang = ⊥

module _ (env : Env) where
  arrived-Moved :
      (remaining : ℕ) (s : Stream) (a : Arrival) (w : World)
      → left a ≡ pending s.inbox
      → Full a
      → Ensures (Moved s) (arrived env remaining s a w).0
  unfolding arrived
  arrived-Moved remaining s (bytes d bs rest) w same full = elim (Bool-cases (leb d remaining)) [
    | inl e ↦ rw e (bytes-Moved s 4095 d bs rest same full)
    | inr e ↦ rw e tt
  ]
  arrived-Moved remaining s (eof d) w same full = elim (Bool-cases (leb d remaining)) [
    | inl e ↦ rw e (eof-Moved s same)
    | inr e ↦ rw e tt
  ]
  arrived-Moved remaining s (error d t) w same full = elim (Bool-cases (leb d remaining)) [
    | inl e ↦ rw e tt
    | inr e ↦ rw e tt
  ]
  arrived-Moved remaining s never w same full = tt

  header_round-Headed :
      (deadline fuel : ℕ) (buf : Bytes) (s : Stream) (r : Bytes × Stream) (w : World)
      → 65537 ≤ length buf + suc fuel
      → ((b : Bytes) (s1 : Stream) (w1 : World)
          → length b ≤ 65536
          → 65537 ≤ length b + fuel
          → Ensures
              (Headed (b ++ pending s1.inbox) s1.sent)
              (read_head env deadline fuel b s1 w1).0)
      → Moved s r
      → Ensures
          (Headed (buf ++ pending s.inbox) s.sent)
          (header_round env (read_head env deadline fuel) buf r w).0
  unfolding header_round is_empty
  header_round-Headed deadline fuel buf s ([], s1) w fits again moved = record {
    whole = ap (λ t. buf ++ t) moved.in_order;
    stop = inr (sym moved.in_order ∙ moved.last refl);
    same_sent = moved.same_sent;
  }
  header_round-Headed deadline fuel buf s (b ∷ bs, s1) w fits again moved =
      let joined : buf ++ pending s.inbox ≡ (buf ++ b ∷ bs) ++ pending s1.inbox =
        cc (moved.in_order, append_assoc buf (b ∷ bs) (pending s1.inbox)) in
      elim (Bool-cases (is_some (position separator (buf ++ b ∷ bs)))) [
        | inl found ↦
            rw found (record { whole = joined; stop = inl found; same_sent = moved.same_sent })
        | inr on ↦ rw on (elim (Bool-cases (ltb 65536 (length (buf ++ b ∷ bs)))) [
          | inl large ↦ rw large tt
          | inr room ↦
              rw (room, joined, ← moved.same_sent)
                (again (buf ++ b ∷ bs) s1 w (ground arith)
                  (ground (arith, length-append buf (b ∷ bs))))
        ])
      ]

  pub read_head-Headed :
      (deadline fuel : ℕ) (buf : Bytes) (s : Stream) (w : World)
      → length buf ≤ 65536
      → 65537 ≤ length buf + fuel
      → Ensures (Headed (buf ++ pending s.inbox) s.sent) (read_head env deadline fuel buf s w).0
  unfolding read_head
  read_head-Headed deadline zero buf s w small fits = absurd (omega arith)
  read_head-Headed deadline (suc fuel) buf s w small fits =
      next-Post ⊥ (Moved s) (Headed (buf ++ pending s.inbox) s.sent)
        (arrived env (deadline - w.now) s (arrive 0 s.inbox) w)
        (header_round env (read_head env deadline fuel) buf)
        (arrived-Moved (deadline - w.now) s (arrive 0 s.inbox) w (left-arrive 0 s.inbox)
          (arrive-Full 0 s.inbox))
        (λ r moved w1.
          header_round-Headed deadline fuel buf s r w1 fits (read_head-Headed deadline fuel) moved)

  remaining-new :
      (leading : Bytes) (s : Stream) → remaining (new leading s) ≡ leading ++ pending s.inbox
  unfolding new is_empty
  remaining-new [] s = refl
  remaining-new (b ∷ bs) s = refl

  respond-Answered :
      (all sent buf : Bytes) (i : ℕ) (s : Stream) (w : World)
      → all ≡ buf ++ pending s.inbox
      → s.sent ≡ sent
      → position separator buf ≡ some i
      → Answered env all sent (respond env (take i buf) (drop (i + 4) buf) s w).0
  unfolding respond build
  respond-Answered all sent buf i s w whole same found =
      let room = position-le separator buf i found in
      let cut : take i all ≡ take i buf =
        rw whole (take-append_of_le i buf (pending s.inbox) (omega arith)) in
      let blank : position separator all ≡ some i =
        rw whole (position-append separator buf (pending s.inbox) i found) in
      elim (Option-cases (headers_of env buf i)) [
        | inl invalid ↦ rw (invalid, build) (inr (i, blank, rw cut invalid))
        | inr (hs, valid) ↦
            rw (valid, build)
              (record {
                blank = i;
                body = new (drop (i + 4) buf) s;
                found = blank;
                status = rw cut refl;
                headers = rw cut valid;
                streams = refl;
                behind = rw whole (
                    remaining-new (drop (i + 4) buf) s
                    ∙ sym (drop-append_of_le (i + 4) buf (pending s.inbox) room));
                same_sent = same;
              })
      ]

  pub parse_response-Answered :
      (all sent : Bytes) (r : Bytes × Stream) (w : World)
      → Headed all sent r
      → Answered env all sent (parse_response env r.0 r.1 w).0
  unfolding parse_response sep_index
  parse_response-Answered all sent (buf, s) w h = elim (Option-cases (position separator buf)) [
    | inl missing ↦ elim h.stop [
      | inl blank ↦ ground arith
      | inr empty ↦
          let same : all ≡ buf = h.whole ∙ ap (λ t. buf ++ t) empty ∙ append-nil buf in
          let short : ltb (length buf) (length buf + 4) ≡ true = ground arith in
          rw (missing, sep_index, short) (inl (rw same missing))
    ]
    | inr (i, found) ↦
        let room = position-le separator buf i found in
        let long : ltb (length buf) (i + 4) ≡ false = ground arith in
        rw (found, sep_index, long) (respond-Answered all sent buf i s w h.whole h.same_sent found)
  ]

  -- Reading a response always ends, however the upstream cuts its bytes into pieces and delays them. A
  -- response has the status and the headers of what stands before the first blank line, its body is
  -- every byte that the upstream sends behind it, and nothing was written. The handler panics only if the
  -- upstream's bytes hold no blank line or a header that the crate http refuses.
  pub read_streaming_response-Answered :
      (s : Stream) (limit : ℕ) (w : World)
      → Answered env (pending s.inbox) s.sent (read_streaming_response env s limit w).0
  unfolding read_streaming_response
  read_streaming_response-Answered s limit w =
      behind_head (read_head env (w.now + max (limit * 10) 30000) 65537 [] s w)
        (read_head-Headed (w.now + max (limit * 10) 30000) 65537 [] s w (omega arith) (omega arith))
    where
      behind_head :
          (r : Outcome (Bytes × Stream) × World)
          → Ensures (Headed (pending s.inbox) s.sent) r.0
          → Answered env (pending s.inbox) s.sent (next r (λ x. parse_response env x.0 x.1)).0
      behind_head (done x, w1) h = parse_response-Answered (pending s.inbox) s.sent x w1 h
      behind_head (fail e, w1) h = tt
      behind_head (panic, w1) h = absurd h
      behind_head (hang, w1) h = absurd h

  Answered-ne-hang : (all sent : Bytes) (o : Outcome Response) → Answered env all sent o → o ≢ hang
  Answered-ne-hang all sent (done resp) h e = cc
  Answered-ne-hang all sent (fail t) h e = cc
  Answered-ne-hang all sent panic h e = cc
  Answered-ne-hang all sent hang h e = h

  pub read_streaming_response-ne-hang :
      (s : Stream) (limit : ℕ) (w : World) → (read_streaming_response env s limit w).0 ≢ hang
  read_streaming_response-ne-hang s limit w =
      Answered-ne-hang (pending s.inbox) s.sent (read_streaming_response env s limit w).0
        (read_streaming_response-Answered s limit w)
