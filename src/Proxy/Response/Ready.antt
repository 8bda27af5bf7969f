-- ===== src/Proxy/Response/Ready.antt =====
-- src/proxy.rs, `read_streaming_response`: when an upstream is sure to get its response through.
use multi_proxy.Net.{Env, World, Stream, Outcome, done, fail, panic, hang, M, crash}
use multi_proxy.Net.Gives.{Gives, next-Gives, IsDone-Gives}
use multi_proxy.Net.Pending.{pending}
use multi_proxy.Proxy.Http.{position}
use multi_proxy.Proxy.Response.{
  Response, separator, sep_index, parse_response, respond, build, read_head,
  read_streaming_response, Builder, ReaderBody,
}
use multi_proxy.Proxy.Response.Prompt.{Prompt, Prompt-cast, read_head-IsDone}
use multi_proxy.Proxy.Response.Relay.{
  Answers, Answered, Headed, headers_of, read_head-Headed, parse_response-Answered,
}
use multi_proxy.Base.{
  Bytes, List, Text, [], arith, inl, inr, max, none, some, ℕ, ◌*◌, ◌+◌, ◌-◌, ◌≡◌, ◌≤◌, Bool, drop,
  false, if◌then◌else◌, length, ltb, subst, take, true, ◌≢◌,
}

-- The bytes hold a head that ends in a blank line and whose headers are valid.
pub record HasHead (env : Env) (all : Bytes) : Type 0 where
  pub blank : ℕ
  pub headers : List (Text × Text)
  pub found : position separator all ≡ some blank
  pub valid : headers_of env all blank ≡ some headers

-- The head has at most 65536 bytes, and comes before the deadline.
pub record Ready (env : Env) (limit : ℕ) (s : Stream) : Type 0 where
  pub head : HasHead env (pending s.inbox)
  pub small : head.blank + 4 ≤ 65536
  pub prompt : Prompt (head.blank + 4) (max (limit * 10) 30000) s.inbox

module _ (env : Env) where
  abbrev NeverFails : Outcome Response → Type 0
  NeverFails (done r) = Unit {0}
  NeverFails (fail e) = ⊥
  NeverFails panic = Unit {0}
  NeverFails hang = Unit {0}

  if-NeverFails :
      (b : Bool) (m n : M Response) (w : World)
      → NeverFails (m w).0
      → NeverFails (n w).0
      → NeverFails ((if b then m else n) w).0
  if-NeverFails true m n w h k = h
  if-NeverFails false m n w h k = k

  build-NeverFails :
      (b : Builder) (status : ℕ) (body : ReaderBody) (w : World)
      → NeverFails (build env b status body w).0
  unfolding build
  build-NeverFails none status body w = tt
  build-NeverFails (some hs) status body w = tt

  parse_response-NeverFails :
      (buf : Bytes) (s : Stream) (w : World) → NeverFails (parse_response env buf s w).0
  unfolding parse_response respond
  parse_response-NeverFails buf s w =
      if-NeverFails (ltb (length buf) (sep_index env buf (position separator buf) + 4)) crash
        (respond env (take (sep_index env buf (position separator buf)) buf)
          (drop (sep_index env buf (position separator buf) + 4) buf) s)
        w tt (build-NeverFails _ _ _ w)

  -- The headers of a head that is there are valid.
  pub HasHead-valid :
      (all : Bytes) (i : ℕ)
      → HasHead env all
      → position separator all ≡ some i
      → headers_of env all i ≢ none
  HasHead-valid all i head found invalid =
      let blank = head.found in
      let valid = head.valid in
      let same : head.blank ≡ i = cc in
      let valid' : headers_of env all i ≡ some head.headers =
        subst (λ k. headers_of env all k ≡ some head.headers) same valid in
      cc

  heard :
      (all sent : Bytes) (o : Outcome Response)
      → HasHead env all
      → NeverFails o
      → Answered env all sent o
      → Gives ⊥ (Answers env all sent) o
  heard all sent (done resp) head never a = a
  heard all sent (fail e) head never a = never
  heard all sent panic head never (inl missing) = let found = head.found in cc
  heard all sent panic head never (inr (i, found, invalid)) = HasHead-valid all i head found invalid
  heard all sent hang head never a = a

  -- An upstream that sends its head in time gets its response through.
  pub read_streaming_response-Gives :
      (s : Stream) (limit : ℕ) (w : World)
      → Ready env limit s
      → Gives ⊥ (Answers env (pending s.inbox) s.sent) (read_streaming_response env s limit w).0
  unfolding read_streaming_response
  read_streaming_response-Gives s limit w ready =
      let deadline = w.now + max (limit * 10) 30000 in
      let due : max (limit * 10) 30000 ≡ deadline - w.now = omega arith in
      let r = read_head env deadline 65537 [] s w in
      next-Gives ⊥ (Headed (pending s.inbox) s.sent) (Answers env (pending s.inbox) s.sent) r _
        (IsDone-Gives ⊥ (Headed (pending s.inbox) s.sent) r.0
          (read_head-IsDone env deadline 65537 ready.head.blank [] s w ready.head.found ready.small
            (omega arith) (omega arith)
            (Prompt-cast (ready.head.blank + 4) (ready.head.blank + 4 - 0) (max (limit * 10) 30000)
              (deadline - w.now) s.inbox (omega arith) due ready.prompt))
          (read_head-Headed env deadline 65537 [] s w (omega arith) (omega arith)))
        (λ x headed.
          heard (pending s.inbox) s.sent (parse_response env x.0 x.1 r.1).0 ready.head
            (parse_response-NeverFails x.0 x.1 r.1)
            (parse_response-Answered env (pending s.inbox) s.sent x r.1 headed))
