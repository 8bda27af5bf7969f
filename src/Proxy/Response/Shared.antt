-- ===== src/Proxy/Response/Shared.antt =====
-- Reading a response keeps the shared state.
use multi_proxy.Str.{is_empty}
use multi_proxy.Net.{Env, Stream, M, World, Arrival, bytes, eof, error, never, arrive}
use multi_proxy.Net.Run.{Kept, Keeps, Kept-refl, next-Kept, elapse-Kept}
use multi_proxy.Proxy.Http.{is_some, position}
use multi_proxy.Proxy.Response.{
  separator, sep_index, Builder, ReaderBody, arrived, header_round, read_head, build,
  parse_response, read_streaming_response,
}
use multi_proxy.Base.{
  Bool-cases, Bytes, [], inl, inr, leb, max, none, some, suc, zero, ℕ, ◌*◌, ◌++◌, ◌+◌, ◌-◌, length,
  ltb,
}

module _ (env : Env) where
  arrived-Kept :
      (remaining : ℕ) (s : Stream) (a : Arrival) (w : World)
      → Kept w (arrived env remaining s a w).1
  unfolding arrived
  arrived-Kept remaining s (bytes d bs rest) w = elim (Bool-cases (leb d remaining)) [
    | inl e ↦ rw e (elapse-Kept env d w)
    | inr e ↦ rw e (elapse-Kept env remaining w)
  ]
  arrived-Kept remaining s (eof d) w = elim (Bool-cases (leb d remaining)) [
    | inl e ↦ rw e (elapse-Kept env d w)
    | inr e ↦ rw e (elapse-Kept env remaining w)
  ]
  arrived-Kept remaining s (error d t) w = elim (Bool-cases (leb d remaining)) [
    | inl e ↦ rw e (elapse-Kept env d w)
    | inr e ↦ rw e (elapse-Kept env remaining w)
  ]
  arrived-Kept remaining s never w = elapse-Kept env remaining w

  header_round-Keeps :
      (rest : Bytes → Stream → M (Bytes × Stream)) (buf : Bytes) (r : Bytes × Stream)
      → ((b : Bytes) (s : Stream) → Keeps (rest b s))
      → Keeps (header_round env rest buf r)
  unfolding header_round
  header_round-Keeps rest buf (bs, s) h w = elim (Bool-cases (is_empty bs)) [
    | inl e ↦ rw e (Kept-refl w)
    | inr e ↦ rw e (elim (Bool-cases (is_some (position separator (buf ++ bs)))) [
      | inl found ↦ rw found (Kept-refl w)
      | inr more ↦ rw more (elim (Bool-cases (ltb 65536 (length (buf ++ bs)))) [
        | inl large ↦ rw large (Kept-refl w)
        | inr room ↦ rw room (h (buf ++ bs) s w)
      ])
    ])
  ]

  read_head-Keeps :
      (deadline fuel : ℕ) (buf : Bytes) (s : Stream) → Keeps (read_head env deadline fuel buf s)
  unfolding read_head
  read_head-Keeps deadline zero buf s w = Kept-refl w
  read_head-Keeps deadline (suc fuel) buf s w =
      next-Kept (arrived env (deadline - w.now) s (arrive 0 s.inbox) w)
        (header_round env (read_head env deadline fuel) buf)
        (arrived-Kept (deadline - w.now) s (arrive 0 s.inbox) w)
        (λ r.
          header_round-Keeps (read_head env deadline fuel) buf r (read_head-Keeps deadline fuel))

  build-Keeps : (b : Builder) (status : ℕ) (body : ReaderBody) → Keeps (build env b status body)
  unfolding build
  build-Keeps none status body = Kept-refl
  build-Keeps (some hs) status body = Kept-refl

  parse_response-Keeps : (buf : Bytes) (s : Stream) → Keeps (parse_response env buf s)
  unfolding parse_response
  parse_response-Keeps buf s w =
      elim (Bool-cases (ltb (length buf) (sep_index env buf (position separator buf) + 4))) [
        | inl short ↦ rw short (Kept-refl w)
        | inr fits ↦ rw fits (build-Keeps _ _ _ w)
      ]

  pub read_streaming_response-Keeps :
      (s : Stream) (limit : ℕ) → Keeps (read_streaming_response env s limit)
  unfolding read_streaming_response
  read_streaming_response-Keeps s limit w =
      next-Kept (read_head env (w.now + max (limit * 10) 30000) 65537 [] s w) _
        (read_head-Keeps (w.now + max (limit * 10) 30000) 65537 [] s w)
        (λ r. parse_response-Keeps r.0 r.1)
