-- ===== src/Proxy/Response/Collect.antt =====
-- src/proxy.rs, `ReaderBody`: the whole body, frame by frame as hyper asks for it.
use multi_proxy.Str.{is_empty}
use multi_proxy.Net.{
  Env, World, Stream, read, Outcome, done, fail, panic, hang, M, next, pure, ◌>>=◌,
}
use multi_proxy.Net.Gives.{Gives, next-Gives}
use multi_proxy.Net.Closing.{Closes, Next, read-Next}
use multi_proxy.Net.Pending.{pending}
use multi_proxy.Proxy.Response.{ReaderBody, after_read, poll_frame}
use multi_proxy.Proxy.Response.Body.{remaining}
use multi_proxy.Base.{
  Bytes, Option, [], arith, length, none, refl, some, suc, sym, zero, ℕ, ◌++◌, ◌+◌, ◌<◌, ◌∷◌, ◌≡◌,
  ap, length-append, ◌∙◌, ◌≤◌,
}

module _ (env : Env) where
  -- A frame, and the frames after it.
  with_frame : (ReaderBody → M Bytes) → Option Bytes × ReaderBody → M Bytes
  with_frame rest (none, b) = pure []
  with_frame rest (some bs, b) = rest b >>= λ more. pure (bs ++ more)

  -- Ask for frames until there is none.
  unfoldable pub collect : ℕ → ReaderBody → M Bytes
  unfolding with_frame
  collect zero b w = (hang, w)
  collect (suc fuel) b w = next (poll_frame env b w) (with_frame (collect fuel))

  abbrev Is : Bytes → Bytes → Type 0
  Is bs r = r ≡ bs

  after_read-collect :
      (fuel : ℕ) (reader : Stream) (r : Bytes × Stream) (w : World)
      → Next reader r
      → ((s : Stream) (w1 : World)
          → Closes s.inbox
          → length (pending s.inbox) < length (pending reader.inbox)
          → Gives ⊥
              (Is (pending s.inbox))
              (collect fuel (record { reader = s; leading = none }) w1).0)
      → Gives ⊥
          (Is (pending reader.inbox))
          (next
            (after_read env (record { reader = reader; leading = none }) r w)
            (with_frame (collect fuel))).0
  unfolding after_read is_empty with_frame
  after_read-collect fuel reader ([], s) w h again = sym (h.moved.last refl)
  after_read-collect fuel reader (c ∷ bs, s) w h again =
      let shorter : length (pending s.inbox) < length (pending reader.inbox) =
        rw h.moved.in_order (omega (arith, length-append (c ∷ bs) (pending s.inbox))) in
      next-Gives ⊥ (Is (pending s.inbox)) (Is (pending reader.inbox))
        (collect fuel (record { reader = s; leading = none }) w) _ (again s w h.closes shorter)
        (λ more e. ap (λ t. (c ∷ bs) ++ t) e ∙ sym h.moved.in_order)

  collect-reader :
      (fuel : ℕ) (reader : Stream) (w : World)
      → Closes reader.inbox
      → length (pending reader.inbox) < fuel
      → Gives ⊥
          (Is (pending reader.inbox))
          (collect fuel (record { reader = reader; leading = none }) w).0
  unfolding collect poll_frame
  collect-reader zero reader w h fits = absurd (omega arith)
  collect-reader (suc fuel) reader w h fits =
      frames (read env 16384 reader w) (read-Next env reader 16383 w h)
        (λ s w1 closes shorter. collect-reader fuel s w1 closes (omega arith))
    where
      frames :
          (r : Outcome (Bytes × Stream) × World)
          → Gives ⊥ (Next reader) r.0
          → ((s : Stream) (w1 : World)
              → Closes s.inbox
              → length (pending s.inbox) < length (pending reader.inbox)
              → Gives ⊥
                  (Is (pending s.inbox))
                  (collect fuel (record { reader = s; leading = none }) w1).0)
          → Gives ⊥
              (Is (pending reader.inbox))
              (next
                (next r (after_read env (record { reader = reader; leading = none })))
                (with_frame (collect fuel))).0
      frames (done r, w1) got again = after_read-collect fuel reader r w1 got again
      frames (fail e, w1) got again = got
      frames (panic, w1) got again = got
      frames (hang, w1) got again = got

  Gives-Is : (bs : Bytes) (o : Outcome Bytes) → Gives ⊥ (Is bs) o → o ≡ done bs
  Gives-Is bs (done r) h = ap done h
  Gives-Is bs (fail e) h = absurd h
  Gives-Is bs panic h = absurd h
  Gives-Is bs hang h = absurd h

  collect-leading :
      (fuel : ℕ) (leading : Option Bytes) (reader : Stream) (w : World)
      → Closes reader.inbox
      → length (remaining (record { reader = reader; leading = leading })) + 2 ≤ fuel
      → let b : ReaderBody = record { reader = reader; leading = leading } in
        Gives ⊥ (Is (remaining b)) (collect fuel b w).0
  unfolding collect poll_frame with_frame
  collect-leading fuel none reader w h fits = collect-reader fuel reader w h (omega arith)
  collect-leading zero (some l) reader w h fits = absurd (omega arith)
  collect-leading (suc fuel) (some l) reader w h fits =
      next-Gives ⊥ (Is (pending reader.inbox)) (Is (l ++ pending reader.inbox))
        (collect fuel (record { reader = reader; leading = none }) w) _
        (collect-reader fuel reader w h (omega (arith, length-append l (pending reader.inbox))))
        (λ more e. ap (λ t. l ++ t) e)

  -- Whoever asks a body for its frames until there is none gets all of it and nothing else, the bytes
  -- that came along with the headers in front, if the upstream ends its stream properly: however it
  -- cuts and delays what it sends, without an error or an endless wait. Two frames more than there
  -- are bytes are enough.
  pub collect-remaining :
      (fuel : ℕ) (b : ReaderBody) (w : World)
      → Closes b.reader.inbox
      → length (remaining b) + 2 ≤ fuel
      → (collect fuel b w).0 ≡ done (remaining b)
  collect-remaining fuel b w h fits =
      Gives-Is (remaining b) (collect fuel b w).0 (collect-leading fuel b.leading b.reader w h fits)
