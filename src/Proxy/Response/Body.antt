-- ===== src/Proxy/Response/Body.antt =====
-- src/proxy.rs, `ReaderBody::poll_frame`: what the client gets of the upstream's body.
use multi_proxy.Str.{is_empty}
use multi_proxy.Net.{Env, World, Stream, read}
use multi_proxy.Net.Post.{Post, Ends, next-Post}
use multi_proxy.Net.Pending.{pending, Taken, read-Taken}
use multi_proxy.Proxy.Response.{ReaderBody, after_read, poll_frame}
use multi_proxy.Base.{Bytes, Option, [], none, refl, some, ◌++◌, ◌∷◌, ◌≡◌}

-- The bytes of the body that the client has not got.
abbrev pub remaining : ReaderBody → Bytes
remaining b = held b.leading ++ pending b.reader.inbox
  where
    held : Option Bytes → Bytes
    held none = []
    held (some bs) = bs

-- A frame is the next part of the body, and there is none only at its end.
abbrev pub Relayed : ReaderBody → Option Bytes × ReaderBody → Type 0
Relayed b (some bs, rest) = (remaining b ≡ bs ++ remaining rest) × Ends ⊥ rest.reader.inbox
Relayed b (none, rest) = remaining b ≡ []

module _ (env : Env) where
  after_read-Relayed :
      (reader : Stream) (r : Bytes × Stream) (w : World)
      → Taken reader r
      → let b : ReaderBody = record { reader = reader; leading = none } in
        Post ⊥ (Relayed b) (after_read env b r w).0
  unfolding after_read is_empty
  after_read-Relayed reader ([], s) w h = h.moved.last refl
  after_read-Relayed reader (c ∷ bs, s) w h = (h.moved.in_order, h.ends)

  -- If the upstream is not silent for ever, asking for the next frame of a body comes back, without a
  -- panic. A frame is exactly the next part of the bytes that came along with the headers and of those
  -- that the upstream sends: none is lost, repeated or moved, and the body ends only where they end.
  pub poll_frame-Relayed :
      (b : ReaderBody) (w : World)
      → Ends ⊥ b.reader.inbox
      → Post ⊥ (Relayed b) (poll_frame env b w).0
  unfolding poll_frame
  poll_frame-Relayed b w h = by_leading b.leading b.reader h
    where
      by_leading :
          (leading : Option Bytes) (reader : Stream)
          → Ends ⊥ reader.inbox
          → let b : ReaderBody = record { reader = reader; leading = leading } in
            Post ⊥ (Relayed b) (poll_frame env b w).0
      by_leading (some l) reader h = (refl, h)
      by_leading none reader h =
          next-Post ⊥ (Taken reader) (Relayed (record { reader = reader; leading = none }))
            (read env 16384 reader w) (after_read env (record { reader = reader; leading = none }))
            (read-Taken env reader 16383 w h) (λ r taken w1. after_read-Relayed reader r w1 taken)
