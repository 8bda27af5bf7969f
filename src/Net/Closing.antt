-- ===== src/Net/Closing.antt =====
-- Streams that their peer ends properly.
use multi_proxy.Net.{
  Env, World, Stream, Inbox, closed, silent, broken, chunk, Arrival, bytes, eof, error, never,
  arrive, put_back, received, read,
}
use multi_proxy.Net.Gives.{Gives}
use multi_proxy.Net.Pending.{
  pending, left, Full, left-arrive, arrive-Full, Moved, bytes-Moved, eof-Moved,
}
use multi_proxy.Base.{Bytes, [], suc, ℕ, ◌+◌, ◌∷◌, ◌≡◌}

-- The peer ends the stream properly, however it cuts and delays what it sends.
abbrev pub Closes : Inbox → Type 0
Closes closed = Unit {0}
Closes silent = ⊥
Closes (broken d e) = ⊥
Closes (chunk d bs rest) = Closes rest

abbrev ClosesAfter : Arrival → Type 0
ClosesAfter (bytes d bs rest) = Closes rest
ClosesAfter (eof d) = Unit {0}
ClosesAfter (error d e) = ⊥
ClosesAfter never = ⊥

arrive-ClosesAfter : (d : ℕ) (i : Inbox) → Closes i → ClosesAfter (arrive d i)
unfolding arrive
arrive-ClosesAfter d closed h = tt
arrive-ClosesAfter d silent h = h
arrive-ClosesAfter d (broken e t) h = h
arrive-ClosesAfter d (chunk e [] rest) h = arrive-ClosesAfter (d + e) rest h
arrive-ClosesAfter d (chunk e (b ∷ bs) rest) h = h

put_back-Closes : (bs : Bytes) (i : Inbox) → Closes i → Closes (put_back bs i)
unfolding put_back
put_back-Closes [] i h = h
put_back-Closes (b ∷ bs) i h = h

-- What a read gives of a stream that closes.
pub record Next (s : Stream) (r : Bytes × Stream) : Type 0 where
  pub moved : Moved s r
  pub closes : Closes r.1.inbox

module _ (env : Env) where
  received-Next :
      (s : Stream) (cap : ℕ) (a : Arrival) (w : World)
      → left a ≡ pending s.inbox
      → Full a
      → ClosesAfter a
      → Gives ⊥ (Next s) (received env s (suc cap) a w).0
  unfolding received
  received-Next s cap (bytes d bs rest) w same full h = record {
    moved = bytes-Moved s cap d bs rest same full;
    closes = put_back-Closes _ rest h;
  }
  received-Next s cap (eof d) w same full h = record { moved = eof-Moved s same; closes = tt }
  received-Next s cap (error d e) w same full h = h
  received-Next s cap never w same full h = h

  pub read-Next :
      (s : Stream) (cap : ℕ) (w : World)
      → Closes s.inbox
      → Gives ⊥ (Next s) (read env (suc cap) s w).0
  unfolding read
  read-Next s cap w h =
      received-Next s cap (arrive 0 s.inbox) w (left-arrive 0 s.inbox) (arrive-Full 0 s.inbox)
        (arrive-ClosesAfter 0 s.inbox h)
