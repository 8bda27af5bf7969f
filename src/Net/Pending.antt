-- ===== src/Net/Pending.antt =====
-- The bytes that a peer still sends, and how reading takes them away.
use multi_proxy.Net.{
  Env, World, Stream, Inbox, closed, silent, broken, chunk, Arrival, bytes, eof, error, never,
  arrive, put_back, received, read,
}
use multi_proxy.Net.Post.{Post, Ends, Heard, arrive-Heard}
use multi_proxy.Base.{
  Bytes, [], append_assoc, drop, refl, suc, sym, take, take-append-drop, ℕ, ◌++◌, ◌+◌, ◌∷◌, ◌≡◌,
}

abbrev pub pending : Inbox → Bytes
pending closed = []
pending silent = []
pending (broken d e) = []
pending (chunk d bs rest) = bs ++ pending rest

abbrev pub left : Arrival → Bytes
left (bytes d bs rest) = bs ++ pending rest
left (eof d) = []
left (error d e) = []
left never = []

-- Bytes that arrive are at least one.
abbrev pub Full : Arrival → Type 0
Full (bytes d bs rest) = (b : ℕ) × (cs : Bytes) × (bs ≡ b ∷ cs)
Full (eof d) = Unit {0}
Full (error d e) = Unit {0}
Full never = Unit {0}

pub left-arrive : (d : ℕ) (i : Inbox) → left (arrive d i) ≡ pending i
unfolding arrive
left-arrive d closed = refl
left-arrive d silent = refl
left-arrive d (broken e t) = refl
left-arrive d (chunk e [] rest) = left-arrive (d + e) rest
left-arrive d (chunk e (b ∷ bs) rest) = refl

pub arrive-Full : (d : ℕ) (i : Inbox) → Full (arrive d i)
unfolding arrive
arrive-Full d closed = tt
arrive-Full d silent = tt
arrive-Full d (broken e t) = tt
arrive-Full d (chunk e [] rest) = arrive-Full (d + e) rest
arrive-Full d (chunk e (b ∷ bs) rest) = (b, bs, refl)

pub pending-put_back : (bs : Bytes) (i : Inbox) → pending (put_back bs i) ≡ bs ++ pending i
unfolding put_back
pending-put_back [] i = refl
pending-put_back (b ∷ bs) i = refl

put_back-Ends : (bs : Bytes) (i : Inbox) → Ends ⊥ i → Ends ⊥ (put_back bs i)
unfolding put_back
put_back-Ends [] i h = h
put_back-Ends (b ∷ bs) i h = h

-- What was read is the next part of what was pending, it is empty only at the end, and nothing was
-- written.
pub record Moved (s : Stream) (r : Bytes × Stream) : Type 0 where
  pub in_order : pending s.inbox ≡ r.0 ++ pending r.1.inbox
  pub last : r.0 ≡ [] → pending s.inbox ≡ []
  pub same_sent : r.1.sent ≡ s.sent

-- Bytes that arrived, of which up to `suc cap` are read.
pub bytes-Moved :
    (s : Stream) (cap d : ℕ) (bs : Bytes) (rest : Inbox)
    → left (bytes d bs rest) ≡ pending s.inbox
    → Full (bytes d bs rest)
    → Moved s (take (suc cap) bs, record s { inbox = put_back (drop (suc cap) bs) rest })
bytes-Moved s cap d bs rest same (b, cs, full) = record {
  in_order = cc (
    same,
    pending-put_back (drop (suc cap) bs) rest,
    append_assoc (take (suc cap) bs) (drop (suc cap) bs) (pending rest),
    take-append-drop (suc cap) bs,
  );
  last = λ none_read. let cut : take (suc cap) bs ≡ b ∷ take cap cs = rw full refl in cc;
  same_sent = refl;
}

pub eof-Moved : (s : Stream) → [] ≡ pending s.inbox → Moved s ([], record s { inbox = closed })
eof-Moved s same = record { in_order = sym same; last = λ e. sym same; same_sent = refl }

-- A read from a peer that is not silent for ever.
pub record Taken (s : Stream) (r : Bytes × Stream) : Type 0 where
  pub moved : Moved s r
  pub ends : Ends ⊥ r.1.inbox

module _ (env : Env) where
  received-Taken :
      (s : Stream) (cap : ℕ) (a : Arrival) (w : World)
      → left a ≡ pending s.inbox
      → Heard ⊥ a
      → Full a
      → Post ⊥ (Taken s) (received env s (suc cap) a w).0
  unfolding received
  received-Taken s cap (bytes d bs rest) w same h full = record {
    moved = bytes-Moved s cap d bs rest same full;
    ends = put_back-Ends (drop (suc cap) bs) rest h;
  }
  received-Taken s cap (eof d) w same h full = record { moved = eof-Moved s same; ends = tt }
  received-Taken s cap (error d e) w same h full = tt
  received-Taken s cap never w same h full = h

  pub read-Taken :
      (s : Stream) (cap : ℕ) (w : World)
      → Ends ⊥ s.inbox
      → Post ⊥ (Taken s) (read env (suc cap) s w).0
  unfolding read
  read-Taken s cap w h =
      received-Taken s cap (arrive 0 s.inbox) w (left-arrive 0 s.inbox) (arrive-Heard ⊥ 0 s.inbox h)
        (arrive-Full 0 s.inbox)
