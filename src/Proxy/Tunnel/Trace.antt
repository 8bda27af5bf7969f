-- ===== src/Proxy/Tunnel/Trace.antt =====
-- src/proxy.rs, the loop over the channels in `acquire_tunnel` and `handle_path_forward`: which attempts it
-- makes, on which channels, and what it leaves behind, described without its code.
use multi_proxy.Channel
use multi_proxy.Channel.{Channel, healthy, unhealthy, max_u32}
use multi_proxy.Channel.Backoff.{Waits, should_retry_iff}
use multi_proxy.Dsn.{Dsn}
use multi_proxy.Manager
use multi_proxy.Net.{World, Outcome, done, fail, panic, hang, M, next, caught}
use multi_proxy.Proxy.Tunnel.{Tried, got, exhausted, settle, try_channels}
use multi_proxy.Base.{
  Bool-cases, List, Text, [], modify, min, some, refl, inl, inr, ℕ, ◌+◌, ◌++◌, ◌∷◌, ◌≡◌, ap,
}

-- The world after a channel failed: unhealthy from now on, one more failure, up to the largest u32.
abbrev pub failed_in : ℕ → World → World
failed_in id w = record w {
  manager = record w.manager {
    channels =
        modify
          (λ (c : Channel). record c {
            health = unhealthy;
            failure_count = min (c.failure_count + 1) max_u32;
            last_failure = some w.now;
          })
          id w.manager.channels;
  };
}

-- The world after a channel worked: healthy from now on, no failure.
abbrev pub worked_in : ℕ → World → World
worked_in id w = record w {
  manager = record w.manager {
    channels =
        modify
          (λ (c : Channel). record c {
            health = healthy;
            failure_count = 0;
            last_success = some w.now;
          })
          id w.manager.channels;
  };
}

module _ {A : Type 0} (establish : Dsn → M A) where
  -- The channels that the loop has gone past, with the error and the world that it came with and those
  -- that it goes on with: a channel in its backoff window is left out, any other was tried and failed.
  pub data Past : List Channel → Text → World → Text → World → Type 0 where
    start : {e : Text} {w : World} → Past [] e w e w
    left_out :
        {c : Channel} {cs : List Channel} {e e' : Text} {w w' : World}
        → Waits w.now c
        → Past cs e w e' w'
        → Past (c ∷ cs) e w e' w'
    failed :
        {c : Channel} {cs : List Channel} {e t e' : Text} {w w1 w' : World}
        → ¬ Waits w.now c
        → establish c.dsn w ≡ (fail t, w1)
        → Past cs t (failed_in c.id w1) e' w'
        → Past (c ∷ cs) e w e' w'

  -- The loop stops at a channel that may be tried: everything in front of it is past.
  pub record StopsAt (cs : List Channel) (e : Text) (w : World) (ch : Channel) (o : Outcome A)
      (w' : World) : Type 0 where
    pub front : List Channel
    pub rest : List Channel
    pub error : Text
    pub before : World
    pub split : cs ≡ front ++ ch ∷ rest
    pub past : Past front e w error before
    pub ready : ¬ Waits before.now ch
    pub tried : establish ch.dsn before ≡ (o, w')

  -- What the loop over the channels ends in.
  abbrev pub Traced : List Channel → Text → World → Outcome (Tried A) → World → Type 0
  Traced cs e w (done (got a)) w' =
      (w1 : World) × (ch : Channel) × StopsAt cs e w ch (done a) w1 × (w' ≡ worked_in ch.id w1)
  Traced cs e w (done (exhausted e')) w' = Past cs e w e' w'
  Traced cs e w (fail t) w' = ⊥
  Traced cs e w panic w' = (ch : Channel) × StopsAt cs e w ch panic w'
  Traced cs e w hang w' = (ch : Channel) × StopsAt cs e w ch hang w'

  module _ (c : Channel) (e e1 : Text) (w w1 : World)
      (behind : (front : List Channel) (e' : Text) (w' : World)
        → Past front e1 w1 e' w'
        → Past (c ∷ front) e w e' w') where
    grow_StopsAt :
        (cs : List Channel) (ch : Channel) (o : Outcome A) (w' : World)
        → StopsAt cs e1 w1 ch o w'
        → StopsAt (c ∷ cs) e w ch o w'
    grow_StopsAt cs ch o w' stop = record {
      front = c ∷ stop.front;
      rest = stop.rest;
      error = stop.error;
      before = stop.before;
      split = ap (λ t. c ∷ t) stop.split;
      past = behind stop.front stop.error stop.before stop.past;
      ready = stop.ready;
      tried = stop.tried;
    }

    -- One more channel in front that is past.
    grow :
        (cs : List Channel) (o : Outcome (Tried A)) (w' : World)
        → Traced cs e1 w1 o w'
        → Traced (c ∷ cs) e w o w'
    grow cs (done (got a)) w' (w2, ch, stop, marked) =
        (w2, ch, grow_StopsAt cs ch (done a) w2 stop, marked)
    grow cs (done (exhausted e')) w' past = behind cs e' w' past
    grow cs (fail t) w' h = h
    grow cs panic w' (ch, stop) = (ch, grow_StopsAt cs ch panic w' stop)
    grow cs hang w' (ch, stop) = (ch, grow_StopsAt cs ch hang w' stop)

  stops_here :
      (c : Channel) (cs : List Channel) (e : Text) (w : World) (o : Outcome A) (w' : World)
      → ¬ Waits w.now c
      → establish c.dsn w ≡ (o, w')
      → StopsAt (c ∷ cs) e w c o w'
  stops_here c cs e w o w' ready tried = record {
    front = [];
    rest = cs;
    error = e;
    before = w;
    split = refl;
    past = start;
    ready = ready;
    tried = tried;
  }

  settle-Traced :
      (c : Channel) (cs : List Channel) (e : Text) (w : World) (r : Outcome A × World)
      → ¬ Waits w.now c
      → establish c.dsn w ≡ r
      → ((e1 : Text) (w1 : World)
          → Traced cs e1 w1 (try_channels establish cs e1 w1).0 (try_channels establish cs e1 w1).1)
      → Traced
          (c ∷ cs)
          e
          w
          (next (caught r.0, r.1) (settle (try_channels establish cs) c.id)).0
          (next (caught r.0, r.1) (settle (try_channels establish cs) c.id)).1
  unfolding settle Manager.mark_healthy Manager.mark_unhealthy Channel.mark_healthy
      Channel.mark_unhealthy
  settle-Traced c cs e w (done a, w1) ready tried again =
      (w1, c, stops_here c cs e w (done a) w1 ready tried, refl)
  settle-Traced c cs e w (fail t, w1) ready tried again =
      grow c e t w (failed_in c.id w1) (λ front e' w' past. failed ready tried past) cs
        (try_channels establish cs t (failed_in c.id w1)).0
        (try_channels establish cs t (failed_in c.id w1)).1 (again t (failed_in c.id w1))
  settle-Traced c cs e w (panic, w1) ready tried again =
      (c, stops_here c cs e w panic w1 ready tried)
  settle-Traced c cs e w (hang, w1) ready tried again = (c, stops_here c cs e w hang w1 ready tried)

  -- The loop over the channels, on whatever attempts: it goes past channels in their backoff window
  -- without an attempt, and past channels whose attempt fails, each of which is marked as failed at that
  -- time (unhealthy, one more failure). Either it gets past all of them, and gives the last error; or it
  -- stops at the first other channel: with what that one gave, and the channel marked as working
  -- (healthy, no failure), or in the panic or the endless wait of its attempt. It never ends in an error.
  pub try_channels-Traced :
      (cs : List Channel) (e : Text) (w : World)
      → Traced cs e w (try_channels establish cs e w).0 (try_channels establish cs e w).1
  unfolding try_channels
  try_channels-Traced [] e w = start
  try_channels-Traced (c ∷ cs) e w = elim (Bool-cases (Channel.should_retry w.now c)) [
    | inl retry ↦
        let ready : ¬ Waits w.now c = λ waits. let off = (should_retry_iff w.now c).1 waits in cc in
        rw (retry, try_channels)
          (settle-Traced c cs e w (establish c.dsn w) ready refl (try_channels-Traced cs))
    | inr skip ↦
        let waits : Waits w.now c = (should_retry_iff w.now c).0 skip in
        rw (skip, try_channels)
          (grow c e e w w (λ front e' w' past. left_out waits past) cs
            (try_channels establish cs e w).0 (try_channels establish cs e w).1
            (try_channels-Traced cs e w))
  ]
