-- ===== src/Net.antt =====
-- What the program sees of the outside: byte streams, the clock, other tasks. tokio, hyper, russh and
-- the operating system are not modelled; what they answer is given by an environment `Env`, one
-- answer for each await, over which every theorem is general.
pub mod Run
pub mod Post
pub mod Pending
pub mod Ask
pub mod Gives
pub mod Guarded
pub mod Closing
use multi_proxy.Manager.{ChannelManager}
use multi_proxy.Dsn.{Url}
use multi_proxy.Manager.Laws.{Event, marks}
use multi_proxy.Base.{
  Bool, Bytes, List, Option, Result, Text, [], drop, err, if◌then◌else◌, leb, length, ltb, none, ok,
  some, take, text, ℕ, ◌++◌, ◌+◌, ◌∷◌,
}

-- What a peer still has to send: bytes, each piece after a delay in milliseconds, then the end of the
-- stream, an error, or silence.
pub data Inbox : Type 0 where
  closed silent : Inbox
  broken : ℕ → Text → Inbox
  chunk : ℕ → Bytes → Inbox → Inbox

-- A `BoxStream`: what is still to come, what was written, and after how many bytes writing ends: with an
-- error, or, with none, in a write that never returns, since the peer does not read on.
pub record Stream : Type 0 where
  pub inbox : Inbox
  pub sent : Bytes
  pub write_fault : Option (ℕ × Option Text)

-- How the peer answers `TcpStream::connect`.
pub data Dial : Type 0 where
  accepted : ℕ → Stream → Dial
  refused : ℕ → Text → Dial
  unanswered : Dial

-- The answer of an awaited call of another crate, after a delay; or none at all.
pub data Reply (A : Type 0) : Type 0 where
  reply : ℕ → Result A → Reply A
  no_reply : Reply A

-- upstream/ssh.rs, SshPoolEntry: the session is a number that stands for its shared handle.
pub record SshPoolEntry : Type 0 where
  pub handle : ℕ
  pub last_used : ℕ
  pub dsn_key : Text

-- What `SshPool::get_or_connect` sets of russh's `client::Config`, in seconds.
pub record ClientConfig : Type 0 where
  pub inactivity_timeout : Option ℕ
  pub keepalive_interval : Option ℕ
  pub keepalive_max : ℕ

-- What the other tasks do to the shared state while this one awaits.
pub record Meanwhile : Type 0 where
  pub events : List Event
  pub pool : Option SshPoolEntry → Option SshPoolEntry

-- The first argument of an answer is the number of awaits so far.
pub record Env : Type 0 where
  pub sha256 : Bytes → Bytes
  pub base64 : Bytes → Text
  pub meanwhile : ℕ → Meanwhile
  pub dial : ℕ → Text → Dial
  pub tls_connector : Result (Unit {0})
  pub tls : ℕ → Text → Stream → Reply Stream
  pub ssh_connect : ℕ → ClientConfig → Text → (Text → Result Bool) → Reply ℕ
  pub ssh_password : ℕ → ℕ → Text → Text → Reply Bool
  pub ssh_publickey : ℕ → ℕ → Text → Text → Reply Bool
  pub ssh_closed : ℕ → ℕ → Option Bool
  pub ssh_open : ℕ → ℕ → Text → ℕ → Text → ℕ → Reply Stream
  pub var : Text → Option Text
  pub exists : Text → Bool
  pub read_to_string : Text → Result Text
  pub decode_secret_key : Text → Result Text
  -- hyper's `upgrade::on` and tokio's `copy_bidirectional`, which counts the bytes of both ways.
  pub upgrade : ℕ → Reply Stream
  pub copy_bidirectional : ℕ → Stream → Stream → Reply (ℕ × ℕ)
  -- The crates url and http: parsing a URL, the normal form of a valid header name, and whether a text
  -- is a valid header value.
  pub parse_url : Text → Result Url
  pub header_name : Text → Option Text
  pub header_value : Text → Bool

-- The state that the tasks share, and the clock.
pub record World : Type 0 where
  pub now : ℕ
  pub awaits : ℕ
  pub manager : ChannelManager
  pub pool : Option SshPoolEntry

-- A `Result<A, String>`, a panic, or an await that never ends.
pub data Outcome {ℓ} (A : Type ℓ) : Type ℓ where
  done : A → Outcome A
  fail : Text → Outcome A
  panic hang : Outcome A

abbrev pub M : Type 0 → Type 0
M A = World → Outcome A × World

abbrev pub pure : {A : Type 0} → A → M A
pure a w = (done a, w)

abbrev pub throw : {A : Type 0} → Text → M A
throw e w = (fail e, w)

abbrev pub next : {A B : Type 0} → Outcome A × World → (A → M B) → Outcome B × World
next (done a, w) f = f a w
next (fail e, w) f = (fail e, w)
next (panic, w) f = (panic, w)
next (hang, w) f = (hang, w)

-- A failed `unwrap`, index or slice.
abbrev pub crash : {A : Type 0} → M A
crash w = (panic, w)

infixl 5 ◌>>=◌ ◌>>◌
abbrev pub ◌>>=◌ : {A B : Type 0} → M A → (A → M B) → M B
◌>>=◌ m f w = next (m w) f

abbrev pub ◌>>◌ : {B : Type 0} → M (Unit {0}) → M B → M B
m >> k = m >>= λ _. k

-- `match … .await { Ok(a) => …, Err(e) => … }`
abbrev pub caught : {A : Type 0} → Outcome A → Outcome (Result A)
caught (done a) = done (ok a)
caught (fail e) = done (err e)
caught panic = panic
caught hang = hang

abbrev pub attempt : {A : Type 0} → M A → M (Result A)
attempt m w = (caught (m w).0, (m w).1)

abbrev pub from_result : {A : Type 0} → Result A → M A
from_result (ok a) w = (done a, w)
from_result (err e) w = (fail e, w)

-- `.map_err(|e| format!("{prefix}{e}"))`
abbrev pub prefixed : {A : Type 0} → Text → Outcome A → Outcome A
prefixed p (done a) = done a
prefixed p (fail e) = fail (p ++ e)
prefixed p panic = panic
prefixed p hang = hang

abbrev pub map_err : {A : Type 0} → Text → M A → M A
map_err p m w = (prefixed p (m w).0, (m w).1)

abbrev pub get : M World
get w = (done w, w)

-- The marks of `ChannelManager`, by this task at the present time.
abbrev pub update : (World → World) → M (Unit {0})
update f w = (done tt, f w)

module _ (env : Env) where
  -- An await of `delay` milliseconds: the clock goes on and the other tasks run.
  unfoldable pub elapse : ℕ → World → World
  elapse delay w =
      let other = env.meanwhile w.awaits in
      record {
        now = w.now + delay;
        awaits = w.awaits + 1;
        manager = marks other.events w.manager;
        pool = other.pool w.pool;
      }

  abbrev pub pause : ℕ → M (Unit {0})
  pause delay w = (done tt, elapse delay w)

  answer : {A : Type 0} → Reply A → M A
  answer (reply delay r) w = from_result r (elapse delay w)
  answer no_reply w = (hang, w)

  -- Await a call of another crate.
  unfoldable pub ask : {A : Type 0} → (ℕ → Reply A) → M A
  unfolding answer
  ask call w = answer (call w.awaits) w

  dialed : ℕ → Text → Text → Dial → M Stream
  dialed limit late prefix (accepted delay s) w =
      if leb delay limit then (done s, elapse delay w) else (fail late, elapse limit w)
  dialed limit late prefix (refused delay e) w =
      if leb delay limit then (fail (prefix ++ e), elapse delay w) else (fail late, elapse limit w)
  dialed limit late prefix unanswered w = (fail late, elapse limit w)

  -- `timeout(limit, TcpStream::connect(addr)).await`, with the message of a timeout and the text in
  -- front of the message of a refusal.
  unfoldable pub connect : ℕ → Text → Text → Text → M Stream
  unfolding dialed
  connect limit addr late prefix w = dialed limit late prefix (env.dial w.awaits addr) w

-- The next bytes that arrive, after a delay; a piece with no bytes is none.
pub data Arrival : Type 0 where
  bytes : ℕ → Bytes → Inbox → Arrival
  eof : ℕ → Arrival
  error : ℕ → Text → Arrival
  never : Arrival

unfoldable pub arrive : ℕ → Inbox → Arrival
arrive delay closed = eof delay
arrive delay silent = never
arrive delay (broken d e) = error (delay + d) e
arrive delay (chunk d [] rest) = arrive (delay + d) rest
arrive delay (chunk d (b ∷ bs) rest) = bytes (delay + d) (b ∷ bs) rest

unfoldable pub put_back : Bytes → Inbox → Inbox
put_back [] rest = rest
put_back (b ∷ bs) rest = chunk 0 (b ∷ bs) rest

-- The bytes of `read_exact`, gathered piece by piece.
unfoldable pub gather : ℕ → Bytes → ℕ → Inbox → Arrival
unfolding put_back
gather need got delay closed = error delay (text "early eof")
gather need got delay silent = never
gather need got delay (broken d e) = error (delay + d) e
gather need got delay (chunk d bs rest) =
    let more = gather need (got ++ bs) (delay + d) rest in
    if leb need (length (got ++ bs))
    then bytes (delay + d) (take need (got ++ bs)) (put_back (drop need (got ++ bs)) rest)
    else more

module _ (env : Env) where
  received : Stream → ℕ → Arrival → M (Bytes × Stream)
  unfolding put_back
  received s cap (bytes d bs rest) w =
      (done (take cap bs, record s { inbox = put_back (drop cap bs) rest }), elapse env d w)
  received s cap (eof d) w = (done ([], record s { inbox = closed }), elapse env d w)
  received s cap (error d e) w = (fail e, elapse env d w)
  received s cap never w = (hang, w)

  -- `s.read(&mut buf).await` with a buffer of `cap` bytes: no byte means the end of the stream.
  unfoldable pub read : ℕ → Stream → M (Bytes × Stream)
  unfolding received arrive
  read cap s = received s cap (arrive 0 s.inbox)

  -- `s.read_exact(&mut buf).await` for a buffer of `need` bytes.
  unfoldable pub read_exact : ℕ → Stream → M (Bytes × Stream)
  unfolding received gather
  read_exact need s = received s need (gather need [] 0 s.inbox)

  -- A write that is not taken.
  blocked : Option Text → M Stream
  blocked (some e) w = (fail e, elapse env 0 w)
  blocked none w = (hang, w)

  -- `s.write_all(buf).await`
  unfoldable pub write_all : Bytes → Stream → M Stream
  unfolding blocked
  write_all buf s w = elim s.write_fault [
    | none ↦ (done (record s { sent = s.sent ++ buf }), elapse env 0 w)
    | some (n, e) ↦
        if ltb n (length (s.sent ++ buf))
        then blocked e w
        else (done (record s { sent = s.sent ++ buf }), elapse env 0 w)
  ]
