-- ===== src/Examples/Data.antt =====
-- The inputs of the examples: three upstreams, a manager, networks in which every address accepts.
use multi_proxy.Channel.{Channel, unhealthy, unknown}
use multi_proxy.Config
use multi_proxy.Dsn.{Dsn, HttpDsn, Socks5Dsn, SshDsn, http, socks5}
use multi_proxy.Manager.{ChannelManager}
use multi_proxy.Net.{Env, World, Stream, Inbox, closed, chunk, Meanwhile, accepted, reply}
use multi_proxy.Net.Post.{Peers, Ends, Alive}
use multi_proxy.Base.{
  List, [], err, false, none, ok, refl, some, subst, text, true, ℕ, ◌++◌, ◌∷◌, ◌≡◌,
}

abbrev pub http_dsn : HttpDsn
http_dsn = record {
  host = text "10.0.0.1";
  port = 3128;
  user = some (text "ann");
  pass = some (text "pw");
}

abbrev pub socks5_dsn : Socks5Dsn
socks5_dsn = record {
  host = text "10.0.0.2";
  port = 1080;
  user = some (text "bob");
  pass = some (text "pw");
}

abbrev pub ssh_dsn : SshDsn
ssh_dsn = record {
  user = text "eve";
  pass = some (text "pw");
  host = text "10.0.0.3";
  port = 22;
  key_path = none;
  keepalive = 60;
}

abbrev pub other_ssh_dsn : SshDsn
other_ssh_dsn = record ssh_dsn { host = text "10.0.0.4" }

abbrev pub channel : ℕ → Dsn → Channel
channel id dsn = record {
  id = id;
  dsn = dsn;
  health = unknown;
  failure_count = 0;
  last_success = none;
  last_failure = none;
}

-- A channel that failed twice, the last time at second 10.
abbrev pub failed : ℕ → Dsn → Channel
failed id dsn = record (channel id dsn) {
  health = unhealthy;
  failure_count = 2;
  last_failure = some 10000;
}

abbrev pub manager : ChannelManager
manager = record {
  channels = failed 0 (http http_dsn) ∷ channel 1 (socks5 socks5_dsn) ∷ [];
  config = Config.default;
}

abbrev pub world : World
world = record { now = 12000; awaits = 0; manager = manager; pool = none }

abbrev pub calm : Meanwhile
calm = record { events = []; pool = λ p. p }

abbrev pub peer : Inbox → Stream
peer inbox = record { inbox = inbox; sent = []; write_fault = none }

-- Every address accepts after 5 milliseconds, and then sends this.
abbrev pub network : Inbox → Env
network inbox = record {
  sha256 = λ bs. bs;
  base64 = λ bs. bs;
  meanwhile = λ n. calm;
  dial = λ n addr. accepted 5 (peer inbox);
  tls_connector = ok tt;
  tls = λ n host s. reply 1 (ok s);
  ssh_connect = λ n config addr check. reply 1 (ok 7);
  ssh_password = λ n session user pass. reply 1 (ok true);
  ssh_publickey = λ n session user key. reply 1 (ok true);
  ssh_closed = λ n session. some false;
  ssh_open = λ n session host port origin origin_port. reply 1 (ok (peer inbox));
  upgrade = λ n. reply 1 (ok (peer closed));
  copy_bidirectional = λ n client upstream. reply 1 (ok (0, 0));
  var = λ name. none;
  exists = λ path. false;
  read_to_string = λ path. err (text "no such file");
  decode_secret_key = λ key. ok key;
  parse_url = λ s. err (text "no URL");
  header_name = λ name. some name;
  header_value = λ value. true;
}

abbrev pub crlf_text : List ℕ
crlf_text = 13 ∷ 10 ∷ []

-- An HTTP proxy that agrees, and a SOCKS5 proxy that asks for credentials and agrees.
abbrev pub http_network : Env
http_network = network (chunk 1 (text "HTTP/1.1 200 OK" ++ (crlf_text ++ crlf_text)) closed)

abbrev pub socks5_network : Env
socks5_network = network (
    chunk 1 (5 ∷ 2 ∷ [])
      (chunk 1 (1 ∷ 0 ∷ []) (chunk 1 (5 ∷ 0 ∷ 0 ∷ 1 ∷ 0 ∷ 0 ∷ 0 ∷ 0 ∷ 0 ∷ 0 ∷ []) closed)))

peers-accepted : (inbox : Inbox) → Ends ⊥ inbox → Peers ⊥ (network inbox)
peers-accepted inbox h n addr d s e =
    let same : peer inbox ≡ s = cc in subst (λ t. (t.sent ≡ []) × Alive ⊥ t) same (refl, (h, tt))

pub http_network-Peers : Peers ⊥ http_network
http_network-Peers = peers-accepted _ tt

pub socks5_network-Peers : Peers ⊥ socks5_network
socks5_network-Peers = peers-accepted _ tt
