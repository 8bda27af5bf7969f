-- ===== src/Lib.antt =====
-- multi-proxy: an HTTP proxy that reaches an origin through upstream channels (HTTP CONNECT proxies,
-- SOCKS5 proxies, SSH servers) or directly, with a circuit breaker for each channel.
--
-- The parts and their files (paths from the repository's root):
-- - Strategy: src/strategy.rs, where the round over the channels starts.
-- - Dsn: src/dsn.rs, the DSN of a channel.
-- - Config: src/config.rs, the settings, from file, flags and environment.
-- - Channel, Manager: src/upstream/mod.rs, one channel's health and the shared list of channels.
-- - Health: src/upstream/health.rs, http.rs, socks5.rs and `probe` of ssh.rs, the probes.
-- - Ssh: src/upstream/ssh.rs, the pooled session, its login and its idle check.
-- - Main: src/main.rs, from the arguments to the manager that is served.
-- - System: src/main.rs from there on, the tasks that share the manager and the SSH pool.
-- - Proxy.Request, Proxy.Http, Proxy.Socks5, Proxy.Tunnel, Proxy.Forward, Proxy.Response,
--   Proxy.Server, Proxy.Serve: src/proxy.rs: what is asked for, the two handshakes, `acquire_tunnel`,
--   `handle_path_forward`, responses and their bodies, `handle_request`, the accept loop of `serve`.
-- - Proxy.Message: the syntax of an HTTP/1.1 head, with a reader of requests (Framing, Authority, Chunked), by
--   which Proxy.Response.RoundTrip, Proxy.Forward.RoundTrip, Proxy.Forward.Wire, Proxy.Forward.Upload,
--   Proxy.Http.RoundTrip and Literal say what the program reads and writes on the wire.
-- - UnitTests: the `mod tests` of src/strategy.rs, src/dsn.rs and src/config.rs.
-- - Str: the text, number and UTF-8 functions of the standard library that these call.
-- - Net: what the program sees of the outside. Base: names and lemmas that all parts share.
-- - Examples: the theorems at concrete inputs.
--
-- How the code is rendered. A text is a list of code points and bytes are a list of numbers below 256.
-- An async function is a function from a `World` (clock, count of awaits, shared manager, SSH pool) to
-- an outcome (a value, an error, a panic, or an await that never ends) and the world after it. Each
-- await asks the environment `Env` for its answer and delay, and then lets other tasks mark channels
-- and change the pool, in any way; the theorems hold for every environment. A stream is what its peer still
-- sends, piece by piece, with what was written to it, and after how many bytes writing fails or waits for
-- ever on a peer that does not read. Times are milliseconds. Where the source calls
-- another crate (url, toml, clap, sha2, base64, russh, native_tls, http, hyper, tokio) the answer is
-- a parameter, and what a theorem needs of it is a named hypothesis (`PortDocs`, `NameDocs`, `Base64Docs`).
--
-- Bounds. The loop of `establish_http` gets 1025 rounds and the loop of `read_streaming_response` gets
-- 65537: each round but the last adds a byte, and both loops stop past 1024 and 65536 bytes, which
-- the termination proofs use. The failure count stops at the largest u32, the power of the backoff at
-- the largest u64, and a port is at most 65535. The factor 10 of the response deadline is exact, where
-- the source rounds to a 32-bit float. Times have no bound: the panics of `Duration` and `Instant` on
-- timeouts that they cannot represent are left out. An interval of tokio ticks at fixed
-- times: what is left to wait at a tick is any time up to its period.
--
-- How the parts run together. `System.Step` is one step of one task: a turn of the accept loop, a
-- request of a connection, the copying of a tunnel, the health checker's start or a later check, a
-- look of the idle reaper at the SSH pool, the abort behind `serve`. Steps come in any order, and
-- what the other tasks do while a task waits is in the environment of its step. The probes of a
-- check are tasks of their own, which see what the network answers and end in an order that is a
-- parameter (`join`).
--
-- The reader of requests in Proxy.Message.Framing wants exactly one `Host`, a target that fits the method,
-- and as much content as `Content-Length` says. It refuses transfer codings.
--
-- Not modelled: the signals behind a shutdown, hyper's framing, logging, and binding the
-- listening address, which are calls of tokio and hyper.
pub mod Base
pub mod Channel
pub mod Config
pub mod Dsn
pub mod Examples
pub mod Health
pub mod Main
pub mod Manager
pub mod Net
pub mod Proxy
pub mod Ssh
pub mod Str
pub mod Strategy
pub mod System
pub mod UnitTests
