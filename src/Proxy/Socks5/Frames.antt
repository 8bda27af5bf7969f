-- ===== src/Proxy/Socks5/Frames.antt =====
-- The frames of the SOCKS5 handshake, read back as RFC 1928 and RFC 1929 say.
use multi_proxy.Str.Utf8.{as_bytes}
use multi_proxy.Proxy.Socks5.{short_string, to_be_bytes, credentials, connect_command}
use multi_proxy.Base.{
  Bytes, Option, Text, [], drop, if◌then◌else◌, leb, length, none, some, take, ℕ, ◌&&◌, ◌*◌, ◌++◌,
  ◌+◌, ◌<◌, ◌==◌, ◌∷◌, ◌≡◌, append-nil, arith, drop-length-append, length-append, refl, ◌/◌,
  take-length-append, ◌%◌, ◌≢◌, ◌≤◌, ap, length-take,
}

-- A server's reading of a string behind its length.
pub read_string : Bytes → Option (Bytes × Bytes)
read_string [] = none
read_string (n ∷ bs) = if leb n (length bs) then some (take n bs, drop n bs) else none

pub read_port : Bytes → Option ℕ
read_port (hi ∷ lo ∷ []) = some (hi * 256 + lo)
read_port _ = none

read_target : Option (Bytes × Bytes) → Option (Bytes × ℕ)
read_target none = none
read_target (some (name, rest)) = elim (read_port rest) [ none ↦ none | some p ↦ some (name, p) ]

-- A connect command with a domain name: its bytes and the port.
pub read_command : Bytes → Option (Bytes × ℕ)
unfolding read_string read_port read_target
read_command (ver ∷ cmd ∷ rsv ∷ atyp ∷ rest) =
    if ver == 5 && (cmd == 1 && (rsv == 0 && atyp == 3))
    then read_target (read_string rest)
    else none
read_command _ = none

read_pass : Bytes → Option (Bytes × Bytes) → Option (Bytes × Bytes)
read_pass user (some (pass, [])) = some (user, pass)
read_pass user _ = none

read_user : Option (Bytes × Bytes) → Option (Bytes × Bytes)
unfolding read_pass read_string
read_user none = none
read_user (some (user, rest)) = read_pass user (read_string rest)

-- A user name and a password.
pub read_credentials : Bytes → Option (Bytes × Bytes)
unfolding read_user read_string
read_credentials [] = none
read_credentials (ver ∷ rest) = if ver == 1 then read_user (read_string rest) else none

read_string-short_string :
    (s : Text) (rest : Bytes)
    → length (as_bytes s) < 256
    → read_string (short_string s ++ rest) ≡ some (as_bytes s, rest)
unfolding read_string short_string
read_string-short_string s rest h =
    let same : length (as_bytes s) % 256 ≡ length (as_bytes s) = omega arith in
    rw same (
      ground (
        arith,
        length-append (as_bytes s) rest,
        take-length-append (as_bytes s) rest,
        drop-length-append (as_bytes s) rest,
      ))

read_port-to_be_bytes : (port : ℕ) → read_port (to_be_bytes port) ≡ some port
unfolding read_port to_be_bytes
read_port-to_be_bytes port = ground arith

-- A server reads the host and the port back from the connect command, if the host has less than 256
-- bytes in UTF-8.
pub read_command-connect_command :
    (host : Text) (port : ℕ)
    → length (as_bytes host) < 256
    → read_command (connect_command host port) ≡ some (as_bytes host, port)
unfolding read_command connect_command
read_command-connect_command host port h =
    ground (arith, read_string-short_string host (to_be_bytes port) h, read_port-to_be_bytes port)

-- A server reads user name and password back, if each has less than 256 bytes.
pub read_credentials-credentials :
    (user pass : Text)
    → length (as_bytes user) < 256
    → length (as_bytes pass) < 256
    → read_credentials (credentials user pass) ≡ some (as_bytes user, as_bytes pass)
unfolding read_credentials credentials
read_credentials-credentials user pass h k = ground (
  arith,
  read_string-short_string user (short_string pass) h,
  read_string-short_string pass [] k,
  append-nil (short_string pass),
)

read_string-length :
    (n : ℕ) (bs name rest : Bytes) → read_string (n ∷ bs) ≡ some (name, rest) → length name ≤ n
unfolding read_string
read_string-length n bs name rest e =
    let cut : name ≡ take n bs = ground arith in
    omega (arith, ap (length {A = ℕ}) cut, length-take n bs)

read_target-name :
    (o : Option (Bytes × Bytes)) (name : Bytes) (port : ℕ)
    → read_target o ≡ some (name, port)
    → (rest : Bytes) × (o ≡ some (name, rest))
unfolding read_target
read_target-name none name port e = cc
read_target-name (some (other, rest)) name port e = (rest, ground arith)

unread :
    (host : Text) (port : ℕ)
    → 256 ≤ length (as_bytes host)
    → read_command (connect_command host port) ≢ some (as_bytes host, port)
unfolding read_command connect_command short_string
unread host port h e =
    let name = as_bytes host in
    let (rest, found) =
      read_target-name (read_string (short_string host ++ to_be_bytes port)) name port
        (ground arith) in
    let short : length name ≤ length name % 256 =
      read_string-length (length name % 256) (name ++ to_be_bytes port) name rest found in
    omega arith

-- A host of 256 bytes or more in UTF-8 goes out whole, but behind its length modulo 256, and a server
-- that reads the command does not get host and port back.
pub read_command-long :
    (host : Text) (port : ℕ)
    → 256 ≤ length (as_bytes host)
    → (connect_command host port
        ≡ 5
          ∷ 1
          ∷ 0
          ∷ 3
          ∷ (length (as_bytes host) % 256)
          ∷ (as_bytes host ++ (port / 256) ∷ (port % 256) ∷ []))
      × (read_command (connect_command host port) ≢ some (as_bytes host, port))
unfolding connect_command short_string to_be_bytes
read_command-long host port h = (refl, unread host port h)
