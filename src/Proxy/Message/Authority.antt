-- ===== src/Proxy/Message/Authority.antt =====
-- A reader of the target of a CONNECT (RFC 9112, authority-form; RFC 3986): a host and a port behind a colon,
-- where an IPv6 address stands in brackets.
use multi_proxy.Str.{find}
use multi_proxy.Str.Decimal.{
  is_digit, max_u16, parse_uint, parse_uint-to_string, to_string, to_string-digits,
}
use multi_proxy.Str.Laws.{Lacks, find-append}
use multi_proxy.Proxy.Http.{host_port}
use multi_proxy.Base.{
  All, Bool, Option, Result, Text, [], ap, arith, drop, drop-length-append_succ, err, if◌then◌else◌,
  none, ok, refl, some, take, take-length-append, true, ℕ, ◌&&◌, ◌++◌, ◌+◌, ◌==◌, ◌∙◌, ◌∷◌, ◌≡◌,
  ◌≢◌, ◌≤◌, append_assoc, max, sym,
}

all_digits : Text → Bool
unfolding is_digit
all_digits [] = true
all_digits (c ∷ s) = is_digit c && all_digits s

to_option : Result ℕ → Option ℕ
to_option (ok n) = some n
to_option (err e) = none

-- `1*DIGIT`, up to a maximum.
pub read_number : ℕ → Text → Option ℕ
unfolding all_digits to_option
read_number max s = if all_digits s then to_option (parse_uint max s) else none

with_port : Text → Option ℕ → Option (Text × ℕ)
with_port host none = none
with_port host (some port) = some (host, port)

-- A name or an IPv4 address in front of the first colon.
name_at : Text → Option ℕ → Option (Text × ℕ)
unfolding with_port
name_at s none = none
name_at s (some i) = with_port (take i s) (read_number max_u16 (drop (i + 1) s))

literal_port : Text → Text → Option (Text × ℕ)
unfolding with_port
literal_port host [] = none
literal_port host (c ∷ port) = if c == b':' then with_port host (read_number max_u16 port) else none

-- An address in front of the closing bracket.
literal_at : Text → Option ℕ → Option (Text × ℕ)
unfolding literal_port
literal_at s none = none
literal_at s (some i) = literal_port (take i s) (drop (i + 1) s)

pub read_authority : Text → Option (Text × ℕ)
unfolding name_at literal_at
read_authority [] = none
read_authority (c ∷ s) =
    if c == b'[' then literal_at s (find s b']') else name_at (c ∷ s) (find (c ∷ s) b':')

all_digits_lem : (s : Text) → All (λ c. is_digit c ≡ true) s → all_digits s ≡ true
unfolding all_digits
all_digits_lem [] h = refl
all_digits_lem (c ∷ s) h = rw (h.0, all_digits_lem s h.1) refl

pub read_number-to_string : (max n : ℕ) → n ≤ max → read_number max (to_string n) ≡ some n
unfolding read_number to_option
read_number-to_string max n h =
    rw (all_digits_lem (to_string n) (to_string-digits n), parse_uint-to_string max n h) refl

unbracketed :
    (host rest : Text)
    → Lacks b'[' host
    → read_authority (host ++ b':' ∷ rest)
      ≡ name_at (host ++ b':' ∷ rest) (find (host ++ b':' ∷ rest) b':')
unfolding read_authority
unbracketed [] rest h = refl
unbracketed (c ∷ host) rest h = ground arith

name_before :
    (host rest : Text)
    → Lacks b'[' host
    → Lacks b':' host
    → read_authority (host ++ b':' ∷ rest) ≡ with_port host (read_number max_u16 rest)
unfolding name_at
name_before host rest h plain =
    unbracketed host rest h
    ∙ ap (name_at (host ++ b':' ∷ rest)) (find-append host rest b':' plain)
    ∙ rw (take-length-append host (b':' ∷ rest), drop-length-append_succ host b':' rest) refl

-- An address is read back, if its host has no colon and no bracket.
pub read_authority-host_port :
    (host : Text) (port : ℕ)
    → Lacks b'[' host
    → Lacks b':' host
    → port ≤ max_u16
    → read_authority (host_port host port) ≡ some (host, port)
unfolding with_port host_port
read_authority-host_port host port h plain small =
    name_before host (to_string port) h plain ∙ rw (read_number-to_string max_u16 port small) refl

-- So is an address in brackets, whatever it has but a closing bracket.
pub read_authority-bracketed :
    (host : Text) (port : ℕ)
    → Lacks b']' host
    → port ≤ max_u16
    → read_authority (b'[' ∷ (host ++ b']' ∷ b':' ∷ to_string port)) ≡ some (host, port)
unfolding read_authority literal_at literal_port with_port
read_authority-bracketed host port h small =
    ap (literal_at (host ++ b']' ∷ b':' ∷ to_string port))
      (find-append host (b':' ∷ to_string port) b']' h)
    ∙ rw
        (
          take-length-append host (b']' ∷ b':' ∷ to_string port),
          drop-length-append_succ host b']' (b':' ∷ to_string port),
          read_number-to_string max_u16 port small,
        )
        refl

with_port-host :
    (host other : Text) (o : Option ℕ) (port : ℕ)
    → with_port host o ≡ some (other, port)
    → host ≡ other
unfolding with_port
with_port-host host other none port e = cc
with_port-host host other (some p) port e = cc

longer : (front back : Text) → front ≢ front ++ b':' ∷ back
longer [] back e = cc
longer (c ∷ front) back e = longer front back (ground arith)

-- A host that has a colon itself is not read back without brackets.
pub host_port-unread :
    (front back : Text) (port : ℕ)
    → Lacks b'[' front
    → Lacks b':' front
    → let host = front ++ b':' ∷ back in read_authority (host_port host port) ≢ some (host, port)
unfolding host_port
host_port-unread front back port h plain e =
    let rest = back ++ b':' ∷ to_string port in
    let cut : read_authority (host_port (front ++ b':' ∷ back) port)
        ≡ with_port front (read_number max_u16 rest) =
      ap read_authority (append_assoc front (b':' ∷ back) (b':' ∷ to_string port))
      ∙ name_before front rest h plain in
    longer front back
      (with_port-host front (front ++ b':' ∷ back) (read_number max_u16 rest) port (sym cut ∙ e))
