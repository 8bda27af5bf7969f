-- ===== src/Proxy/Request.antt =====
-- src/proxy.rs, "Request parsing": the CONNECT authority and the target in the path.
pub mod Authority
pub mod Target
use multi_proxy.Str.{starts_with, find, rfind, trim_start_matches, is_empty}
use multi_proxy.Str.Decimal.{parse_uint, max_u16}
use multi_proxy.Base.{
  Bool, Result, Text, [], drop, err, if◌then◌else◌, not, ok, ok_or, take, text, ℕ, ◌&&◌, ◌+◌, ◌-◌,
  ◌>>=◌, ◌∷◌,
}

-- `.parse::<u16>().map_err(|_| "Invalid port")`
parse_port : Text → Result ℕ
parse_port s = elim (parse_uint max_u16 s) [ ok n ↦ ok n | err _ ↦ err (text "Invalid port") ]

bracketed : Text → Result (Text × ℕ)
bracketed authority = do
  close ← ok_or (find authority b']') (text "Unclosed IPv6 bracket")
  let host = take (close - 1) (drop 1 authority)
  let rest = drop (close + 1) authority
  if is_empty rest
      then err (text "Missing port after IPv6 address")
      else (parse_port (trim_start_matches rest b':') >>= λ port. ok (host, port))

plain : Text → Result (Text × ℕ)
plain authority = do
  colon ← ok_or (rfind authority b':') (text "Missing port in authority")
  let host = take colon authority
  port ← parse_port (drop (colon + 1) authority)
  if is_empty host then err (text "Empty host") else ok (host, port)

unfoldable pub parse_authority : Text → Result (Text × ℕ)
unfolding bracketed plain parse_port
parse_authority authority =
    if starts_with authority (b'[' ∷ []) then bracketed authority else plain authority

abbrev pub invalid_path : Text
invalid_path =
    text "Invalid path format. Expected /https://target.com or CONNECT host:port HTTP/1.1"

unfoldable pub parse_path_target : Text → Result (Text × Bool)
parse_path_target path =
    if not (starts_with path (text "/http://")) && not (starts_with path (text "/https://"))
    then err invalid_path
    else ok (trim_start_matches path b'/', starts_with path (text "/https://"))
