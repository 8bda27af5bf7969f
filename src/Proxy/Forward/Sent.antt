-- ===== src/Proxy/Forward/Sent.antt =====
-- src/proxy.rs, `handle_path_forward`: what reaches the origin of the client's request line and
-- headers.
use multi_proxy.Str.{eq_ignore_ascii_case}
use multi_proxy.Strategy.{Strategy}
use multi_proxy.Net.{Env}
use multi_proxy.Proxy.Request.{parse_path_target}
use multi_proxy.Proxy.Forward.{
  Request, header_line, header_lines, handle_path_forward, to_target, forward_to,
}
use multi_proxy.Base.{
  Bytes, List, Option, Text, [], append_assoc, false, inl, inr, refl, text, true, ℕ, ◌++◌, ◌∷◌, ◌≡◌,
  ◌⊎◌, Bool, Result, arith, err, ok,
}

-- The header concerns only the connection to the proxy.
abbrev pub IsHop : Text → Type 0
IsHop name =
    (eq_ignore_ascii_case name (text "connection") ≡ true)
    ⊎ ((eq_ignore_ascii_case name (text "keep-alive") ≡ true)
        ⊎ (eq_ignore_ascii_case name (text "proxy-connection") ≡ true))

header_line-hop :
    (host : Text) (port : ℕ) (name : Text) (value : Bytes)
    → eq_ignore_ascii_case name (text "host") ≡ false
    → IsHop name
    → header_line host port name value ≡ []
unfolding header_line
header_line-hop host port name value h (inl e) = rw (h, e) refl
header_line-hop host port name value h (inr (inl e)) = ground (arith)
header_line-hop host port name value h (inr (inr e)) = ground (arith)

-- The lines of two lists of headers, one behind the other.
header_lines-append :
    (host : Text) (port : ℕ) (hs ks : List (Text × Bytes))
    → header_lines host port (hs ++ ks) ≡ header_lines host port hs ++ header_lines host port ks
unfolding header_lines
header_lines-append host port [] ks = refl
header_lines-append host port ((name, value) ∷ hs) ks = cc (
  header_lines-append host port hs ks,
  append_assoc (header_line host port name value) (header_lines host port hs)
      (header_lines host port ks),
)

-- A header called `connection`, `keep-alive` or `proxy-connection` in any case, and not `host`,
-- leaves no trace in the request that is sent on, wherever it stands among the others.
pub header_lines-hop :
    (host : Text) (port : ℕ) (hs ks : List (Text × Bytes)) (name : Text) (value : Bytes)
    → eq_ignore_ascii_case name (text "host") ≡ false
    → IsHop name
    → header_lines host port (hs ++ (name, value) ∷ ks) ≡ header_lines host port (hs ++ ks)
unfolding header_lines
header_lines-hop host port hs ks name value h hop = cc (
  header_lines-append host port hs ((name, value) ∷ ks),
  header_lines-append host port hs ks,
  header_line-hop host port name value h hop,
)

module _ (env : Env) where
  to_target-query :
      (req : Request) (query : Option Text) (strategy : Strategy) (limit : ℕ)
      → (r : Result (Text × Bool))
      → to_target env (record req { query = query }) strategy limit r
        ≡ to_target env req strategy limit r
  unfolding to_target forward_to
  to_target-query req query strategy limit (err e) = refl
  to_target-query req query strategy limit (ok r) = refl

  -- The query of the client's request is lost: two requests that differ only there are handled alike,
  -- and both have the same effect on all that is shared.
  pub handle_path_forward-query :
      (req : Request) (query : Option Text) (strategy : Strategy) (limit : ℕ)
      → handle_path_forward env (record req { query = query }) strategy limit
        ≡ handle_path_forward env req strategy limit
  unfolding handle_path_forward
  handle_path_forward-query req query strategy limit =
      to_target-query req query strategy limit (parse_path_target req.path)
