-- ===== src/Proxy/Message/Framing.antt =====
-- A server's reading of a request by RFC 9112 and RFC 9110: exactly one `Host`, a target of the form that
-- belongs to the method, and as much content as `Content-Length` says. It knows no transfer coding and
-- refuses a request that names one.
use multi_proxy.Str.{eq_ignore_ascii_case, text_eq}
use multi_proxy.Str.Decimal.{to_string}
use multi_proxy.Str.Laws.{text_eq_self}
use multi_proxy.Proxy.Message.Authority.{read_authority, read_number, read_number-to_string}
use multi_proxy.Proxy.Message.{IsField, field, joined}
use multi_proxy.Proxy.Message.Reader.{Received, IsWord, request_line, read_head, read_head-joined}
use multi_proxy.Proxy.Response.{separator}
use multi_proxy.Base.{
  take-all, All, Bool, Bytes, List, Option, Text, [], arith, drop, false, if◌then◌else◌, leb,
  length, none, refl, some, take, text, true, ℕ, ◌++◌, ◌∷◌, ◌∙◌, ◌≡◌, ◌≤◌, ap, inl, inr, map, ◌-◌,
  ◌==◌, ◌^◌, ◌≢◌, ◌⊎◌,
}

-- The values of the fields with this name, in any case.
unfoldable pub values : Text → List (Text × Text) → List Text
values name [] = []
values name ((other, value) ∷ fs) =
    let rest = values name fs in if eq_ignore_ascii_case other name then value ∷ rest else rest

-- The largest content that the server takes.
abbrev pub max_content : ℕ
max_content = 2 ^ 64 - 1

-- No `Content-Length` is no content; two of them are refused.
content_length : List Text → Option ℕ
content_length [] = some 0
content_length (value ∷ []) = read_number max_content value
content_length (value ∷ other ∷ vs) = none

-- The target is an authority for CONNECT, else a path.
fits : Text → Text → Bool
fits method [] = false
fits method (c ∷ target) =
    if text_eq method (text "CONNECT")
    then elim (read_authority (c ∷ target)) [ none ↦ false | some a ↦ true ]
    else c == b'/'

-- As much content as is announced, and what stands behind it.
cut_content : Received → Option ℕ → Option (Received × Bytes)
cut_content r none = none
cut_content r (some n) =
    if leb n (length r.content)
    then some (record r { content = take n r.content }, drop n r.content)
    else none

framed : Received → List Text → List Text → Option (Received × Bytes)
unfolding fits cut_content content_length values
framed r (host ∷ []) [] =
    if fits r.method r.target
    then cut_content r (content_length (values (text "content-length") r.fields))
    else none
framed r hosts codings = none

of_head : Option Received → Option (Received × Bytes)
unfolding framed values
of_head none = none
of_head (some r) =
    framed r (values (text "host") r.fields) (values (text "transfer-encoding") r.fields)

-- A request, and the bytes behind it.
pub read_request : Bytes → Option (Received × Bytes)
unfolding of_head
read_request all = of_head (read_head all)

-- The fields announce this content: its length, or nothing where it is empty.
abbrev pub Announces : List (Text × Text) → Bytes → Type 0
Announces fs content =
    (values (text "content-length") fs ≡ to_string (length content) ∷ [])
      × (length content ≤ max_content)
    ⊎ ((values (text "content-length") fs ≡ []) × (content ≡ []))

-- Fields by which a server can tell where the request ends and which host it is for.
pub record IsFramed (fs : List (Text × Text)) (content : Bytes) : Type 0 where
  pub host : Text
  pub one_host : values (text "host") fs ≡ host ∷ []
  pub no_coding : values (text "transfer-encoding") fs ≡ []
  pub announced : Announces fs content

-- A target that belongs to the method.
abbrev pub IsTarget : Text → Text → Type 0
IsTarget method target =
    ((text_eq method (text "CONNECT") ≡ false) × ((rest : Text) × (target ≡ b'/' ∷ rest)))
    ⊎ ((method ≡ text "CONNECT")
        × ((host : Text) × (port : ℕ) × (read_authority target ≡ some (host, port))))

fits_lem : (method target : Text) → IsTarget method target → target ≢ [] → fits method target ≡ true
unfolding fits
fits_lem method [] h full = absurd (full refl)
fits_lem method (c ∷ target) (inl (other, (rest, e))) full = ground arith
fits_lem method (c ∷ target) (inr (e, (host, port, read))) full =
    rw e (rw (text_eq_self (text "CONNECT"), read) refl)

drop_all : (bs : Bytes) → drop (length bs) bs ≡ []
drop_all [] = refl
drop_all (b ∷ bs) = drop_all bs

cut_whole : (r : Received) → cut_content r (some (length r.content)) ≡ some (r, [])
unfolding cut_content
cut_whole r =
    let within : leb (length r.content) (length r.content) ≡ true = ground arith in
    rw (within, take-all (length r.content) r.content (omega arith), drop_all r.content) refl

framed_whole :
    (method target : Text) (fs : List (Text × Text)) (content : Bytes)
    → Announces fs content
    → cut_content
        (record { method = method; target = target; fields = fs; content = content })
        (content_length (values (text "content-length") fs))
      ≡ some (record { method = method; target = target; fields = fs; content = content }, [])
unfolding cut_content content_length
framed_whole method target fs content (inl (e, small)) =
    rw (e, read_number-to_string max_content (length content) small) (cut_whole _)
framed_whole method target fs content (inr (e, empty)) = rw (e, empty) refl

-- A request that is written as RFC 9112 says, with fields that frame it, is read as it was meant, and
-- nothing is left behind it.
pub read_request-joined :
    (method target : Text) (fs : List (Text × Text)) (content : Bytes)
    → IsWord method
    → IsWord target
    → All IsField fs
    → IsTarget method target
    → IsFramed fs content
    → read_request (joined (request_line method target) (map field fs) ++ (separator ++ content))
      ≡ some (record { method = method; target = target; fields = fs; content = content }, [])
unfolding read_request of_head framed
read_request-joined method target fs content word word' fields is_target is_framed =
    ap of_head (read_head-joined method target fs content word word' fields)
    ∙ rw (is_framed.one_host, is_framed.no_coding, fits_lem method target is_target word'.full)
        (framed_whole method target fs content is_framed.announced)
