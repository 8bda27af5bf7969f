-- ===== src/Proxy/Forward/Framed.antt =====
-- src/proxy.rs, `handle_path_forward`: which fields of the client's request say where it ends and for
-- which host it is, before and behind the rewriting of its headers.
use multi_proxy.Str.{eq_ignore_ascii_case, to_ascii_lowercase}
use multi_proxy.Proxy.Message.Framing.{IsFramed, values}
use multi_proxy.Proxy.Forward.Printed.{is_hop, end_to_end, host_value, name_host, fields_for}
use multi_proxy.Base.{
  Bytes, List, Text, [], arith, false, map, refl, text, true, ℕ, ◌++◌, ◌∷◌, ◌∙◌, ◌≡◌, ap,
  Bool-cases, inl, inr, append-nil,
}

-- Two names that are the same but for case are the same to every name.
same_name :
    (s t u : Text)
    → eq_ignore_ascii_case s t ≡ true
    → eq_ignore_ascii_case s u ≡ eq_ignore_ascii_case t u
unfolding eq_ignore_ascii_case
same_name [] [] u h = refl
same_name [] (d ∷ t) u h = cc
same_name (c ∷ s) [] u h = cc
same_name (c ∷ s) (d ∷ t) [] h = refl
same_name (c ∷ s) (d ∷ t) (e ∷ u) h = ground (arith, same_name s t u)

is_hop_same : (s t : Text) → eq_ignore_ascii_case s t ≡ true → is_hop s ≡ is_hop t
is_hop_same s t h =
    rw
      (
        same_name s t (text "connection") h,
        same_name s t (text "keep-alive") h,
        same_name s t (text "proxy-connection") h,
      )
      refl

hop_other :
    (name other : Text)
    → is_hop name ≡ false
    → is_hop other ≡ true
    → eq_ignore_ascii_case other name ≡ false
hop_other name other stays hop = elim (Bool-cases (eq_ignore_ascii_case other name)) [
  | inl same ↦ let equal = is_hop_same other name same in absurd (ground arith)
  | inr e ↦ e
]

-- What is dropped has other names.
values-end_to_end :
    (name : Text) (hs : List (Text × Text))
    → is_hop name ≡ false
    → values name (end_to_end hs) ≡ values name hs
unfolding values
values-end_to_end name [] stays = refl
values-end_to_end name ((other, value) ∷ hs) stays = elim (Bool-cases (is_hop other)) [
  | inl hop ↦ rw (hop, hop_other name other stays hop) (values-end_to_end name hs stays)
  | inr kept ↦ rw (kept, values-end_to_end name hs stays) refl
]

values-append :
    (name : Text) (fs gs : List (Text × Text))
    → values name (fs ++ gs) ≡ values name fs ++ values name gs
unfolding values
values-append name [] gs = refl
values-append name ((other, value) ∷ fs) gs = ground (arith, values-append name fs gs)

-- Naming the origin changes only the values of `Host`.
values-name_host :
    (name : Text) (host : Text) (port : ℕ) (hs : List (Text × Text))
    → eq_ignore_ascii_case (text "host") name ≡ false
    → eq_ignore_ascii_case (text "Host") name ≡ false
    → values name (map (name_host host port) hs) ≡ values name hs
unfolding values
values-name_host name host port [] lower upper = refl
values-name_host name host port ((other, value) ∷ hs) lower upper =
    elim (Bool-cases (eq_ignore_ascii_case other (text "host"))) [
      | inl is_host ↦
          let differs = same_name other (text "host") name is_host in
          rw (is_host, upper, differs, lower) (values-name_host name host port hs lower upper)
      | inr e ↦ rw (e, values-name_host name host port hs lower upper) refl
    ]

host_host : eq_ignore_ascii_case (text "Host") (text "host") ≡ true
unfolding eq_ignore_ascii_case text to_ascii_lowercase
host_host = refl

host-name_host :
    (host : Text) (port : ℕ) (hs : List (Text × Text))
    → values (text "host") (map (name_host host port) hs)
      ≡ map (λ value. host_value host port) (values (text "host") hs)
unfolding values
host-name_host host port [] = refl
host-name_host host port ((other, value) ∷ hs) =
    elim (Bool-cases (eq_ignore_ascii_case other (text "host"))) [
      | inl is_host ↦
          rw (is_host, host_host)
            (ap (λ vs. host_value host port ∷ vs) (host-name_host host port hs))
      | inr e ↦ rw (e, e) (host-name_host host port hs)
    ]

values-fields_for :
    (name : Text) (host : Text) (port : ℕ) (hs : List (Text × Text))
    → is_hop name ≡ false
    → eq_ignore_ascii_case (text "host") name ≡ false
    → eq_ignore_ascii_case (text "Host") name ≡ false
    → eq_ignore_ascii_case (text "Connection") name ≡ false
    → values name (fields_for host port hs) ≡ values name hs
unfolding values
values-fields_for name host port hs stays lower upper closing =
    values-append name (map (name_host host port) (end_to_end hs))
      ((text "Connection", text "close") ∷ [])
    ∙ rw closing (append-nil (values name (map (name_host host port) (end_to_end hs))))
    ∙ values-name_host name host port (end_to_end hs) lower upper
    ∙ values-end_to_end name hs stays

host-fields_for :
    (host : Text) (port : ℕ) (hs : List (Text × Text))
    → values (text "host") (fields_for host port hs)
      ≡ map (λ value. host_value host port) (values (text "host") hs)
unfolding values eq_ignore_ascii_case text to_ascii_lowercase
host-fields_for host port hs =
    values-append (text "host") (map (name_host host port) (end_to_end hs))
      ((text "Connection", text "close") ∷ [])
    ∙ append-nil (values (text "host") (map (name_host host port) (end_to_end hs)))
    ∙ host-name_host host port (end_to_end hs)
    ∙ ap (map (λ value. host_value host port)) (values-end_to_end (text "host") hs refl)

length-fields_for :
    (host : Text) (port : ℕ) (hs : List (Text × Text))
    → values (text "content-length") (fields_for host port hs) ≡ values (text "content-length") hs
unfolding eq_ignore_ascii_case text to_ascii_lowercase
length-fields_for host port hs =
    values-fields_for (text "content-length") host port hs refl refl refl refl

pub coding-fields_for :
    (host : Text) (port : ℕ) (hs : List (Text × Text))
    → values (text "transfer-encoding") (fields_for host port hs)
      ≡ values (text "transfer-encoding") hs
unfolding eq_ignore_ascii_case text to_ascii_lowercase
coding-fields_for host port hs =
    values-fields_for (text "transfer-encoding") host port hs refl refl refl refl

-- A request that is framed stays framed, for the origin.
pub fields_for-IsFramed :
    (host : Text) (port : ℕ) (hs : List (Text × Text)) (body : Bytes)
    → IsFramed hs body
    → IsFramed (fields_for host port hs) body
fields_for-IsFramed host port hs body framed = record {
  host = host_value host port;
  one_host =
      host-fields_for host port hs ∙ ap (map (λ value. host_value host port)) framed.one_host;
  no_coding = coding-fields_for host port hs ∙ framed.no_coding;
  announced = rw (length-fields_for host port hs) framed.announced;
}
