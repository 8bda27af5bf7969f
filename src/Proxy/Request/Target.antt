-- ===== src/Proxy/Request/Target.antt =====
-- What `parse_path_target` accepts.
use multi_proxy.Str.{starts_with, trim_start_matches}
use multi_proxy.Proxy.Request.{parse_path_target, invalid_path}
use multi_proxy.Base.{
  Bool, Text, [], arith, drop, false, length, ok, refl, text, true, ◌++◌, ◌∷◌, ◌≡◌, ◌⊎◌, Bool-cases,
  err, inl, inr,
}

-- A path is a slash in front of a URL: the target is that URL, and the flag says `https`.
pub parse_path_target-http :
    (rest : Text) → parse_path_target (text "/http://" ++ rest) ≡ ok (text "http://" ++ rest, false)
unfolding parse_path_target starts_with trim_start_matches text
parse_path_target-http rest = refl

pub parse_path_target-https :
    (rest : Text)
    → parse_path_target (text "/https://" ++ rest) ≡ ok (text "https://" ++ rest, true)
unfolding parse_path_target starts_with trim_start_matches text
parse_path_target-https rest = refl

starts_with_split : (s p : Text) → starts_with s p ≡ true → s ≡ p ++ drop (length p) s
unfolding starts_with
starts_with_split s [] h = refl
starts_with_split [] (p ∷ ps) h = ground arith
starts_with_split (c ∷ s) (p ∷ ps) h = ground (arith, starts_with_split s ps)

http_parts :
    (rest path target : Text) (is_https : Bool)
    → path ≡ text "/http://" ++ rest
    → parse_path_target path ≡ ok (target, is_https)
    → (target ≡ text "http://" ++ rest) × (is_https ≡ false)
http_parts rest path target is_https p e =
    (cc (parse_path_target-http rest), cc (parse_path_target-http rest))

https_parts :
    (rest path target : Text) (is_https : Bool)
    → path ≡ text "/https://" ++ rest
    → parse_path_target path ≡ ok (target, is_https)
    → (target ≡ text "https://" ++ rest) × (is_https ≡ true)
https_parts rest path target is_https p e =
    (cc (parse_path_target-https rest), cc (parse_path_target-https rest))

refused :
    (path : Text)
    → starts_with path (text "/http://") ≡ false
    → starts_with path (text "/https://") ≡ false
    → parse_path_target path ≡ err invalid_path
unfolding parse_path_target
refused path h k = ground arith

-- Every accepted path is a slash in front of an `http://` or `https://` URL; the target is that
-- URL, and the flag says which of the two it is.
pub parse_path_target_sound :
    (path target : Text) (is_https : Bool)
    → parse_path_target path ≡ ok (target, is_https)
    → (rest : Text) × (((path ≡ text "/http://" ++ rest)
          × (target ≡ text "http://" ++ rest)
          × (is_https ≡ false))
        ⊎ ((path ≡ text "/https://" ++ rest)
            × (target ≡ text "https://" ++ rest)
            × (is_https ≡ true)))
parse_path_target_sound path target is_https e =
    elim (Bool-cases (starts_with path (text "/http://"))) [
      | inl http ↦
          let rest = drop (length (text "/http://")) path in
          let cut = starts_with_split path (text "/http://") http in
          let parts = http_parts rest path target is_https cut e in
          (rest, inl (cut, parts.0, parts.1))
      | inr no_http ↦ elim (Bool-cases (starts_with path (text "/https://"))) [
        | inl https ↦
            let rest = drop (length (text "/https://")) path in
            let cut = starts_with_split path (text "/https://") https in
            let parts = https_parts rest path target is_https cut e in
            (rest, inr (cut, parts.0, parts.1))
        | inr no_https ↦ cc (refused path no_http no_https)
      ]
    ]
