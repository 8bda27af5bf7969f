-- ===== src/Proxy/Tunnel/Order.antt =====
-- The order in which the channels are tried.
use mathlib.Core.List.{Perm, perm_append_comm, map-append}
use mathlib.Core.List.Perm
use multi_proxy.Channel.{Channel}
use multi_proxy.Dsn.{Dsn}
use multi_proxy.Manager.{ChannelManager}
use multi_proxy.Manager.Laws.{dsns}
use multi_proxy.Strategy.{Strategy, order, start_index}
use multi_proxy.Strategy.Laws.{start_index-lt}
use multi_proxy.Proxy.Tunnel.{ordered_channels, rotate_left, is_empty}
use multi_proxy.Base.{
  Bytes, List, Text, [], drop, get_elem?, length, map, refl, subst, suc, take, take-append-drop,
  zero, ℕ, ◌++◌, ◌<◌, ◌∷◌, ◌≡◌, Bool-cases, append-nil, arith, inl, inr, length-map, map-drop,
  map-take, sym,
}

rotate_left-perm {ℓ} : {A : Type ℓ} (k : ℕ) (xs : List A) → Perm (rotate_left k xs) xs
unfolding rotate_left
rotate_left-perm k xs =
    subst (Perm (drop k xs ++ take k xs)) (take-append-drop k xs)
      (perm_append_comm (drop k xs) (take k xs))

rotate_left-nil {ℓ} : {A : Type ℓ} (k : ℕ) → rotate_left {A = A} k [] ≡ []
unfolding rotate_left
rotate_left-nil zero = refl
rotate_left-nil (suc k) = refl

map-rotate_left {ℓ κ} :
    {A : Type ℓ} {B : Type κ} (f : A → B) (k : ℕ) (xs : List A)
    → map f (rotate_left k xs) ≡ rotate_left k (map f xs)
unfolding rotate_left
map-rotate_left f k xs = cc (map-append f (drop k xs) (take k xs), map-drop f k xs, map-take f k xs)

get_elem?-drop {ℓ} :
    {A : Type ℓ} (k : ℕ) (xs ys : List A)
    → k < length xs
    → get_elem? (drop k xs ++ ys) 0 ≡ get_elem? xs k
get_elem?-drop k [] ys h = elim h [ ]
get_elem?-drop zero (x ∷ xs) ys h = refl
get_elem?-drop (suc k) (x ∷ xs) ys h = get_elem?-drop k xs ys (omega arith)

module _ (sha256 : Bytes → Bytes) where
  -- The round over the channels is a permutation of the manager's channels: each of them occurs as
  -- often as there.
  pub ordered_channels-perm :
      (m : ChannelManager) (s : Strategy) (target : Text)
      → Perm (ordered_channels sha256 m s target) m.channels
  unfolding ordered_channels
  ordered_channels-perm m s target = elim (Bool-cases (is_empty m.channels)) [
    | inl e ↦ rw e (Perm.refl m.channels)
    | inr e ↦ rw e (rotate_left-perm (start_index sha256 s (length m.channels) target) m.channels)
  ]

  -- The order strategy tries them in the configured order.
  pub ordered_channels-order :
      (m : ChannelManager) (target : Text) → ordered_channels sha256 m order target ≡ m.channels
  unfolding ordered_channels start_index
  ordered_channels-order m target = elim (Bool-cases (is_empty m.channels)) [
    | inl e ↦ rw e
    | inr e ↦ rw e (append-nil m.channels)
  ]

  -- Either strategy begins with the channel at its start index.
  pub ordered_channels-start :
      (m : ChannelManager) (s : Strategy) (target : Text)
      → get_elem? (ordered_channels sha256 m s target) 0
        ≡ get_elem? m.channels (start_index sha256 s (length m.channels) target)
  unfolding ordered_channels
  ordered_channels-start m s target = starts m.channels refl
    where
      starts :
          (cs : List Channel)
          → m.channels ≡ cs
          → get_elem? (ordered_channels sha256 m s target) 0
            ≡ get_elem? m.channels (start_index sha256 s (length m.channels) target)
      starts [] e = rw e (ground arith)
      starts (c ∷ cs) e = rw e (
          get_elem?-drop (start_index sha256 s (length (c ∷ cs)) target) (c ∷ cs) _
            (start_index-lt sha256 s (length (c ∷ cs)) target (omega arith)))

  dsns-ordered :
      (m : ChannelManager) (s : Strategy) (target : Text)
      → map (λ (c : Channel). c.dsn) (ordered_channels sha256 m s target)
        ≡ rotate_left (start_index sha256 s (length (dsns m)) target) (dsns m)
  unfolding ordered_channels
  dsns-ordered m s target = by_list m.channels refl
    where
      dsn_of : Channel → Dsn
      dsn_of c = c.dsn

      by_list :
          (cs : List Channel)
          → m.channels ≡ cs
          → map dsn_of (ordered_channels sha256 m s target)
            ≡ rotate_left (start_index sha256 s (length (dsns m)) target) (dsns m)
      by_list [] e = rw e (sym (rotate_left-nil _))
      by_list (c ∷ cs) e =
          rw (e, length-map dsn_of cs)
            (map-rotate_left dsn_of (start_index sha256 s (suc (length cs)) target) (c ∷ cs))

  -- Session affinity: two managers with the same DSNs in the same order try them in the same order
  -- for a target, whatever their health records say.
  pub ordered_channels-affinity :
      (m n : ChannelManager) (s : Strategy) (target : Text)
      → dsns m ≡ dsns n
      → map (λ (c : Channel). c.dsn) (ordered_channels sha256 m s target)
        ≡ map (λ (c : Channel). c.dsn) (ordered_channels sha256 n s target)
  ordered_channels-affinity m n s target e = cc (dsns-ordered m s target, dsns-ordered n s target)
