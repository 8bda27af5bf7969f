-- ===== src/Strategy.antt =====
-- src/strategy.rs: the load-balancing strategy and the channel it starts at. SHA-256 belongs to the
-- crate sha2 and is a parameter; the program reads the first 8 bytes of the 32 that it returns.
pub mod Laws
use multi_proxy.Str.Utf8.{as_bytes}
use multi_proxy.Base.{Bytes, Text, [], if◌then◌else◌, take, ℕ, ◌%◌, ◌*◌, ◌+◌, ◌==◌, ◌∷◌}

pub data Strategy : Type 0 where
  order hash : Strategy

-- `u64::from_le_bytes`
unfoldable pub from_le_bytes : Bytes → ℕ
from_le_bytes [] = 0
from_le_bytes (b ∷ bs) = b + 256 * from_le_bytes bs

module _ (sha256 : Bytes → Bytes) where
  unfoldable pub hash_index : ℕ → Text → ℕ
  unfolding from_le_bytes
  hash_index total target =
      if total == 0 then 0 else from_le_bytes (take 8 (sha256 (as_bytes target))) % total

  unfoldable pub start_index : Strategy → ℕ → Text → ℕ
  start_index order total target = 0
  start_index hash total target = hash_index total target
