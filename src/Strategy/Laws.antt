-- ===== src/Strategy/Laws.antt =====
-- The start index of a strategy.
use multi_proxy.Strategy.{Strategy, order, hash, hash_index, start_index}
use multi_proxy.Base.{Bytes, Text, arith, ℕ, ◌<◌}

module _ (sha256 : Bytes → Bytes) where
  -- The start index names a channel, for each strategy.
  pub start_index-lt :
      (s : Strategy) (total : ℕ) (target : Text)
      → 0 < total
      → start_index sha256 s total target < total
  unfolding start_index hash_index
  start_index-lt order total target h = h
  start_index-lt hash total target h = ground arith
