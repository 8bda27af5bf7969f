-- ===== src/Manager.antt =====
-- src/upstream/mod.rs, ChannelManager: the shared list of channels.
pub mod Laws
use multi_proxy.Channel
use multi_proxy.Channel.{Channel}
use multi_proxy.Config.{Config}
use multi_proxy.Base.{Bool, List, [], if◌then◌else◌, modify, ℕ, ◌&&◌, ◌∷◌}

pub record ChannelManager : Type 0 where
  pub channels : List Channel
  pub config : Config

unfoldable pub new : List Channel → Config → ChannelManager
new channels config = record { channels = channels; config = config }

select : ℕ → List Channel → List Channel
select now [] = []
select now (c ∷ cs) =
    let rest = select now cs in
    if Channel.is_healthy c.health && Channel.should_retry now c then c ∷ rest else rest

-- `ChannelManager::healthy_channels`
unfoldable pub healthy_channels : ℕ → ChannelManager → List Channel
unfolding select
healthy_channels now m = select now m.channels

unfoldable pub mark_healthy : ℕ → ℕ → ChannelManager → ChannelManager
mark_healthy now id m = record m { channels = modify (Channel.mark_healthy now) id m.channels }

unfoldable pub mark_unhealthy : ℕ → ℕ → ChannelManager → ChannelManager
mark_unhealthy now id m = record m { channels = modify (Channel.mark_unhealthy now) id m.channels }

unfoldable pub direct_first : ChannelManager → Bool
direct_first m = m.config.direct_first
