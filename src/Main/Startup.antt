-- ===== src/Main/Startup.antt =====
-- The manager that `main` starts with.
use multi_proxy.Channel
use multi_proxy.Channel.{Channel}
use multi_proxy.Channel.Laws.{IsSound, new-IsSound}
use multi_proxy.Config
use multi_proxy.Config.Laws.{parse_upstreams-ok}
use multi_proxy.Config.{Config, Table, File, Args}
use multi_proxy.Dsn.{Dsn, Url}
use multi_proxy.Dsn
use multi_proxy.Manager
use multi_proxy.Manager.Laws.{IsIndexed, IsValid, dsns}
use multi_proxy.Main.{Service, serving, number_from, start_with, start}
use multi_proxy.Base.{
  All, List, Result, Text, [], ap, arith, map, ok, refl, suc, true, ℕ, ◌∷◌, ◌≡◌, ◌≢◌, ◌⊎◌,
  >>=-eq-ok,
}

number_from-IsIndexed : (i : ℕ) (ds : List Dsn) → IsIndexed i (number_from i ds)
unfolding number_from Channel.new
number_from-IsIndexed i [] = tt
number_from-IsIndexed i (d ∷ ds) = (refl, number_from-IsIndexed (suc i) ds)

number_from-IsSound : (i : ℕ) (ds : List Dsn) → All IsSound (number_from i ds)
unfolding number_from
number_from-IsSound i [] = tt
number_from-IsSound i (d ∷ ds) = (new-IsSound i d, number_from-IsSound (suc i) ds)

dsns-number_from : (i : ℕ) (ds : List Dsn) → map (λ (c : Channel). c.dsn) (number_from i ds) ≡ ds
unfolding number_from Channel.new
dsns-number_from i [] = refl
dsns-number_from i (d ∷ ds) = ap (λ rest. d ∷ rest) (dsns-number_from (suc i) ds)

serving_parts :
    (config : Config) (channels : List Channel) (s : Service)
    → start_with config channels ≡ serving s
    → (s.manager ≡ Manager.new channels config)
      × (s.connect_timeout ≡ config.connect_timeout)
      × ((channels ≢ []) ⊎ (config.direct_first ≡ true))
unfolding start_with
serving_parts config [] s e = ground arith
serving_parts config (c ∷ cs) s e = ground arith

module _ (parse_toml : Text → Result Table) (parse_url : Text → Result Url) where
  -- What the program serves with: the configuration that is loaded, a well-formed manager whose channels
  -- are its upstreams in their order, and at least one of them unless the origin is tried first.
  pub record Starts (file : File) (args : Args) (s : Service) : Type 0 where
    pub config : Config
    pub loaded : Config.load parse_toml file args ≡ ok config
    pub kept : s.manager.config ≡ config
    pub valid : IsValid s.manager
    pub upstreams : map (Dsn.from_str parse_url) config.upstreams ≡ map ok (dsns s.manager)
    pub some_way : (s.manager.channels ≢ []) ⊎ (config.direct_first ≡ true)

  made_Starts :
      (file : File) (args : Args) (config : Config) (ds : List Dsn) (s : Service)
      → Config.load parse_toml file args ≡ ok config
      → s.manager ≡ Manager.new (number_from 0 ds) config
      → map (Dsn.from_str parse_url) config.upstreams ≡ map ok ds
      → (number_from 0 ds ≢ []) ⊎ (config.direct_first ≡ true)
      → Starts file args s
  unfolding Manager.new
  made_Starts file args config ds s loads made parsed way =
      let channels : s.manager.channels ≡ number_from 0 ds =
        ap (λ (m : Manager.ChannelManager). m.channels) made in
      record {
        config = config;
        loaded = loads;
        kept = ap (λ (m : Manager.ChannelManager). m.config) made;
        valid = record {
          indexed = rw channels (number_from-IsIndexed 0 ds);
          sound = rw channels (number_from-IsSound 0 ds);
        };
        upstreams = rw (channels, dsns-number_from 0 ds) parsed;
        some_way = rw channels way;
      }

  -- If the program starts to serve, then every configured upstream parsed and became a channel, in
  -- order; the ids are the indices, the health records are sound; and there is a channel unless the
  -- origin is tried first.
  pub start-Starts :
      (file : File) (args : Args) (s : Service)
      → start parse_toml parse_url file args ≡ ok (serving s)
      → Starts file args s
  unfolding start
  start-Starts file args s e =
      let (config, loaded, e1) = >>=-eq-ok (Config.load parse_toml file args) _ e in
      let (ds, parsed, e2) = >>=-eq-ok (Config.parse_upstreams parse_url config) _ e1 in
      let started : start_with config (number_from 0 ds) ≡ serving s = ground arith in
      let (made, timeout, way) = serving_parts config (number_from 0 ds) s started in
      made_Starts file args config ds s loaded made
        ((parse_upstreams-ok parse_url config ds).0 parsed) way
