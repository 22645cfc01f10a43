-- ===== src/Main.antt =====
-- cmd/freno/main.go: the start of the service, from the reading of the settings to the server.
pub mod Command
mod Tests
use freno.Prelude.{
  ℕ, ◌≡◌, refl, ◌∙◌, ap, Bool, true, Option, none, some, if◌then◌else◌, or_else, arith,
}
use freno.Go.Text.{Text}
use freno.Go.Int.{ℤ, pos, ltb_ℤ}
use freno.Go.Time.{Time}
use freno.Cache.Api.{CacheApi}
use freno.Config.Read.{
  ConfigurationSettings, Configuration, new_configuration, File, Answer, completed, failed, pending,
  ReadError, load_configuration, Flags, override,
}
use freno.Throttle.State.{Throttler}
use freno.Throttle.Apps.{new_throttler}
use freno.Group.Consensus.{
  Interface, holds, ConsensusServiceProvider, RaftSetup, Service, new_consensus_service_provider,
  get_consensus_service,
}
use freno.Group.Consensus.Laws.{served, load_configuration-served}

module _ ⦃c : CacheApi⦄ where
  -- What a start ends in: the fatal error of the settings, no end yet of their expansion, the error
  -- of the provider, or a server at a port with its throttler and its service.
  data Started : Type 0 where
    fatal : ReadError → Started
    expanding : Started
    no_service : Started
    serving : ℤ → Throttler → Interface Service → Started

  -- httpServe, after the construction of the provider.
  serve_provider :
      ConfigurationSettings → Time → Option (ConsensusServiceProvider Service) → Started
  serve_provider s now none = no_service
  serve_provider s now (some p) =
      serving s.listen_port (new_throttler now) (get_consensus_service p)

  -- `opens`, `db_ok` and `hostname` are what the raft store, the database and the machine answer.
  module _ (opens : RaftSetup → Bool) (db_ok : Bool) (hostname : Option Text) (now : Time) where
    unfoldable http_serve : ConfigurationSettings → Started
    unfolding serve_provider
    http_serve s = serve_provider s now (new_consensus_service_provider s opens db_ok hostname)

    -- What main makes of the configuration that loadConfiguration leaves.
    after_load : Flags → Configuration × Answer → Started
    unfolding http_serve
    after_load flags (config, completed) = http_serve (override flags config.settings)
    after_load flags (config, failed e) = fatal e
    after_load flags (config, pending) = expanding

  serve_provider-served :
      (s : ConfigurationSettings) (now : Time) (p : Option (ConsensusServiceProvider Service))
      (service : Service)
      → served p ≡ some (holds service)
      → serve_provider s now p ≡ serving s.listen_port (new_throttler now) (holds service)
  unfolding serve_provider
  serve_provider-served s now none service h = ground (arith, h)
  serve_provider-served s now (some p) service h =
      ap (serving s.listen_port (new_throttler now))
        (ap (λ o. or_else o (get_consensus_service p)) h)

  module _ {D : Type 0} (files : Text → File D)
      (decode : D → ConfigurationSettings → Option ConfigurationSettings) (getenv : Text → Text)
      (fuel : ℕ) (opens : RaftSetup → Bool) (flags : Flags) (config_file : Text) where
    unfoldable start : Bool → Option Text → Time → Started
    unfolding after_load
    start db_ok hostname now =
        after_load opens db_ok hostname now flags
          (load_configuration files decode getenv fuel config_file new_configuration)

    after_load-completed :
        (r : Configuration × Answer) (db_ok : Bool) (hostname : Option Text) (now : Time)
        → r.1 ≡ completed
        → after_load opens db_ok hostname now flags r
          ≡ http_serve opens db_ok hostname now (override flags r.0.settings)
    unfolding after_load
    after_load-completed (config, completed) db_ok hostname now h = refl
    after_load-completed (config, failed e) db_ok hostname now h = ground (arith, h)
    after_load-completed (config, pending) db_ok hostname now h = ground (arith, h)

    -- Where the files are read without an error, the database opens, the machine has a name, and
    -- every raft store opens, freno starts to serve at the port of the settings with the flags over
    -- them, with a new throttler and a consensus service that is not nil.
    start-serving :
        (hostname : Text) (now : Time)
        → (load_configuration files decode getenv fuel config_file new_configuration).1 ≡ completed
        → ((setup : RaftSetup) → opens setup ≡ true)
        → (service : Service) × (start true (some hostname) now
            ≡ serving
                (override flags
                  (load_configuration files decode getenv fuel config_file
                    new_configuration).0.settings).listen_port
                (new_throttler now)
                (holds service))
    unfolding start http_serve
    start-serving hostname now h o =
        let loaded = load_configuration files decode getenv fuel config_file new_configuration in
        let s = override flags loaded.0.settings in
        let (service, e) =
          load_configuration-served files decode getenv fuel flags config_file new_configuration
            opens hostname h o in
        (
          service,
          after_load-completed loaded true (some hostname) now h
              ∙ serve_provider-served s now
                  (new_consensus_service_provider s opens true (some hostname)) service e,
        )
