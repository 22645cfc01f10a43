-- ===== src/Group/Consensus/Laws.antt =====
-- Which consensus service freno gets, and what the MySQL backend reports of the election.
use freno.Prelude.{
  ℕ, ◌≡◌, inl, inr, ◌∙◌, Bool, true, false, not, Option, none, some, [], if◌then◌else◌,
  Option-cases, Bool-cases, arith,
}
use freno.Go.Text.{Text, codes, str_eq, str_eq_iff, text_eq}
use freno.Go.Dict.{Dict}
use freno.Config.Read.{
  ConfigurationSettings, Configuration, File, completed, load_configuration, Flags, override,
}
use freno.Config.Read.Laws.{IsUsable, override-load_configuration}
use freno.Group.Election.{
  Backend, ServiceElection, HealthRow, collates, elections_tick, attempt_leadership,
  read_leadership, is_leader, get_state_description,
}
use freno.Group.Election.Laws.{lookup-attempt_leadership}
use freno.Group.Consensus.{
  Interface, nil_pointer, holds, RaftSetup, store_of, Service, mysql_backend, raft_store,
  new_mysql_backend, setup_raft, ConsensusServiceProvider, new_consensus_service_provider,
  get_consensus_service, mysql_status, get_leader,
}

-- The service that the provider gives, where there is a provider.
abbrev pub served : Option (ConsensusServiceProvider Service) → Option (Interface Service)
served none = none
served (some p) = some (get_consensus_service p)

-- The choice, without the detour: with a host of the MySQL backend, the backend, or a nil pointer
-- where it could not be made; otherwise the raft store, where it could be made.
abbrev pub chosen :
    ConfigurationSettings → Option Backend → Option RaftSetup → Option (Interface Service)
chosen s mysql raft =
    if not (str_eq s.backend_mysql_host [])
    then (elim mysql [ none ↦ some nil_pointer | some b ↦ some (holds (mysql_backend b)) ])
    else if not (str_eq s.raft_data_dir [])
    then (elim raft [ none ↦ none | some r ↦ some (holds (raft_store r)) ])
    else none

-- With a host of the MySQL backend, freno is served by that backend, or by a nil pointer where it
-- could not be made, whether or not there is a raft store. Without one it is served by the raft
-- store where its directory is set and it could be made, and otherwise there is no provider.
pub served-chosen :
    (s : ConfigurationSettings) (opens : RaftSetup → Bool) (db_ok : Bool) (hostname : Option Text)
    → served (new_consensus_service_provider s opens db_ok hostname)
      ≡ chosen s (new_mysql_backend s db_ok hostname) (setup_raft s opens)
unfolding new_consensus_service_provider get_consensus_service
served-chosen s opens db_ok hostname = elim (Option-cases (new_mysql_backend s db_ok hostname)) [
  | inl e ↦ elim (Option-cases (setup_raft s opens)) [
    | inl f ↦ ground (arith, e, f)
    | inr (r, f) ↦ ground (arith, e, f)
  ]
  | inr (b, e) ↦ elim (Option-cases (setup_raft s opens)) [
    | inl f ↦ ground (arith, e, f)
    | inr (r, f) ↦ ground (arith, e, f)
  ]
]

-- Usable settings give a service where the database opens, the machine has a name and raft opens.
IsUsable-served :
    (s : ConfigurationSettings) (opens : RaftSetup → Bool) (hostname : Text)
    → IsUsable s
    → ((store : RaftSetup) → opens store ≡ true)
    → (service : Service) × (served (new_consensus_service_provider s opens true (some hostname))
        ≡ some (holds service))
unfolding new_mysql_backend setup_raft
IsUsable-served s opens hostname u o = elim (Bool-cases (str_eq s.backend_mysql_host [])) [
  | inl e ↦ elim (Option-cases (setup_raft s opens)) [
    | inl f ↦ absurd (ground (arith, f, o (store_of s)))
    | inr (r, f) ↦ (
      raft_store r,
      served-chosen s opens true (some hostname)
          ∙ ground
              (arith, e, f, u, str_eq_iff s.raft_data_dir [], str_eq_iff s.backend_mysql_host []),
    )
  ]
  | inr e ↦ elim (Option-cases (new_mysql_backend s true (some hostname))) [
    | inl f ↦ absurd (ground (arith, e, f))
    | inr (b, f) ↦
        (mysql_backend b, served-chosen s opens true (some hostname) ∙ ground (arith, e, f))
  ]
]

module _ (fold : Text → Text) where
  -- After an attempt there is a leader, and the flag says whether it is the backend.
  attempt_leadership-read_leadership :
      (b : Backend) (now : ℕ) (table : ServiceElection)
      → (read_leadership fold b (attempt_leadership fold b now table)).0
        ≡ collates fold
            (read_leadership fold b (attempt_leadership fold b now table)).1
            b.service_id
  unfolding read_leadership
  attempt_leadership-read_leadership b now table = ground (
    arith,
    lookup-attempt_leadership fold b now table (fold b.domain),
    str_eq_iff (fold b.domain) (fold b.domain),
  )

  -- Right after a tick of elections whose statements succeed, the status of a service that is not
  -- forced to lead says that it leads exactly when the leader that it names is its own identity,
  -- and its state is that of a leader, or else of a healthy service.
  pub mysql_status-elections_tick :
      (b : Backend) (now : ℕ) (table : ServiceElection) (health : Dict Text HealthRow)
      (shared_ok healthy_ok : Bool)
      → let (b', table') = elections_tick fold true true now (b, table) in
        let status = mysql_status fold false shared_ok healthy_ok true b' now table' health in
        (status.status_is_leader ≡ collates fold status.leader b.service_id)
        × (status.state ≡ (if status.status_is_leader then codes "Leader" else codes "Healthy"))
  unfolding elections_tick mysql_status is_leader get_leader get_state_description read_leadership
  mysql_status-elections_tick b now table health shared_ok healthy_ok =
      (attempt_leadership-read_leadership b now table, ground arith)

-- Settings that are read without an error give a service that is not nil, whatever the flags override,
-- where the database opens, the machine has a name and every raft store opens.
pub load_configuration-served :
    {D : Type 0} (files : Text → File D)
    (decode : D → ConfigurationSettings → Option ConfigurationSettings) (getenv : Text → Text)
    (fuel : ℕ) (flags : Flags) (config_file : Text) (config : Configuration)
    (opens : RaftSetup → Bool) (hostname : Text)
    → (load_configuration files decode getenv fuel config_file config).1 ≡ completed
    → ((store : RaftSetup) → opens store ≡ true)
    → (service : Service) × (served (
          new_consensus_service_provider
            (override flags
              (load_configuration files decode getenv fuel config_file config).0.settings)
            opens
            true
            (some hostname))
        ≡ some (holds service))
load_configuration-served files decode getenv fuel flags config_file config opens hostname h o =
    let s =
      override flags (load_configuration files decode getenv fuel config_file config).0.settings in
    IsUsable-served s opens hostname
      (override-load_configuration files decode getenv fuel flags config_file config h) o
