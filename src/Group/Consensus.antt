-- ===== src/Group/Consensus.antt =====
-- pkg/group/consensus.go: the choice between the two consensus services; with the construction of
-- the MySQL backend (mysql.go), of the raft store (raft.go, store.go), and the status that both
-- report (consensus_service.go). The database, the name of the machine and the raft library are
-- arguments.
pub mod Laws
use freno.Prelude.{
  ℕ, Bool, true, false, not, ◌&&◌, Option, none, some, List, [], ◌∷◌, ◌++◌, if◌then◌else◌, length,
  leb, ◌==◌, map, ltb,
}
use freno.Go.Text.{Text, codes, str_eq, trim_space}
use freno.Go.Int.{ℤ}
use freno.Go.Decimal.{itoa}
use freno.Go.Dict.{Dict}
use freno.Config.Read.{ConfigurationSettings}
use freno.Group.Election.{
  Backend, ServiceElection, HealthRow, is_leader, read_leadership, get_state_description,
  get_shared_domain_services, get_healthy_domain_services,
}
use freno.Group.Fsm.{normalize_raft_node}

-- What a variable of an interface type holds: nothing, a pointer that is nil, or a service. Only
-- the first is equal to nil.
pub data Interface (A : Type 0) : Type 0 where
  nil_interface nil_pointer : Interface A
  holds : A → Interface A

-- The conversion of a pointer to the interface; `none` is the pointer nil.
abbrev of_pointer : {A : Type 0} → Option A → Interface A
of_pointer none = nil_pointer
of_pointer (some a) = holds a

pub record ConsensusServiceProvider (A : Type 0) : Type 0 where
  pub mysql_consensus_service : Interface A
  pub raft_consensus_service : Interface A

unfoldable pub backend_domain : ConfigurationSettings → Text
backend_domain s = if str_eq s.domain [] then s.data_center ++ (b':' ∷ s.environment) else s.domain

-- NewMySQLBackend. The database opens or not, and the machine has a name or os.Hostname fails. The
-- pointer is nil with an error and without one.
unfoldable pub new_mysql_backend : ConfigurationSettings → Bool → Option Text → Option Backend
unfolding backend_domain
new_mysql_backend s db_ok hostname =
    if str_eq s.backend_mysql_host [] then none else if not db_ok then none else elim hostname [
      | none ↦ none
      | some name ↦ some (record {
        domain = backend_domain s;
        share_domain = s.share_domain;
        service_id = name ++ (b':' ∷ itoa s.listen_port);
        leader_state = false;
        health_state = false;
      })
    ]

unfoldable pub get_backend_db_uri : ConfigurationSettings → Text
get_backend_db_uri s =
    let charset =
      if not (str_eq s.backend_mysql_collation [])
      then codes "collation=" ++ s.backend_mysql_collation
      else codes "charset=utf8mb4,utf8,latin1" in
    s.backend_mysql_user
    ++ (b':' ∷ s.backend_mysql_password
        ++ (codes "@tcp("
            ++ (s.backend_mysql_host
                ++ (b':' ∷ itoa s.backend_mysql_port
                    ++ (codes ")/"
                        ++ (s.backend_mysql_schema
                            ++ (codes "?interpolateParams=true&"
                                ++ (charset ++ codes "&timeout=500ms"))))))))

-- Store.Open up to the instantiation of raft: the peers, and whether the node may elect itself.
-- `add_unique_peer` is the library's AddUniquePeer.
module _ (add_unique_peer : List Text → Text → List Text) where
  unfoldable pub peers_of : List Text → List Text → List Text
  peers_of [] peers = peers
  peers_of (peer_node ∷ peer_nodes) peers =
      peers_of peer_nodes (add_unique_peer peers (trim_space peer_node))

  unfoldable pub enables_single_node : List Text → Bool
  unfolding peers_of
  enables_single_node peer_nodes = length peer_nodes == 0 && leb (length (peers_of peer_nodes [])) 1

-- What SetupRaft gives the raft store: its address, and the nodes.
pub record RaftSetup : Type 0 where
  pub raft_dir : Text
  pub raft_bind : Text
  pub peer_nodes : List Text

unfoldable pub store_of : ConfigurationSettings → RaftSetup
store_of s = record {
  raft_dir = s.raft_data_dir;
  raft_bind = normalize_raft_node s.default_raft_port s.raft_bind;
  peer_nodes = map (normalize_raft_node s.default_raft_port) s.raft_nodes;
}

-- `none` on an error of Open, whose answer is an argument.
unfoldable pub setup_raft : ConfigurationSettings → (RaftSetup → Bool) → Option RaftSetup
setup_raft s opens = if opens (store_of s) then some (store_of s) else none

-- Either service, with the type of its implementation forgotten.
pub data Service : Type 0 where
  mysql_backend : Backend → Service
  raft_store : RaftSetup → Service

abbrev as_service : {A : Type 0} → (A → Service) → Option A → Option Service
as_service f none = none
as_service f (some a) = some (f a)

-- A nil interface is equal to nil, a nil pointer in an interface is not.
abbrev pub is_nil : {A : Type 0} → Interface A → Bool
is_nil nil_interface = true
is_nil nil_pointer = false
is_nil (holds a) = false

-- SetupRaft returns the interface, and nil with an error.
abbrev of_result : {A : Type 0} → Option A → Interface A
of_result none = nil_interface
of_result (some a) = holds a

-- NewConsensusServiceProvider, `none` on its error. Errors of the constructors are only logged.
unfoldable pub new_consensus_service_provider :
    ConfigurationSettings
    → (RaftSetup → Bool)
    → Bool
    → Option Text
    → Option (ConsensusServiceProvider Service)
unfolding new_mysql_backend setup_raft
new_consensus_service_provider s opens db_ok hostname =
    let raft =
      if not (str_eq s.raft_data_dir [])
      then of_result (as_service raft_store (setup_raft s opens))
      else nil_interface in
    let mysql =
      if not (str_eq s.backend_mysql_host [])
      then of_pointer (as_service mysql_backend (new_mysql_backend s db_ok hostname))
      else nil_interface in
    if is_nil raft && is_nil mysql
    then none
    else some (record { mysql_consensus_service = mysql; raft_consensus_service = raft })

unfoldable pub get_consensus_service : {A : Type 0} → ConsensusServiceProvider A → Interface A
get_consensus_service p =
    if not (is_nil p.mysql_consensus_service)
    then p.mysql_consensus_service
    else if not (is_nil p.raft_consensus_service)
    then p.raft_consensus_service
    else nil_interface

pub record ConsensusServiceStatus : Type 0 where
  pub service_id : Text
  pub healthy : Bool
  pub status_is_leader : Bool
  pub leader : Text
  pub state : Text
  pub domain : Text
  pub share_domain : Text
  pub share_domain_services : Dict Text Text
  pub share_domain_services_list : List Text
  pub healthy_domain_services_list : List Text

-- The states of raft that the store tells apart; the last comes with its text.
pub data RaftState : Type 0 where
  raft_leader raft_follower : RaftState
  raft_other : Text → RaftState

unfoldable pub raft_is_healthy : RaftState → Bool
raft_is_healthy raft_leader = true
raft_is_healthy raft_follower = true
raft_is_healthy (raft_other text) = false

unfoldable pub raft_is_leader : Bool → RaftState → Bool
raft_is_leader forced state =
    if forced
    then true
    else elim state [ raft_leader ↦ true | raft_follower ↦ false | raft_other text ↦ false ]

-- RaftState.String of the library.
module _ (description : RaftState → Text) where
  unfoldable pub raft_status : Bool → RaftSetup → RaftState → Text → ConsensusServiceStatus
  unfolding raft_is_healthy raft_is_leader
  raft_status forced store state leader = record {
    service_id = store.raft_bind;
    healthy = raft_is_healthy state;
    status_is_leader = raft_is_leader forced state;
    leader = leader;
    state = description state;
    domain = [];
    share_domain = [];
    share_domain_services = [];
    share_domain_services_list = [];
    healthy_domain_services_list = [];
  }

-- The flags say which of the three reads reaches the server; a read that fails leaves the zero value.
module _ (fold : Text → Text) where
  unfoldable pub get_leader : Bool → Backend → ServiceElection → Text
  get_leader read_ok b table = if read_ok then (read_leadership fold b table).1 else []

  unfoldable pub mysql_status :
      Bool
      → Bool
      → Bool
      → Bool
      → Backend
      → ℕ
      → ServiceElection
      → Dict Text HealthRow
      → ConsensusServiceStatus
  unfolding get_leader
  mysql_status forced shared_ok healthy_ok read_ok b now table health =
      let services = if shared_ok then get_shared_domain_services fold b now table else [] in
      record {
        service_id = b.service_id;
        healthy = b.health_state;
        status_is_leader = is_leader forced b;
        leader = get_leader read_ok b table;
        state = get_state_description b;
        domain = b.domain;
        share_domain = b.share_domain;
        share_domain_services = services;
        share_domain_services_list = b.service_id ∷ map (λ service. service.1) services;
        healthy_domain_services_list =
            if healthy_ok then get_healthy_domain_services fold b now health else [];
      }
