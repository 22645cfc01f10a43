-- ===== src/Group/Store.antt =====
-- pkg/group/store.go: the construction of the raft store, its opening, and Join. The functions of
-- the raft and bolt libraries and of the package net are arguments, each with the error that it
-- answers, and so are their types.
use freno.Prelude.{Bool, true, false, Option, none, some, List, [], if◌then◌else◌}
use freno.Go.Text.{Text, codes}
use freno.Config.Read.{ConfigurationSettings}
use freno.Group.Consensus.{RaftSetup, setup_raft, peers_of, enables_single_node}

-- The errors of Open: the first three are those of the calls, the others have a text in front.
pub data OpenError : Type 0 where
  resolve_error transport_error set_peers_error : Text → OpenError
  snapshot_store_error bolt_store_error new_raft_error : Text → OpenError

-- A result, or the text of an error.
pub data Answer (A : Type 0) : Type 0 where
  answered : A → Answer A
  refused : Text → Answer A

pub data OpenResult (A : Type 0) : Type 0 where
  store_opened : A → OpenResult A
  store_failed : OpenError → OpenResult A

and_then : {A B : Type 0} → Answer A → (Text → OpenError) → (A → OpenResult B) → OpenResult B
and_then (answered a) error next = next a
and_then (refused e) error next = store_failed (error e)

-- The fields of raft.Config that Open may change.
pub record RaftConfig : Type 0 where
  pub enable_single_node : Bool
  pub disable_bootstrap_after_elect : Bool

abbrev raft_db_file : Text
raft_db_file = codes "freno-raft.db"

module _ (Addr Transport Peers Snapshots Log Raft : Type 0) where
  -- What Open calls.
  pub record Library : Type 0 where
    pub default_config : RaftConfig
    pub resolve_tcp_addr : Text → Answer Addr
    pub new_tcp_transport : Text → Addr → Answer Transport
    pub add_unique_peer : List Text → Text → List Text
    pub set_peers : List Text → Answer Peers
    pub new_file_snapshot_store : Text → Answer Snapshots
    pub join_path : Text → Text → Text
    pub new_bolt_store : Text → Answer Log
    pub new_raft : RaftConfig → Log → Snapshots → Peers → Transport → Answer Raft

  unfoldable pub config_of : Library → List Text → RaftConfig
  config_of l peer_nodes =
      if enables_single_node l.add_unique_peer peer_nodes
      then record { enable_single_node = true; disable_bootstrap_after_elect = false }
      else l.default_config

  unfoldable pub open_store : Library → RaftSetup → OpenResult Raft
  unfolding and_then config_of
  open_store l s = and_then (l.resolve_tcp_addr s.raft_bind) resolve_error (λ addr.
      and_then (l.new_tcp_transport s.raft_bind addr) transport_error (λ transport.
        and_then (l.set_peers (peers_of l.add_unique_peer s.peer_nodes [])) set_peers_error
          (λ peers.
            and_then (l.new_file_snapshot_store s.raft_dir) snapshot_store_error (λ snapshots.
              and_then (l.new_bolt_store (l.join_path s.raft_dir raft_db_file)) bolt_store_error
                (λ log.
                  and_then (l.new_raft (config_of l s.peer_nodes) log snapshots peers transport)
                    new_raft_error store_opened)))))

  -- SetupRaft with the library: the store of the settings, where it opens.
  unfoldable pub opens : Library → RaftSetup → Bool
  unfolding open_store
  opens l s = elim (open_store l s) [ store_opened r ↦ true | store_failed e ↦ false ]

  unfoldable pub setup_store : Library → ConfigurationSettings → Option RaftSetup
  setup_store l s = setup_raft s (opens l)

-- Join, where `add_peer` is the error of the library's AddPeer.
unfoldable pub join : (Text → Option Text) → Text → Option Text
join add_peer addr = elim (add_peer addr) [ none ↦ none | some e ↦ some e ]
