-- ===== src/Group/Monitor.antt =====
-- pkg/group: the gauges that Monitor sets at each tick, in consensus.go, mysql.go and store.go. A
-- gauge that is not there is registered. The logs are left out.
use freno.Prelude.{ℕ, Bool, if◌then◌else◌}
use freno.Go.Text.{Text, codes, text_eq}
use freno.Go.Dict.{Dict, insert}
use freno.Group.Election.{Backend}
use freno.Group.Consensus.{RaftState, raft_leader, raft_follower, raft_other, raft_is_healthy}

unfoldable pub bool_to_int64 : Bool → ℕ
bool_to_int64 b = if b then 1 else 0

-- The numeric metrics, and the text that expvar publishes as raft.leader.
pub record Published : Type 0 where
  pub gauges : Dict Text ℕ
  pub raft_leader_var : Text

-- A tick of ConsensusServiceProvider.Monitor: what the service that is chosen answers.
unfoldable pub monitor_consensus : Bool → Bool → Published → Published
unfolding bool_to_int64
monitor_consensus is_leader is_healthy p = record p {
  gauges =
      insert (codes "consensus.is_healthy") (bool_to_int64 is_healthy)
        (insert (codes "consensus.is_leader") (bool_to_int64 is_leader) p.gauges);
}

-- A tick of MySQLBackend.Monitor, which reports the flags even of a service that is forced to lead.
unfoldable pub monitor_backend : Backend → Published → Published
unfolding bool_to_int64
monitor_backend b p = record p {
  gauges =
      insert (codes "backend.mysql.is_healthy") (bool_to_int64 b.health_state)
        (insert (codes "backend.mysql.is_leader") (bool_to_int64 b.leader_state) p.gauges);
}

state_gauge : RaftState → ℕ
state_gauge raft_leader = 1
state_gauge raft_follower = 0
state_gauge (raft_other text) = 0

-- A tick of Store.Monitor.
unfoldable pub monitor_store : RaftState → Text → Published → Published
unfolding bool_to_int64 state_gauge
monitor_store state leader_hint p = record {
  gauges =
      insert (codes "raft.is_healthy") (bool_to_int64 (raft_is_healthy state))
        (insert (codes "raft.is_leader") (state_gauge state) p.gauges);
  raft_leader_var = leader_hint;
}
