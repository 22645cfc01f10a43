-- ===== src/Group/Election.antt =====
-- pkg/group/mysql.go: the tables service_election and service_health, the statements that the
-- backend runs on them, and the ticks of continuousOperations. A table is a map from its primary
-- key. Times are the seconds of MySQL's now(). The collation of the columns, which the schema
-- leaves to the server, is a parameter: texts are equal for MySQL when `fold` makes them equal.
-- A statement that fails changes nothing.
pub mod Laws
pub mod Failover
pub mod System
use freno.Prelude.{
  ℕ, ◌+◌, Bool, true, false, not, ◌&&◌, Option, none, some, List, [], ◌∷◌, ◌++◌, if◌then◌else◌, ltb,
  leb, ◌==◌,
}
use freno.Go.Text.{Text, codes, str_eq, text_eq}
use freno.Go.Dict.{Dict, lookup, insert, erase}

abbrev pub election_expire_seconds : ℕ
election_expire_seconds = 5

pub record ElectionRow : Type 0 where
  pub row_domain : Text
  pub row_share_domain : Text
  pub row_service_id : Text
  pub last_seen_active : ℕ

pub record HealthRow : Type 0 where
  pub health_domain : Text
  pub health_share_domain : Text
  pub health_last_seen : ℕ

-- The fields of MySQLBackend that the election uses.
pub record Backend : Type 0 where
  pub domain : Text
  pub share_domain : Text
  pub service_id : Text
  pub leader_state : Bool
  pub health_state : Bool

abbrev pub ServiceElection : Type 0
ServiceElection = Dict Text ElectionRow

-- What ReadLeadership answers: the flag and the name of the leader, which is empty without one.
abbrev pub Leadership : Type 0
Leadership = Bool × Text

module _ (fold : Text → Text) where
  abbrev pub collates : Text → Text → Bool
  collates s t = str_eq (fold s) (fold t)

  -- The assignments of `on duplicate key update`, in their order: the later ones read the new
  -- service_id. `now() - interval ? second` is compared without the subtraction.
  unfoldable pub contend : Backend → ℕ → ElectionRow → ElectionRow
  contend b now row =
      let holder =
        if ltb (row.last_seen_active + election_expire_seconds) now
        then b.service_id
        else row.row_service_id in
      record {
        row_domain = row.row_domain;
        row_share_domain =
            if collates holder b.service_id then b.share_domain else row.row_share_domain;
        row_service_id = holder;
        last_seen_active = if collates holder b.service_id then now else row.last_seen_active;
      }

  unfoldable pub attempt_leadership : Backend → ℕ → ServiceElection → ServiceElection
  unfolding contend
  attempt_leadership b now table = elim (lookup (fold b.domain) table) [
    | none ↦
        insert (fold b.domain)
          (record {
            row_domain = b.domain;
            row_share_domain = b.share_domain;
            row_service_id = b.service_id;
            last_seen_active = now;
          })
          table
    | some row ↦ insert (fold b.domain) (contend b now row) table
  ]

  -- The statement names no share_domain, which has no default: the server's mode decides whether it
  -- is refused, and `strict` says so.
  unfoldable pub force_leadership : Bool → Backend → ℕ → ServiceElection → ServiceElection
  force_leadership strict b now table =
      if strict
      then table
      else insert (fold b.domain)
          (record {
            row_domain = b.domain;
            row_share_domain = [];
            row_service_id = b.service_id;
            last_seen_active = now;
          })
          table

  unfoldable pub reelect : Backend → ServiceElection → ServiceElection
  reelect b table = erase (fold b.domain) table

  -- The domain is the primary key, so the maximum is over at most one row.
  unfoldable pub read_leadership : Backend → ServiceElection → Leadership
  read_leadership b table = elim (lookup (fold b.domain) table) [
    | none ↦ (false, [])
    | some row ↦ (collates row.row_service_id b.service_id, row.row_service_id)
  ]

  shared_services : Backend → ℕ → ServiceElection → Dict Text Text
  shared_services b now [] = []
  shared_services b now ((key, row) ∷ table) =
      let rest = shared_services b now table in
      if collates row.row_share_domain b.share_domain
        && (leb now (row.last_seen_active + election_expire_seconds)
            && not (collates row.row_service_id b.service_id))
      then insert row.row_domain row.row_service_id rest
      else rest

  unfoldable pub get_shared_domain_services : Backend → ℕ → ServiceElection → Dict Text Text
  unfolding shared_services
  get_shared_domain_services b now table =
      if str_eq b.share_domain [] then [] else shared_services b now table

  unfoldable pub register_health : Backend → ℕ → Dict Text HealthRow → Dict Text HealthRow
  register_health b now table =
      insert (fold b.service_id)
        (record {
          health_domain = b.domain;
          health_share_domain = b.share_domain;
          health_last_seen = now;
        })
        table

  -- The rows are listed by their key, the service's identity.
  unfoldable pub get_healthy_domain_services : Backend → ℕ → Dict Text HealthRow → List Text
  get_healthy_domain_services b now [] = []
  get_healthy_domain_services b now ((service_id, row) ∷ table) =
      let rest = get_healthy_domain_services b now table in
      if collates row.health_domain b.domain
        && leb now (row.health_last_seen + election_expire_seconds)
      then service_id ∷ rest
      else rest

  -- What the tick of elections makes of its read. A read that fails keeps the leadership. What
  -- onLeaderStateChange reads into the throttler is not part of this state.
  unfoldable pub read_election : Bool → Backend → ServiceElection → Backend
  read_election false b table = record b { health_state = false }
  read_election true b table = record b {
    health_state = true;
    leader_state = (read_leadership b table).0;
  }

  -- The tick of elections, with nothing between its statements: the answers say whether each
  -- statement reached the server.
  unfoldable pub elections_tick :
      Bool → Bool → ℕ → Backend × ServiceElection → Backend × ServiceElection
  unfolding read_election
  elections_tick attempt_ok read_ok now (b, table) =
      let table' = if attempt_ok then attempt_leadership b now table else table in
      (read_election read_ok b table', table')

-- `forced` is the variable ForceLeadership, which the command line sets.
unfoldable pub is_leader : Bool → Backend → Bool
is_leader forced b = if forced then true else b.leader_state

unfoldable pub get_state_description : Backend → Text
get_state_description b =
    if b.leader_state
    then codes "Leader"
    else if b.health_state
    then codes "Healthy"
    else codes "Unhealthy"
