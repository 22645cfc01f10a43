-- ===== src/Group/Operations.antt =====
-- pkg/group/mysql.go: continuousOperations, the ticks by which a service takes part in the election,
-- reports its health, and takes over the throttles. The state is that of one service, with the
-- tables as it finds them.
pub mod Laws
use freno.Prelude.{Bool, true, false, not, ◌&&◌, ◌||◌, if◌then◌else◌}
use freno.Go.Text.{Text, text_eq}
use freno.Go.Dict.{Dict}
use freno.Cache.Api.{CacheApi}
use freno.Group.Election.{
  Backend, ServiceElection, HealthRow, attempt_leadership, read_leadership, register_health,
}
use freno.Group.Backend.{Stored, Clock, read_throttled_apps, on_leader_state_change}

pub record Service ⦃c : CacheApi⦄ : Type 0 where
  pub backend : Backend
  pub stored : Stored
  pub election : ServiceElection
  pub health : Dict Text HealthRow

-- The three tickers. The flags say which statements reach the server.
pub data Tick : Type 0 where
  health_tick : Bool → Tick
  elections : Bool → Bool → Tick
  state_tick : Bool → Tick

-- The two Booleans are equal.
abbrev same : Bool → Bool → Bool
same true b = b
same false b = not b

module _ ⦃c : CacheApi⦄ (fold : Text → Text) where
  -- What the tick of elections makes of what it reads. A read that fails keeps the leadership.
  unfoldable pub note_leadership : Bool → Bool → Clock → Service → Service
  note_leadership false new_leader_state clock s = record s {
    backend = record s.backend { health_state = false };
  }
  note_leadership true new_leader_state clock s =
      if same new_leader_state s.backend.leader_state
      then record s { backend = record s.backend { health_state = true } }
      else record s {
        backend = record s.backend { health_state = true; leader_state = new_leader_state };
        stored = on_leader_state_change s.stored clock new_leader_state;
      }

  unfoldable pub tick : Service → Clock → Tick → Service
  unfolding note_leadership
  tick s clock (health_tick ok) =
      if ok then record s { health = register_health fold s.backend clock.db_now s.health } else s
  tick s clock (elections attempt_ok read_ok) =
      let election =
        if attempt_ok
        then attempt_leadership fold s.backend clock.db_now s.election
        else s.election in
      note_leadership read_ok (read_leadership fold s.backend election).0 clock
        (record s { election = election })
  tick s clock (state_tick ok) =
      if ok
      then record s {
        stored = record s.stored {
          throttler = read_throttled_apps clock s.stored.throttled_rows s.stored.throttler;
        };
      }
      else s
