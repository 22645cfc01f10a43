-- ===== src/Group/Election/System.antt =====
-- pkg/group/mysql.go, continuousOperations: many services over one table of the election. Each
-- service attempts and then reads, and the statements of all services interleave in any order.
-- Reelect and ForceLeadership are called by no code.
pub mod Invariant
pub mod Exclusion
use freno.Prelude.{ℕ, ◌+◌, ◌≤◌, ◌≡◌, Bool, true, false, Option, none, some, ◌==◌, if◌then◌else◌}
use freno.Go.Text.{Text}
use freno.Group.Election.{
  Backend, ServiceElection, attempt_leadership, read_leadership, read_election,
}

-- Where a service stands in its loop. Its next statement is the read once it has attempted, and
-- the time is that of an attempt that reached the server.
pub data Stage : Type 0 where
  waiting : Stage
  attempted : Option ℕ → Stage

-- A service. `renewed` is the time of the last attempt that reached the server and whose tick then
-- read the leadership, 0 before the first. The code does not keep it.
pub record Member : Type 0 where
  pub backend : Backend
  pub stage : Stage
  pub renewed : ℕ

-- The clock is the server's.
pub record System : Type 0 where
  pub now : ℕ
  pub table : ServiceElection
  pub members : ℕ → Member

abbrev pub update : {A : Type 0} → (ℕ → A) → ℕ → A → ℕ → A
update f i a j = if i == j then a else f j

-- The process of a service: NewMySQLBackend leaves the flags down.
abbrev pub new_member : Backend → Member
new_member b = record {
  backend = record b { leader_state = false; health_state = false };
  stage = waiting;
  renewed = 0;
}

unfoldable pub renewal : Bool → Stage → ℕ → ℕ
renewal false stage renewed = renewed
renewal true waiting renewed = renewed
renewal true (attempted none) renewed = renewed
renewal true (attempted (some time)) renewed = time

module _ (fold : Text → Text) where
  unfoldable pub attempt : Bool → ℕ → System → System
  attempt reached i s =
      let m = s.members i in
      if reached
      then record s {
        table = attempt_leadership fold m.backend s.now s.table;
        members = update s.members i (record m { stage = attempted (some s.now) });
      }
      else record s { members = update s.members i (record m { stage = attempted none }) }

  unfoldable pub read_member : Bool → ServiceElection → Member → Member
  read_member ok table m = record {
    backend = read_election fold ok m.backend table;
    stage = waiting;
    renewed = renewal ok m.stage m.renewed;
  }

  unfoldable pub read : Bool → ℕ → System → System
  read ok i s = record s { members = update s.members i (read_member ok s.table (s.members i)) }

  -- What can happen next: time passes, a service attempts or reads, or its process starts again.
  pub data Step : System → System → Type 0 where
    passes : (later : ℕ) (s : System) → s.now ≤ later → Step s (record s { now = later })
    attempts :
        (i : ℕ) (reached : Bool) (s : System)
        → (s.members i).stage ≡ waiting
        → Step s (attempt reached i s)
    reads :
        (i : ℕ) (ok : Bool) (time : Option ℕ) (s : System)
        → (s.members i).stage ≡ attempted time
        → Step s (read ok i s)
    starts :
        (i : ℕ) (b : Backend) (s : System)
        → Step s (record s { members = update s.members i (new_member b) })

  -- The states that are reached from new services and whatever the table holds.
  pub data Reached : System → Type 0 where
    begin :
        (now : ℕ) (table : ServiceElection) (backends : ℕ → Backend)
        → Reached (record { now = now; table = table; members = λ i. new_member (backends i) })
    stepped : {s t : System} → Reached s → Step s t → Reached t
