-- ===== src/Group/Service.antt =====
-- pkg/group/consensus_service.go: the interface of a consensus service, as far as it changes the
-- throttler, and the two services that fill it: the MySQL backend of mysql.go, and the raft store of
-- store.go on the node that leads.
pub mod Laws
use freno.Prelude.{
  ℕ, ◌≡◌, refl, ◌∙◌, Bool, true, false, not, ◌&&◌, ◌||◌, Option, none, some, List, [], ◌∷◌,
  if◌then◌else◌, arith, Option-cases, Bool-cases, inl, inr,
}
use freno.Go.Text.{Text, codes, str_eq}
use freno.Go.Utf8.{coerce, coerce_from}
use freno.Go.Int.{ℤ, pos}
use freno.Go.Float.{Float}
use freno.Go.Time.{Time}
use freno.Cache.Api.{CacheApi}
use freno.Throttle.State.{Throttler}
use freno.Throttle.Run.{Op, throttle, unthrottle, sweep_apps, skip, recover, sweep_hosts, perform}
use freno.Group.Backend.{Stored, Clock}
use freno.Group.Backend
use freno.Group.Fsm.{
  Command, CommandError, generic_command, throttle_command, unthrottle_command, skip_command,
  recover_command, json_command, apply,
}

-- `Outside` is what the world answers to a request. An operation answers whether it has no error,
-- and one without an error has changed the throttler, at the name that the service makes of the
-- one asked for.
pub record ConsensusService ⦃c : CacheApi⦄ : Type 1 where
  pub State : Type 0
  pub Outside : Type 0
  pub throttler_of : State → Throttler
  pub name_of : Text → Text
  pub throttle_app : State → Clock → Outside → Text → ℤ → Time → Float → State × Bool
  pub unthrottle_app : State → Clock → Outside → Text → State × Bool
  pub skip_host : State → Clock → Outside → Text → ℤ → Time → State × Bool
  pub recover_host : State → Clock → Outside → Text → State × Bool
  pub throttle_app_ok :
      (s : State) (clock : Clock) (o : Outside) (app_name : Text) (ttl : ℤ) (expire_at : Time)
      (ratio : Float)
      → (throttle_app s clock o app_name ttl expire_at ratio).1 ≡ true
      → throttler_of (throttle_app s clock o app_name ttl expire_at ratio).0
        ≡ perform (throttler_of s) clock.now (throttle (name_of app_name) expire_at ratio)
  pub unthrottle_app_ok :
      (s : State) (clock : Clock) (o : Outside) (app_name : Text)
      → (unthrottle_app s clock o app_name).1 ≡ true
      → throttler_of (unthrottle_app s clock o app_name).0
        ≡ perform (throttler_of s) clock.now (unthrottle (name_of app_name))
  pub skip_host_ok :
      (s : State) (clock : Clock) (o : Outside) (host_name : Text) (ttl : ℤ) (expire_at : Time)
      → (skip_host s clock o host_name ttl expire_at).1 ≡ true
      → throttler_of (skip_host s clock o host_name ttl expire_at).0
        ≡ perform (throttler_of s) clock.now (skip (name_of host_name) expire_at)
  pub recover_host_ok :
      (s : State) (clock : Clock) (o : Outside) (host_name : Text)
      → (recover_host s clock o host_name).1 ≡ true
      → throttler_of (recover_host s clock o host_name).0
        ≡ perform (throttler_of s) clock.now (recover (name_of host_name))

-- What raft answers: whether the node leads, and the error of Apply, with which the command may be
-- applied or not. Apply answers without an error when the node's state machine has the command.
pub record Submission : Type 0 where
  pub leads : Bool
  pub apply_error : Option Text
  pub applied_late : Bool

abbrev succeeded : Option CommandError → Bool
succeeded none = true
succeeded (some e) = false

-- The state machine that a submission leaves.
abbrev reaches : Submission → Bool
reaches o = o.leads && (elim o.apply_error [ none ↦ true | some e ↦ o.applied_late ])

module _ ⦃c : CacheApi⦄ where
  -- A command on its way through the store to the state machine of the node.
  unfoldable pub raft_command : Throttler → Clock → Submission → Command → Throttler × Bool
  raft_command t clock o command = (
    if reaches o then (apply t clock.now (json_command command)).0 else t,
    succeeded (generic_command o.leads (λ submitted. o.apply_error) command),
  )

  raft_command_ok :
      (t : Throttler) (clock : Clock) (o : Submission) (command : Command)
      → (raft_command t clock o command).1 ≡ true
      → (raft_command t clock o command).0 ≡ (apply t clock.now (json_command command)).0
  unfolding raft_command generic_command
  raft_command_ok t clock o command h = ground (arith, h)

  pub throttle_ok :
      (s : Stored) (clock : Clock) (db_ok : Bool) (app_name : Text) (ttl : ℤ) (expire_at : Time)
      (ratio : Float)
      → (Backend.throttle s clock db_ok app_name ttl expire_at ratio).0.throttler
        ≡ perform s.throttler clock.now (throttle app_name expire_at ratio)
  unfolding Backend.throttle perform
  throttle_ok s clock db_ok app_name ttl expire_at ratio = refl

  pub unthrottle_ok :
      (s : Stored) (clock : Clock) (db_ok : Bool) (app_name : Text)
      → (Backend.unthrottle s clock db_ok app_name).0.throttler
        ≡ perform s.throttler clock.now (unthrottle app_name)
  unfolding Backend.unthrottle perform
  unthrottle_ok s clock db_ok app_name = refl

  pub skip_ok :
      (s : Stored) (clock : Clock) (db_ok : Bool) (host_name : Text) (ttl : ℤ) (expire_at : Time)
      → (Backend.skip s clock db_ok host_name ttl expire_at).0.throttler
        ≡ perform s.throttler clock.now (skip host_name expire_at)
  unfolding Backend.skip perform
  skip_ok s clock db_ok host_name ttl expire_at = refl

  pub recover_ok :
      (s : Stored) (clock : Clock) (db_ok : Bool) (host_name : Text)
      → (Backend.recover s clock db_ok host_name).0.throttler
        ≡ perform s.throttler clock.now (recover host_name)
  unfolding Backend.recover perform
  recover_ok s clock db_ok host_name = refl

  -- The command of each operation.
  abbrev pub command_of : Op → Option Command
  command_of (throttle app_name expire_at ratio) = some (throttle_command app_name expire_at ratio)
  command_of (unthrottle app_name) = some (unthrottle_command app_name)
  command_of (skip host_name expire_at) = some (skip_command host_name expire_at)
  command_of (recover host_name) = some (recover_command host_name)
  command_of _ = none

  -- The operation that the state machine finds in the command.
  abbrev pub received : Op → Op
  received (throttle app_name expire_at ratio) = throttle (coerce app_name) expire_at ratio
  received (unthrottle app_name) = unthrottle (coerce app_name)
  received (skip host_name expire_at) = skip (coerce host_name) expire_at
  received (recover host_name) = recover (coerce host_name)
  received op = op

  apply-command_of :
      (t : Throttler) (now : Time) (op : Op) (command : Command)
      → command_of op ≡ some command
      → (apply t now command).0 ≡ perform t now op
  unfolding apply perform str_eq
  apply-command_of t now (throttle app_name expire_at ratio) command h = ground (arith, h)
  apply-command_of t now (unthrottle app_name) command h = ground (arith, h)
  apply-command_of t now (skip host_name expire_at) command h = ground (arith, h)
  apply-command_of t now (recover host_name) command h = ground (arith, h)
  apply-command_of t now sweep_apps command h = ground (arith, h)
  apply-command_of t now sweep_hosts command h = ground (arith, h)

  -- The words of the operations are UTF-8.
  command_of-received :
      (op : Op) (command : Command)
      → command_of op ≡ some command
      → command_of (received op) ≡ some (json_command command)
  unfolding json_command coerce coerce_from
  command_of-received (throttle app_name expire_at ratio) command h = ground (arith, h)
  command_of-received (unthrottle app_name) command h = ground (arith, h)
  command_of-received (skip host_name expire_at) command h = ground (arith, h)
  command_of-received (recover host_name) command h = ground (arith, h)
  command_of-received sweep_apps command h = ground (arith, h)
  command_of-received sweep_hosts command h = ground (arith, h)

  pub raft_ok :
      (t : Throttler) (clock : Clock) (o : Submission) (op : Op) (command : Command)
      → command_of op ≡ some command
      → (raft_command t clock o command).1 ≡ true
      → (raft_command t clock o command).0 ≡ perform t clock.now (received op)
  raft_ok t clock o op command e h =
      raft_command_ok t clock o command h
      ∙ apply-command_of t clock.now (received op) (json_command command)
          (command_of-received op command e)

  -- The MySQL backend. The statement reaches the server or not.
  abbrev pub mysql_service : ConsensusService
  mysql_service = record {
    State = Stored;
    Outside = Bool;
    throttler_of = λ s. s.throttler;
    name_of = λ name. name;
    throttle_app = λ s clock db_ok app_name ttl expire_at ratio.
        Backend.throttle s clock db_ok app_name ttl expire_at ratio;
    unthrottle_app = λ s clock db_ok app_name. Backend.unthrottle s clock db_ok app_name;
    skip_host =
        λ s clock db_ok host_name ttl expire_at. Backend.skip s clock db_ok host_name ttl expire_at;
    recover_host = λ s clock db_ok host_name. Backend.recover s clock db_ok host_name;
    throttle_app_ok = λ s clock o app_name ttl expire_at ratio h.
        throttle_ok s clock o app_name ttl expire_at ratio;
    unthrottle_app_ok = λ s clock o app_name h. unthrottle_ok s clock o app_name;
    skip_host_ok = λ s clock o host_name ttl expire_at h. skip_ok s clock o host_name ttl expire_at;
    recover_host_ok = λ s clock o host_name h. recover_ok s clock o host_name;
  }

  -- The raft store. It does not pass the minutes on, and the name goes through JSON.
  abbrev pub raft_service : ConsensusService
  raft_service = record {
    State = Throttler;
    Outside = Submission;
    throttler_of = λ t. t;
    name_of = coerce;
    throttle_app = λ t clock o app_name ttl expire_at ratio.
        raft_command t clock o (throttle_command app_name expire_at ratio);
    unthrottle_app = λ t clock o app_name. raft_command t clock o (unthrottle_command app_name);
    skip_host = λ t clock o host_name ttl expire_at.
        raft_command t clock o (skip_command host_name expire_at);
    recover_host = λ t clock o host_name. raft_command t clock o (recover_command host_name);
    throttle_app_ok = λ t clock o app_name ttl expire_at ratio h.
        raft_ok t clock o (throttle app_name expire_at ratio)
          (throttle_command app_name expire_at ratio) refl h;
    unthrottle_app_ok = λ t clock o app_name h.
        raft_ok t clock o (unthrottle app_name) (unthrottle_command app_name) refl h;
    skip_host_ok = λ t clock o host_name ttl expire_at h.
        raft_ok t clock o (skip host_name expire_at) (skip_command host_name expire_at) refl h;
    recover_host_ok = λ t clock o host_name h.
        raft_ok t clock o (recover host_name) (recover_command host_name) refl h;
  }
