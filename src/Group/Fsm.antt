-- ===== src/Group/Fsm.antt =====
-- pkg/group/fsm.go, and the commands of store.go and raft.go. A command goes through JSON on its
-- way to the state machine, which changes the strings that are not UTF-8; times and ratios come back
-- as they were. The raft library is a parameter: `submit` is what its Apply answers, and its log is
-- the list of the commands that reach the state machine.
pub mod Laws
pub mod Restore
use freno.Prelude.{
  ℕ, ◌+◌, Bool, true, false, not, ◌&&◌, Option, none, some, List, [], ◌∷◌, ◌++◌, if◌then◌else◌,
  ◌==◌,
}
use freno.Go.Text.{Text, codes, str_eq, has_byte, text_eq}
use freno.Go.Utf8.{coerce}
use freno.Go.Int.{ℤ, pos, eqb_ℤ}
use freno.Go.Decimal.{itoa}
use freno.Go.Float.{Float, float_zero}
use freno.Go.Dict.{Dict}
use freno.Go.Time.{Time, time_zero}
use freno.Base.Metric.{AppThrottle}
use freno.Cache.Api.{CacheApi}
use freno.Throttle.State.{Throttler}
use freno.Group.Snapshot.{
  SnapshotData, FieldNames, Document, filled, nil_pointer, decode_error, decode_snapshot,
}
use freno.Throttle.Apps.{throttle_app, unthrottle_app, throttled_apps_map}
use freno.Throttle.Hosts.{skip_host, recover_host, skipped_hosts_map}

pub record Command : Type 0 where
  pub operation : Text
  pub key : Text
  pub value : Text
  pub expire_at : Time
  pub ratio : Float

-- Store.ThrottleApp, Store.UnthrottleApp, Store.SkipHost and Store.RecoverHost.
abbrev pub throttle_command : Text → Time → Float → Command
throttle_command app_name expire_at ratio = record {
  operation = codes "throttle";
  key = app_name;
  value = [];
  expire_at = expire_at;
  ratio = ratio;
}

abbrev pub unthrottle_command : Text → Command
unthrottle_command app_name = record {
  operation = codes "unthrottle";
  key = app_name;
  value = [];
  expire_at = time_zero;
  ratio = float_zero;
}

abbrev pub skip_command : Text → Time → Command
skip_command host_name expire_at = record {
  operation = codes "skip";
  key = host_name;
  value = [];
  expire_at = expire_at;
  ratio = float_zero;
}

abbrev pub recover_command : Text → Command
recover_command host_name = record {
  operation = codes "recover";
  key = host_name;
  value = [];
  expire_at = time_zero;
  ratio = float_zero;
}

-- What the state machine decodes of a command that genericCommand has encoded.
unfoldable pub json_command : Command → Command
json_command command = record command {
  operation = coerce command.operation;
  key = coerce command.key;
  value = coerce command.value;
}

pub data CommandError : Type 0 where
  not_leader : CommandError
  raft_error : Text → CommandError

-- `none` is success.
unfoldable pub generic_command : Bool → (Command → Option Text) → Command → Option CommandError
generic_command is_leader submit command =
    if not is_leader
    then some not_leader
    else elim (submit command) [ none ↦ none | some e ↦ some (raft_error e) ]

unfoldable pub normalize_raft_node : ℤ → Text → Text
normalize_raft_node default_raft_port node =
    if has_byte node b':'
    then node
    else if eqb_ℤ default_raft_port (pos 0)
    then node
    else node ++ (b':' ∷ itoa default_raft_port)

module _ ⦃c : CacheApi⦄ where
  -- fsm.Apply, at the time at which the replica reaches the command. The flag says whether the
  -- operation was recognised.
  unfoldable pub apply : Throttler → Time → Command → Throttler × Bool
  apply t now command =
      if str_eq command.operation (codes "throttle")
      then (throttle_app t now command.key command.expire_at command.ratio, true)
      else if str_eq command.operation (codes "unthrottle")
      then (unthrottle_app t command.key, true)
      else if str_eq command.operation (codes "skip")
      then (skip_host t now command.key command.expire_at, true)
      else if str_eq command.operation (codes "recover")
      then (recover_host t command.key, true)
      else (t, false)

  unfoldable pub snapshot : Throttler → Time → SnapshotData
  snapshot t now = record {
    throttled_apps = throttled_apps_map t now;
    skipped_hosts = skipped_hosts_map t now;
  }

  restore_apps : Time → Dict Text AppThrottle → Throttler → Throttler
  restore_apps now [] t = t
  restore_apps now ((app_name, a) ∷ rest) t =
      restore_apps now rest (throttle_app t now app_name a.expire_at a.ratio)

  restore_hosts : Time → Dict Text Time → Throttler → Throttler
  restore_hosts now [] t = t
  restore_hosts now ((host_name, expire_at) ∷ rest) t =
      restore_hosts now rest (skip_host t now host_name expire_at)

  restore_data : Time → SnapshotData → Throttler → Throttler
  unfolding restore_apps restore_hosts
  restore_data now contents t =
      restore_hosts now contents.skipped_hosts (restore_apps now contents.throttled_apps t)

  -- fsm.Restore. The flag is false on an error; `none` is the panic on a nil pointer.
  unfoldable pub restore : FieldNames → Throttler → Time → Document → Option (Throttler × Bool)
  unfolding restore_data
  restore names t now document = elim (decode_snapshot names document) [
    | decode_error ↦ some (t, false)
    | nil_pointer ↦ none
    | filled contents ↦ some (restore_data now contents t, true)
  ]

  -- The replica's log: each command with the time at which the replica applies it.
  unfoldable pub replay : List (Time × Command) → Throttler → Throttler
  unfolding apply
  replay [] t = t
  replay ((now, command) ∷ log) t = replay log (apply t now command).0
