-- ===== src/Throttle/Run.antt =====
-- pkg/throttle: the steps that the throttler takes between its construction and any moment: the
-- events of Operate, the operations of the consensus service and the checks, at any times.
pub mod Spec
pub mod Invariant
pub mod Verdict
pub mod Between
use freno.Prelude.{ℕ, Bool, List, [], ◌∷◌}
use freno.Go.Text.{Text}
use freno.Go.Float.{Float}
use freno.Go.Time.{Time}
use freno.Cache.Api.{CacheApi}
use freno.Throttle.State.{Throttler}
use freno.Throttle.Apps.{throttle_app, unthrottle_app, expire_throttled_apps, new_throttler}
use freno.Throttle.Hosts.{skip_host, recover_host, expire_skipped_hosts}
use freno.Throttle.Check.{CheckFlags, check, local_check}
use freno.Throttle.Operate.{Event, operate}

-- The operations on the throttled apps and the skipped hosts.
pub data Op : Type 0 where
  throttle : Text → Time → Float → Op
  unthrottle : Text → Op
  sweep_apps : Op
  skip : Text → Time → Op
  recover : Text → Op
  sweep_hosts : Op

module _ ⦃c : CacheApi⦄ where
  unfoldable pub perform : Throttler → Time → Op → Throttler
  perform t now (throttle app_name expire_at ratio) = throttle_app t now app_name expire_at ratio
  perform t now (unthrottle app_name) = unthrottle_app t app_name
  perform t now sweep_apps = expire_throttled_apps t now
  perform t now (skip host_name expire_at) = skip_host t now host_name expire_at
  perform t now (recover host_name) = recover_host t host_name
  perform t now sweep_hosts = expire_skipped_hosts t now

  unfoldable pub run : List (Time × Op) → Throttler → Throttler
  unfolding perform
  run [] t = t
  run ((now, op) ∷ ops) t = run ops (perform t now op)

  -- One step of the service.
  pub data Step : Throttler → Throttler → Type 0 where
    event : (t : Throttler) (dial : Bool) (now : Time) (e : Event) → Step t (operate dial t now e)
    operation : (t : Throttler) (now : Time) (op : Op) → Step t (perform t now op)
    checked :
        (t : Throttler) (now : Time) (rand : ℕ → Float) (app store_type store remote_addr : Text)
        (flags : CheckFlags)
        → Step t (check t now rand app store_type store remote_addr flags).1
    self_checked :
        (t : Throttler) (now : Time) (rand rand' : ℕ → Float) (flags : CheckFlags)
        (metric_name : Text)
        → Step t (local_check t now rand rand' flags metric_name).1

  -- A state that the service reaches.
  pub data Reached : Throttler → Type 0 where
    started : (now : Time) → Reached (new_throttler now)
    stepped : {t u : Throttler} → Reached t → Step t u → Reached u
