-- ===== src/Group/Fsm/Laws.antt =====
-- The laws of the raft state machine.
use freno.Prelude.{
  ℕ, ◌<◌, ◌≡◌, ◌⊎◌, inl, inr, refl, false, Option, none, some, List, [], ◌∷◌, ◌++◌, if◌then◌else◌,
  arith,
}
use freno.Go.Text.{Text, text_eq}
use freno.Go.Float.{Float, float_zero}
use freno.Go.Int.{ltb_ℤ}
use freno.Go.Time.{Time}
use freno.Base.Metric.{AppThrottle}
use freno.Cache.Api.{CacheApi}
use freno.Throttle.State.{Throttler}
use freno.Throttle.Apps.{expired, throttle_app, unthrottle_app, next_throttle, is_app_throttled}
use freno.Throttle.Hosts.{skip_host, recover_host}
use freno.Throttle.Apps.Laws.{
  HasSteadyApps, throttle_of, throttle_app-HasSteadyApps, unthrottle_app-HasSteadyApps,
  throttle_of-unthrottle_app, throttle_of-throttle_app, is_app_throttled_verdicts,
}
use freno.Group.Fsm.{Command, apply, replay}

module _ ⦃c : CacheApi⦄ where
  -- The entry of a name, unless it has ended.
  live : Throttler → Time → Text → Option AppThrottle
  live t now name = elim (throttle_of t now name) [
    | none ↦ none
    | some a ↦ if expired now a then none else some a
  ]

  -- Two replicas have the same throttles, up to those that have ended by `later`.
  Agree : Time → Throttler → Throttler → Type 0
  Agree later t t' = (name : Text) → live t later name ≡ live t' later name

  is_app_throttled-Agree :
      (t t' : Throttler) (later : Time) (rand : ℕ → Float) (app_name store_name : Text)
      → Agree later t t'
      → is_app_throttled t later rand app_name store_name
        ≡ is_app_throttled t' later rand app_name store_name
  unfolding Agree live
  is_app_throttled-Agree t t' later rand app_name store_name h = ground (
    arith,
    is_app_throttled_verdicts t later rand app_name store_name,
    is_app_throttled_verdicts t' later rand app_name store_name,
    h (app_name ++ (b'/' ∷ store_name)),
    h app_name,
  )

  throttle_app-Agree :
      (t t' : Throttler) (later now now' : Time) (app_name : Text) (expire_at : Time)
      (ratio : Float)
      → HasSteadyApps t
      → HasSteadyApps t'
      → ltb_ℤ ratio float_zero ≡ false
      → now < later
      → now' < later
      → Agree later t t'
      → Agree later
          (throttle_app t now app_name expire_at ratio)
          (throttle_app t' now' app_name expire_at ratio)
  unfolding Agree live next_throttle
  throttle_app-Agree t t' later now now' app_name expire_at ratio s s' r p q h name = ground (
    arith,
    h name,
    throttle_of-throttle_app t now app_name expire_at ratio later name s,
    throttle_of-throttle_app t' now' app_name expire_at ratio later name s',
  )

  unthrottle_app-Agree :
      (t t' : Throttler) (later : Time) (app_name : Text)
      → Agree later t t'
      → Agree later (unthrottle_app t app_name) (unthrottle_app t' app_name)
  unfolding Agree live
  unthrottle_app-Agree t t' later app_name h name = ground (
    arith,
    h name,
    throttle_of-unthrottle_app t app_name later name,
    throttle_of-unthrottle_app t' app_name later name,
  )

  -- What a command does to the throttles.
  throttled_apps-apply :
      (t : Throttler) (now : Time) (command : Command)
      → ((apply t now command).0.throttled_apps
          ≡ (throttle_app t now command.key command.expire_at command.ratio).throttled_apps)
        ⊎ ((apply t now command).0.throttled_apps ≡ (unthrottle_app t command.key).throttled_apps)
        ⊎ ((apply t now command).0.throttled_apps ≡ t.throttled_apps)
  unfolding apply skip_host recover_host
  throttled_apps-apply t now command = ground arith

  apply-HasSteadyApps :
      (t : Throttler) (now : Time) (command : Command)
      → HasSteadyApps t
      → HasSteadyApps (apply t now command).0
  apply-HasSteadyApps t now command s = elim (throttled_apps-apply t now command) [
    | inl e ↦ rw e (throttle_app-HasSteadyApps t now command.key command.expire_at command.ratio s)
    | inr (inl e) ↦ rw e (unthrottle_app-HasSteadyApps t command.key s)
    | inr (inr e) ↦ rw e s
  ]

  apply-Agree :
      (t t' : Throttler) (later now now' : Time) (command : Command)
      → HasSteadyApps t
      → HasSteadyApps t'
      → ltb_ℤ command.ratio float_zero ≡ false
      → now < later
      → now' < later
      → Agree later t t'
      → Agree later (apply t now command).0 (apply t' now' command).0
  unfolding apply Agree live skip_host recover_host
  apply-Agree t t' later now now' command s s' r p q h name = ground (
    arith,
    h name,
    throttle_app-Agree t t' later now now' command.key command.expire_at command.ratio s s' r p q h
        name,
    unthrottle_app-Agree t t' later command.key h name,
  )

  -- A log that two replicas replay, with the times at which each of them applies the commands.
  pub first_log : List (Command × (Time × Time)) → List (Time × Command)
  first_log [] = []
  first_log ((command, (now, now')) ∷ log) = (now, command) ∷ first_log log

  pub second_log : List (Command × (Time × Time)) → List (Time × Command)
  second_log [] = []
  second_log ((command, (now, now')) ∷ log) = (now', command) ∷ second_log log

  -- No ratio is negative, and both replicas have applied every command before `later`.
  abbrev pub AppliedBefore : Time → List (Command × (Time × Time)) → Type 0
  AppliedBefore later [] = Unit
  AppliedBefore later ((command, (now, now')) ∷ log) =
      (ltb_ℤ command.ratio float_zero ≡ false)
      × (now < later)
      × (now' < later)
      × AppliedBefore later log

  replay-Agree :
      (log : List (Command × (Time × Time))) (t t' : Throttler) (later : Time)
      → HasSteadyApps t
      → HasSteadyApps t'
      → AppliedBefore later log
      → Agree later t t'
      → Agree later (replay (first_log log) t) (replay (second_log log) t')
  unfolding replay first_log second_log
  replay-Agree [] t t' later s s' b h = h
  replay-Agree ((command, (now, now')) ∷ log) t t' later s s' (r, p, q, b) h =
      replay-Agree log (apply t now command).0 (apply t' now' command).0 later
        (apply-HasSteadyApps t now command s) (apply-HasSteadyApps t' now' command s') b
        (apply-Agree t t' later now now' command s s' r p q h)

  -- Two replicas that start from one state and apply one log of commands, none with a negative
  -- ratio, each at its own times, answer every request on an app's throttling alike that comes
  -- later than all these times. The throttles of the state do not end by the cache's own lifetime,
  -- as in a new throttler.
  pub is_app_throttled-replay :
      (log : List (Command × (Time × Time))) (t : Throttler) (later : Time) (rand : ℕ → Float)
      (app_name store_name : Text)
      → HasSteadyApps t
      → AppliedBefore later log
      → is_app_throttled (replay (first_log log) t) later rand app_name store_name
        ≡ is_app_throttled (replay (second_log log) t) later rand app_name store_name
  unfolding Agree
  is_app_throttled-replay log t later rand app_name store_name s b =
      is_app_throttled-Agree (replay (first_log log) t) (replay (second_log log) t) later rand
        app_name store_name (replay-Agree log t t later s s b (λ name. refl))
