-- ===== src/Throttle/Apps/Laws.antt =====
-- The laws of throttling apps: what each operation leaves at each name, the answer of
-- IsAppThrottled, and that the sweep of ended throttles changes no answer.
use freno.Prelude.{
  ℕ, ◌≤◌, ◌≡◌, inl, inr, refl, Bool, false, not, ◌&&◌, ◌||◌, Option, none, some, [], ◌∷◌, ◌++◌,
  if◌then◌else◌, arith, Bool-cases,
}
use freno.Go.Text.{Text, str_eq, str_eq_iff, text_eq}
use freno.Go.Int.{ltb_ℤ}
use freno.Go.Float.{Float}
use freno.Go.Dict.{Dict, lookup, KeysOnce}
use freno.Go.Time.{Time, is_zero, before}
use freno.Base.Metric.{AppThrottle}
use freno.Cache.Api.{
  CacheApi, IsSteady, default_expiration, no_expiration, IsSteady-set_default, IsSteady-set_forever,
  IsSteady-delete,
}
use freno.Throttle.State.{Throttler}
use freno.Throttle.Apps.{
  expired, next_throttle, unthrottle_app, throttle_app, is_app_throttled, unthrottle_expired,
  expire_throttled_apps,
}

-- Whether an entry denies a request whose draw is given.
abbrev pub verdict : Option AppThrottle → Time → Float → Bool
verdict none now draw = false
verdict (some a) now draw = not (expired now a) && ltb_ℤ draw a.ratio

-- How many draws the look at an entry uses up.
abbrev pub draws : Option AppThrottle → Time → ℕ
draws none now = 0
draws (some a) now = if expired now a then 0 else 1

module _ ⦃c : CacheApi⦄ where
  -- The entry of a name.
  abbrev pub throttle_of : Throttler → Time → Text → Option AppThrottle
  throttle_of t now name = c.get AppThrottle t.throttled_apps now name

  abbrev pub HasSteadyApps : Throttler → Type 0
  HasSteadyApps t = IsSteady AppThrottle t.throttled_apps

  -- After UnthrottleApp the name has no entry, and every other name keeps its own.
  pub throttle_of-unthrottle_app :
      (t : Throttler) (app_name : Text) (u : Time) (name : Text)
      → throttle_of (unthrottle_app t app_name) u name
        ≡ (if str_eq app_name name then none else throttle_of t u name)
  unfolding unthrottle_app
  throttle_of-unthrottle_app t app_name u name =
      c.get-delete AppThrottle t.throttled_apps app_name u name

  -- After ThrottleApp the name has the new entry if the throttle does not end or ends after now,
  -- and no entry otherwise. Every other name keeps its own. The throttles before do not end by the
  -- cache's own lifetime, as in a new throttler.
  pub throttle_of-throttle_app :
      (t : Throttler) (now : Time) (app_name : Text) (expire_at : Time) (ratio : Float) (u : Time)
      (name : Text)
      → HasSteadyApps t
      → throttle_of (throttle_app t now app_name expire_at ratio) u name ≡ (
          if str_eq app_name name
          then (if is_zero expire_at || before now expire_at
              then some (next_throttle (throttle_of t now app_name) expire_at ratio)
              else none)
          else throttle_of t u name)
  unfolding throttle_app
  throttle_of-throttle_app t now app_name expire_at ratio u name s =
      let a = next_throttle (throttle_of t now app_name) expire_at ratio in
      ground (
        arith,
        c.get-delete AppThrottle t.throttled_apps app_name u name,
        c.get-set AppThrottle t.throttled_apps now app_name a no_expiration u name,
        c.get-set AppThrottle t.throttled_apps now app_name a default_expiration u name,
        s.no_ttl,
      )

  pub unthrottle_app-HasSteadyApps :
      (t : Throttler) (app_name : Text)
      → HasSteadyApps t
      → HasSteadyApps (unthrottle_app t app_name)
  unfolding unthrottle_app
  unthrottle_app-HasSteadyApps t app_name s =
      IsSteady-delete AppThrottle t.throttled_apps app_name s

  -- ThrottleApp keeps the throttles free of ends by the cache's own lifetime.
  pub throttle_app-HasSteadyApps :
      (t : Throttler) (now : Time) (app_name : Text) (expire_at : Time) (ratio : Float)
      → HasSteadyApps t
      → HasSteadyApps (throttle_app t now app_name expire_at ratio)
  unfolding throttle_app
  throttle_app-HasSteadyApps t now app_name expire_at ratio s =
      let a = next_throttle (throttle_of t now app_name) expire_at ratio in
      elim (Bool-cases (is_zero expire_at)) [
        | inl z ↦ rw z (IsSteady-set_forever AppThrottle t.throttled_apps now app_name a s)
        | inr z ↦ elim (Bool-cases (before now a.expire_at)) [
          | inl b ↦ rw (z, b) (IsSteady-set_default AppThrottle t.throttled_apps now app_name a s)
          | inr b ↦ rw (z, b) (IsSteady-delete AppThrottle t.throttled_apps app_name s)
        ]
      ]

  unthrottle_expired-HasSteadyApps :
      (now : Time) (its : Dict Text AppThrottle) (t : Throttler)
      → HasSteadyApps t
      → HasSteadyApps (unthrottle_expired now its t)
  unfolding unthrottle_expired
  unthrottle_expired-HasSteadyApps now [] t s = s
  unthrottle_expired-HasSteadyApps now ((k, a) ∷ rest) t s =
      unthrottle_expired-HasSteadyApps now rest (if expired now a then unthrottle_app t k else t)
        (elim (Bool-cases (expired now a)) [
          | inl b ↦ rw b (unthrottle_app-HasSteadyApps t k s)
          | inr b ↦ rw b s
        ])

  pub expire_throttled_apps-HasSteadyApps :
      (t : Throttler) (now : Time) → HasSteadyApps t → HasSteadyApps (expire_throttled_apps t now)
  unfolding expire_throttled_apps
  expire_throttled_apps-HasSteadyApps t now s =
      unthrottle_expired-HasSteadyApps now (c.items AppThrottle t.throttled_apps now) t s

  -- IsAppThrottled is the verdict on the entry for the store, or else the one on the entry for the
  -- app, which takes the next draw if the first entry used one.
  pub is_app_throttled_verdicts :
      (t : Throttler) (now : Time) (rand : ℕ → Float) (app_name store_name : Text)
      → is_app_throttled t now rand app_name store_name ≡ (
          verdict (throttle_of t now (app_name ++ (b'/' ∷ store_name))) now (rand 0)
          || verdict
              (throttle_of t now app_name)
              now
              (rand (draws (throttle_of t now (app_name ++ (b'/' ∷ store_name))) now)))
  unfolding is_app_throttled
  is_app_throttled_verdicts t now rand app_name store_name = ground (arith)

  throttle_of-unthrottle_expired :
      (now : Time) (its : Dict Text AppThrottle) (t : Throttler) (u : Time) (name : Text)
      → KeysOnce its
      → throttle_of (unthrottle_expired now its t) u name ≡ elim (lookup name its) [
        | none ↦ throttle_of t u name
        | some a ↦ if expired now a then none else throttle_of t u name
      ]
  unfolding unthrottle_expired lookup
  throttle_of-unthrottle_expired now [] t u name h = refl
  throttle_of-unthrottle_expired now ((k, a) ∷ rest) t u name (n, h) = ground (
    arith,
    str_eq_iff k name,
    throttle_of-unthrottle_app t k u name,
    throttle_of-unthrottle_expired now rest t u name h,
    throttle_of-unthrottle_expired now rest (unthrottle_app t k) u name h,
  )

  -- After the sweep a name has its entry if the throttle has not ended, and none otherwise, in a
  -- throttler whose throttles do not end by the cache's own lifetime, as in a new one.
  pub throttle_of-expire_throttled_apps :
      (t : Throttler) (now u : Time) (name : Text)
      → HasSteadyApps t
      → throttle_of (expire_throttled_apps t now) u name ≡ elim (throttle_of t u name) [
        | none ↦ none
        | some a ↦ if expired now a then none else some a
      ]
  unfolding expire_throttled_apps
  throttle_of-expire_throttled_apps t now u name s = ground (
    arith,
    throttle_of-unthrottle_expired now (c.items AppThrottle t.throttled_apps now) t u name
        (c.items-KeysOnce AppThrottle t.throttled_apps now),
    c.lookup-items AppThrottle t.throttled_apps now name,
    s.same now u name,
  )

  -- The sweep of ended throttles by itself changes no answer of IsAppThrottled at its time or
  -- later: with no other operation between the sweep and the question, the answer is the one
  -- without the sweep, in a throttler whose throttles do not end by the cache's own lifetime, as in
  -- a new one.
  pub is_app_throttled-expire_throttled_apps :
      (t : Throttler) (now later : Time) (rand : ℕ → Float) (app_name store_name : Text)
      → HasSteadyApps t
      → now ≤ later
      → is_app_throttled (expire_throttled_apps t now) later rand app_name store_name
        ≡ is_app_throttled t later rand app_name store_name
  is_app_throttled-expire_throttled_apps t now later rand app_name store_name s h = ground (
    arith,
    is_app_throttled_verdicts (expire_throttled_apps t now) later rand app_name store_name,
    is_app_throttled_verdicts t later rand app_name store_name,
    throttle_of-expire_throttled_apps t now later (app_name ++ (b'/' ∷ store_name)) s,
    throttle_of-expire_throttled_apps t now later app_name s,
  )
