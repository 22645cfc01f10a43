-- ===== src/Throttle/Apps/Frame.antt =====
-- The frame of throttling apps: the operations change nothing but the throttles.
use freno.Prelude.{◌∙◌, ap, if_keeps, ◌≡◌, inl, inr, refl, [], ◌∷◌, if◌then◌else◌, Bool-cases}
use freno.Go.Text.{Text, text_eq}
use freno.Go.Float.{Float}
use freno.Go.Dict.{Dict}
use freno.Go.Time.{Time, is_zero, before}
use freno.Base.Metric.{AppThrottle}
use freno.Cache.Api.{CacheApi}
use freno.Throttle.State.{Throttler}
use freno.Throttle.Apps.{
  expired, next_throttle, unthrottle_app, throttle_app, unthrottle_expired, expire_throttled_apps,
}
use freno.Throttle.Apps.Laws.{throttle_of}

module _ ⦃c : CacheApi⦄ where
  -- The second state is the first but for the throttles.
  abbrev Frames : Throttler → Throttler → Type 0
  Frames t t' = t' ≡ record t { throttled_apps = t'.throttled_apps }

  Frames-trans : (t t' t'' : Throttler) → Frames t t' → Frames t' t'' → Frames t t''
  Frames-trans t t' t'' p q =
      q ∙ ap (λ (x : Throttler). record x { throttled_apps = t''.throttled_apps }) p

  -- Nothing but the throttles changes.
  pub throttle_app_frame :
      (t : Throttler) (now : Time) (app_name : Text) (expire_at : Time) (ratio : Float)
      → throttle_app t now app_name expire_at ratio
        ≡ record t { throttled_apps = (throttle_app t now app_name expire_at ratio).throttled_apps }
  unfolding throttle_app unthrottle_app
  throttle_app_frame t now app_name expire_at ratio =
      let a = next_throttle (throttle_of t now app_name) expire_at ratio in
      elim (Bool-cases (is_zero expire_at)) [
        | inl z ↦ rw z refl
        | inr z ↦ elim (Bool-cases (before now a.expire_at)) [
          | inl b ↦ rw (z, b) refl
          | inr b ↦ rw (z, b) refl
        ]
      ]

  unthrottle_expired_frame :
      (now : Time) (its : Dict Text AppThrottle) (t : Throttler)
      → Frames t (unthrottle_expired now its t)
  unfolding unthrottle_expired unthrottle_app
  unthrottle_expired_frame now [] t = refl
  unthrottle_expired_frame now ((k, e) ∷ rest) t =
      let t' = if expired now e then unthrottle_app t k else t in
      Frames-trans t t' (unthrottle_expired now rest t')
        (if_keeps (Frames t) (expired now e) (unthrottle_app t k) t refl refl)
        (unthrottle_expired_frame now rest t')

  pub expire_throttled_apps_frame :
      (t : Throttler) (now : Time)
      → expire_throttled_apps t now
        ≡ record t { throttled_apps = (expire_throttled_apps t now).throttled_apps }
  unfolding expire_throttled_apps
  expire_throttled_apps_frame t now =
      unthrottle_expired_frame now (c.items AppThrottle t.throttled_apps now) t
