-- ===== src/Throttle/Apps.antt =====
-- pkg/throttle/throttler.go: throttling of apps. The entries of the cache are pointers, which
-- ThrottleApp changes in place before it stores or deletes them: nothing holds one between the
-- operations, so the new entry is stored here, and Sweep has the pointers themselves. Each
-- operation reads the clock once.
pub mod Laws
pub mod Frame
use freno.Prelude.{
  ℕ, suc, ◌+◌, ◌*◌, Bool, true, false, not, ◌&&◌, Option, none, some, List, [], ◌∷◌, ◌++◌,
  if◌then◌else◌, ◌≡◌, refl, arith,
}
use freno.Go.Text.{Text, codes, text_eq}
use freno.Go.Int.{ltb_ℤ}
use freno.Go.Float.{Float, float_zero, float_one}
use freno.Go.Dict.{Dict}
use freno.Go.Time.{Time, time_zero, is_zero, before, second}
use freno.Base.Metric.{AppThrottle}
use freno.Cache.Api.{CacheApi, default_expiration, no_expiration}
use freno.Throttle.State.{Throttler, empty_throttler}

abbrev pub default_throttle_ratio : Float
default_throttle_ratio = float_one

-- The throttle has ended: it has an end, and that is before now.
abbrev pub expired : Time → AppThrottle → Bool
expired now a = not (is_zero a.expire_at) && before a.expire_at now

-- The entry that ThrottleApp makes of the one that is there, if any.
unfoldable pub next_throttle : Option AppThrottle → Time → Float → AppThrottle
next_throttle (some old) expire_at ratio = record {
  expire_at = if not (is_zero expire_at) then expire_at else time_zero;
  ratio = if not (ltb_ℤ ratio float_zero) then ratio else old.ratio;
}
next_throttle none expire_at ratio = record {
  expire_at = expire_at;
  ratio = if ltb_ℤ ratio float_zero then default_throttle_ratio else ratio;
}

module _ ⦃c : CacheApi⦄ where
  unfoldable pub unthrottle_app : Throttler → Text → Throttler
  unthrottle_app t app_name = record t {
    throttled_apps = c.delete AppThrottle t.throttled_apps app_name;
  }

  unfoldable pub throttle_app : Throttler → Time → Text → Time → Float → Throttler
  unfolding next_throttle unthrottle_app
  throttle_app t now app_name expire_at ratio =
      let a = next_throttle (c.get AppThrottle t.throttled_apps now app_name) expire_at ratio in
      if is_zero expire_at
      then record t {
        throttled_apps = c.set AppThrottle t.throttled_apps now app_name a no_expiration;
      }
      else if before now a.expire_at
      then record t {
        throttled_apps = c.set AppThrottle t.throttled_apps now app_name a default_expiration;
      }
      else unthrottle_app t app_name

  -- NewThrottler. Its throttle lasts ten years of 365 days.
  unfoldable pub new_throttler : Time → Throttler
  new_throttler now =
      throttle_app empty_throttler now (codes "abusing-app") (now + 24 * 365 * 10 * 3600 * second)
        default_throttle_ratio

  -- `rand` lists the values that rand.Float64 returns in turn, and `i` is the next one's index.
  any_throttled : Throttler → Time → (ℕ → Float) → ℕ → List Text → Bool
  any_throttled t now rand i [] = false
  any_throttled t now rand i (key ∷ keys) = elim (c.get AppThrottle t.throttled_apps now key) [
    | none ↦ any_throttled t now rand i keys
    | some a ↦ elim (expired now a) [
      | true ↦ any_throttled t now rand i keys
      | false ↦ elim (ltb_ℤ (rand i) a.ratio) [
        | true ↦ true
        | false ↦ any_throttled t now rand (suc i) keys
      ]
    ]
  ]

  unfoldable pub is_app_throttled : Throttler → Time → (ℕ → Float) → Text → Text → Bool
  unfolding any_throttled
  is_app_throttled t now rand app_name store_name =
      any_throttled t now rand 0 ((app_name ++ (b'/' ∷ store_name)) ∷ app_name ∷ [])

  unfoldable pub throttled_apps_map : Throttler → Time → Dict Text AppThrottle
  throttled_apps_map t now = c.items AppThrottle t.throttled_apps now

  unthrottle_expired : Time → Dict Text AppThrottle → Throttler → Throttler
  unfolding unthrottle_app
  unthrottle_expired now [] t = t
  unthrottle_expired now ((app_name, a) ∷ rest) t =
      unthrottle_expired now rest (if expired now a then unthrottle_app t app_name else t)

  unfoldable pub expire_throttled_apps : Throttler → Time → Throttler
  unfolding unthrottle_expired
  expire_throttled_apps t now = unthrottle_expired now (c.items AppThrottle t.throttled_apps now) t
