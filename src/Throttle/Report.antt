-- ===== src/Throttle/Report.antt =====
-- pkg/throttle/throttler.go: what the throttler reports to others: the gauges of the throttled apps
-- (pushStatusToExpVar), and the entries of memcache that aggregateMySQLMetrics writes.
use freno.Prelude.{ℕ, ◌/◌, ◌≡◌, refl, ap, Option, none, some, [], ◌∷◌, ◌++◌, if◌then◌else◌, arith}
use freno.Go.Text.{Text, codes, has_prefix, str_eq, str_eq_iff, text_eq}
use freno.Go.Decimal.{itoa}
use freno.Go.Int.{pos}
use freno.Go.Float.{Float}
use freno.Go.Dict.{Dict, lookup, insert, erase, lookup-insert}
use freno.Go.Time.{Time}
use freno.Base.Metric.{AppThrottle, Error, MetricResult}
use freno.Cache.Api.{CacheApi}
use freno.Throttle.State.{Throttler}
use freno.Throttle.Apps.Laws.{throttle_of}

abbrev state_prefix : Text
state_prefix = codes "throttled_states."

zero_states : Dict Text ℕ → Dict Text ℕ
zero_states [] = []
zero_states ((name, value) ∷ gauges) =
    (name, if has_prefix name state_prefix then 0 else value) ∷ zero_states gauges

set_states : Dict Text AppThrottle → Dict Text ℕ → Dict Text ℕ
set_states [] gauges = gauges
set_states ((app_name, a) ∷ apps) gauges =
    set_states apps (insert (state_prefix ++ app_name) 1 gauges)

module _ ⦃c : CacheApi⦄ where
  unfoldable throttled_apps_snapshot : Throttler → Time → Dict Text AppThrottle
  throttled_apps_snapshot t now = c.items AppThrottle t.throttled_apps now

  unfoldable push_status_to_exp_var : Throttler → Time → Dict Text ℕ → Dict Text ℕ
  unfolding throttled_apps_snapshot zero_states set_states
  push_status_to_exp_var t now gauges =
      set_states (throttled_apps_snapshot t now) (zero_states gauges)

-- One name, one prefix.
zeroed :
    (other name : Text)
    → other ≡ name
    → has_prefix other state_prefix ≡ has_prefix name state_prefix
zeroed other name e = ap (λ s. has_prefix s state_prefix) e

lookup-zero_states :
    (name : Text) (gauges : Dict Text ℕ)
    → lookup name (zero_states gauges) ≡ elim (lookup name gauges) [
      | none ↦ none
      | some value ↦ some (if has_prefix name state_prefix then 0 else value)
    ]
unfolding zero_states lookup
lookup-zero_states name [] = refl
lookup-zero_states name ((other, value) ∷ gauges) =
    ground (arith, lookup-zero_states name gauges, str_eq_iff other name, zeroed other name)

lookup-set_states :
    (app_name : Text) (apps : Dict Text AppThrottle) (gauges : Dict Text ℕ)
    → lookup (state_prefix ++ app_name) (set_states apps gauges) ≡ elim (lookup app_name apps) [
      | none ↦ lookup (state_prefix ++ app_name) gauges
      | some a ↦ some 1
    ]
unfolding set_states lookup str_eq
lookup-set_states app_name [] gauges = refl
lookup-set_states app_name ((other, a) ∷ apps) gauges = ground (
  arith,
  lookup-set_states app_name apps (insert (state_prefix ++ other) 1 gauges),
  lookup-insert (state_prefix ++ other) (state_prefix ++ app_name) 1 gauges,
)

module _ ⦃c : CacheApi⦄ where
  -- After the push the gauge of an app is 1 where the app is throttled, and otherwise 0 where it had
  -- been registered.
  lookup-push_status_to_exp_var :
      (t : Throttler) (now : Time) (gauges : Dict Text ℕ) (app_name : Text)
      → lookup (state_prefix ++ app_name) (push_status_to_exp_var t now gauges)
        ≡ elim (throttle_of t now app_name) [
          | some a ↦ some 1
          | none ↦ elim (lookup (state_prefix ++ app_name) gauges) [
            | none ↦ none
            | some value ↦ some 0
          ]
        ]
  unfolding push_status_to_exp_var throttled_apps_snapshot has_prefix
  lookup-push_status_to_exp_var t now gauges app_name = ground (
    arith,
    lookup-set_states app_name (c.items AppThrottle t.throttled_apps now) (zero_states gauges),
    lookup-zero_states (state_prefix ++ app_name) gauges,
    c.lookup-items AppThrottle t.throttled_apps now app_name,
  )

-- An item of memcache, which lives for a second.
record Item : Type 0 where
  value : Text
  expiration : ℕ

abbrev memcache_key : Text → Text → Text
memcache_key memcache_path metric_name = memcache_path ++ (b'/' ∷ metric_name)

-- `format` is fmt.Sprintf with %.6f; the clock counts nanoseconds since 1970.
module _ (format : Float → Text) where
  write_entry : Text → ℕ → Float × Option Error → Dict Text Item → Dict Text Item
  write_entry key unix_nano (value, some e) items = erase key items
  write_entry key unix_nano (value, none) items =
      insert key
        (record {
          value = itoa (pos (unix_nano / 1000000)) ++ (b':' ∷ format value);
          expiration = 1;
        })
        items

  unfoldable memcache_aggregated : Text → ℕ → Text → MetricResult → Dict Text Item → Dict Text Item
  unfolding write_entry
  memcache_aggregated memcache_path unix_nano metric_name aggregated_metric items =
      write_entry (memcache_key memcache_path metric_name) unix_nano aggregated_metric.get items
