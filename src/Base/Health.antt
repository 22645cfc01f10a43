-- ===== src/Base/Health.antt =====
-- pkg/base/metric_health.go and recent_app.go.
use freno.Prelude.{ℕ, ◌-◌, ◌/◌, ◌≡◌, refl, Option, none, some, [], ◌∷◌, arith, if◌then◌else◌}
use freno.Go.Int.{ℤ, pos, ltb_ℤ}
use freno.Go.Text.{Text, str_eq_iff, text_eq}
use freno.Go.Dict.{Dict, lookup, insert, lookup-insert, KeysOnce}
use freno.Go.Time.{Time, since, second, minute}

pub record MetricHealth : Type 0 where
  pub last_healthy_at : Time
  pub seconds_since_last_healthy : ℤ

unfoldable pub new_metric_health : Time → Time → MetricHealth
new_metric_health now last_healthy_at = record {
  last_healthy_at = last_healthy_at;
  seconds_since_last_healthy = pos (since now last_healthy_at / second);
}

pub record RecentApp : Type 0 where
  pub checked_at_epoch : ℕ
  pub minutes_since_checked : ℕ

-- The seconds from year 1 to the start of 1970, from which `Unix` counts.
abbrev pub unix_epoch : ℕ
unix_epoch = 62135596800

unfoldable pub new_recent_app : Time → Time → RecentApp
new_recent_app now checked_at = record {
  checked_at_epoch = checked_at / second - unix_epoch;
  minutes_since_checked = since now checked_at / minute;
}

abbrev pub MetricHealthMap : Type 0
MetricHealthMap = Dict Text MetricHealth

-- The entry that Aggregate leaves at a key where it stood and where it comes in.
unfoldable pub worse : Option MetricHealth → MetricHealth → MetricHealth
worse none other = other
worse (some current) other =
    if ltb_ℤ current.seconds_since_last_healthy other.seconds_since_last_healthy
    then other
    else current

-- The loop of Aggregate, over the entries of `other`. Writing back the entry that stays is no
-- change.
unfoldable pub aggregate : MetricHealthMap → MetricHealthMap → MetricHealthMap
unfolding worse
aggregate m [] = m
aggregate m ((name, other) ∷ rest) = aggregate (insert name (worse (lookup name m) other) m) rest

-- The pointwise description: what one side lacks comes from the other, and of two the one that is
-- unhealthy for longer stays, the older entry on a tie.
unfoldable pub join : Option MetricHealth → Option MetricHealth → Option MetricHealth
unfolding worse
join a none = a
join a (some b) = some (worse a b)

-- Aggregating a map whose keys are distinct gives at every name the worse of the two entries.
pub lookup-aggregate :
    (m other : MetricHealthMap) (name : Text)
    → KeysOnce other
    → lookup name (aggregate m other) ≡ join (lookup name m) (lookup name other)
unfolding aggregate join lookup
lookup-aggregate m [] name h = refl
lookup-aggregate m ((k, o) ∷ rest) name (a, h) = ground (
  arith,
  str_eq_iff k name,
  lookup-insert k name (worse (lookup k m) o) m,
  lookup-aggregate (insert k (worse (lookup k m) o) m) rest name h,
)
