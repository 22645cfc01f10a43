-- ===== src/Throttle/Aggregate/Rank.antt =====
-- The aggregated value against a bound, by the number of hosts above the bound.
use native.Mathlib.Decide.{dec_lt}
use freno.Prelude.{
  ℕ, suc, ◌-◌, ◌≤◌, ◌<◌, ◌≡◌, ◌≢◌, refl, ap, ◌∙◌, Bool, true, List, [], ◌∷◌, arith, ltb, length,
  count_of, count_of-le,
}
use freno.Go.Int.{ℤ, pos_part, ltb_ℤ}
use freno.Go.Float.{
  Float, float_zero, IsSorted, AtLeast, insert_sorted, sort_floats, sort_floats-IsSorted,
  length-sort_floats,
}
use freno.Base.Metric.{MetricResult, simple_metric_result}
use freno.Mysql.Probe.{Probes}
use freno.Throttle.Aggregate.{Inputs, get_or, aggregate_mysql_probes}
use freno.Throttle.Aggregate.Collect.{values_of, errors_of, unreads_of}
use freno.Throttle.Aggregate.Result.{ranked, ignored_values, aggregate_mysql_probes-ranked}

count_of-insert_sorted :
    (p : Float → Bool) (x : Float) (ys : List Float)
    → count_of p (insert_sorted x ys) ≡ count_of p (x ∷ ys)
unfolding insert_sorted
count_of-insert_sorted p x [] = refl
count_of-insert_sorted p x (y ∷ ys) = ground (arith, count_of-insert_sorted p x ys)

count_of-sort_floats :
    (p : Float → Bool) (xs : List Float) → count_of p (sort_floats xs) ≡ count_of p xs
unfolding sort_floats
count_of-sort_floats p [] = refl
count_of-sort_floats p (x ∷ xs) =
    ground (arith, count_of-insert_sorted p x (sort_floats xs), count_of-sort_floats p xs)

-- Where the least of the values is above the bound, all are.
count_of-AtLeast :
    (bound x : Float) (xs : List Float)
    → AtLeast x xs
    → ltb_ℤ bound x ≡ true
    → count_of (ltb_ℤ bound) xs ≡ length xs
count_of-AtLeast bound x [] a h = refl
count_of-AtLeast bound x (y ∷ ys) (b, a) h = ground (arith, h, b, count_of-AtLeast bound x ys a h)

-- Of sorted values, the one that `n` values follow is above a bound exactly when more than `n` are.
get_or-above :
    (bound : Float) (n : ℕ) (xs : List Float)
    → IsSorted xs
    → n < length xs
    → ltb_ℤ bound (get_or xs (length xs - n - 1) float_zero) ≡ ltb n (count_of (ltb_ℤ bound) xs)
get_or-above bound n [] s h = absurd (omega arith)
get_or-above bound n (x ∷ xs) (a, s) h = elim (dec_lt n (length xs)) [
  | yes inside ↦
      let e : length (x ∷ xs) - n - 1 ≡ suc (length xs - n - 1) = omega (arith, inside) in
      rw e (ground (arith, inside, get_or-above bound n xs s inside, count_of-AtLeast bound x xs a))
  | no last ↦
      let e : length (x ∷ xs) - n - 1 ≡ 0 = omega (arith, last) in
      rw e (ground (arith, last, h, count_of-AtLeast bound x xs a, count_of-le (ltb_ℤ bound) xs))
]

some_value : (xs : List Float) → xs ≢ [] → 0 < length xs
some_value [] h = absurd (h refl)
some_value (x ∷ xs) h = omega arith

module _ (i : Inputs) (probes : Probes) (count : ℤ) (bound : Float) where
  -- Where there is a value, it is at most the bound exactly when the hosts above the bound are not
  -- more than those that are ignored.
  pub aggregate_mysql_probes-above :
      unreads_of i probes ≡ 0
      → errors_of i probes ≤ pos_part count
      → values_of i probes ≢ []
      → ltb_ℤ bound (aggregate_mysql_probes i probes count).get.0
        ≡ ltb (ignored_values i probes count) (count_of (ltb_ℤ bound) (values_of i probes))
  unfolding simple_metric_result
  aggregate_mysql_probes-above u e h =
      let sorted = ranked i probes in
      let n = ignored_values i probes count in
      let inside : n < length sorted =
        omega (arith, some_value (values_of i probes) h, length-sort_floats (values_of i probes)) in
      ap (λ (r : MetricResult). ltb_ℤ bound r.get.0)
        (aggregate_mysql_probes-ranked i probes count u e h)
      ∙ get_or-above bound n sorted (sort_floats-IsSorted (values_of i probes)) inside
      ∙ ap (ltb n) (count_of-sort_floats (ltb_ℤ bound) (values_of i probes))
