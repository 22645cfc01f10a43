-- ===== src/Throttle/Aggregate/Result.antt =====
-- What aggregateMySQLProbes returns: when it is a value, which value, and that the order of the
-- probes does not matter then.
use mathlib.Core.List.{Perm}
use freno.Prelude.{
  ℕ, ◌-◌, ◌≤◌, ◌<◌, ◌≡◌, ◌≢◌, ◌↔◌, refl, sym, ◌∙◌, ap, List, [], ◌∷◌, none, arith, length, inl, inr,
}
use freno.Go.Int.{ℤ, pos, negsuc, pos_part}
use freno.Go.Float.{
  Float, float_zero, sort_floats, sort_floats-IsSorted, sort_floats-eq_of_perm, length-sort_floats,
}
use freno.Base.Metric.{MetricResult, simple_metric_result, no_hosts_metric_result}
use freno.Mysql.Probe.{Probes}
use freno.Throttle.Aggregate.{
  Inputs, take, get_or, worst_value, trim, worst_of, aggregate_mysql_probes,
}
use freno.Throttle.Aggregate.Collect.{
  values_of, errors_of, unreads_of, spent, collect-gathered, collect-StopsWithError, Blocked,
  Blocked-or, values_of-perm, counts-perm,
}
use freno.Throttle.Aggregate.Trim.{ignored, trim-eq-take, length-take, get_or-take}

-- The hosts' values in order, from the best to the worst.
abbrev pub ranked : Inputs → Probes → List Float
ranked i probes = sort_floats (values_of i probes)

-- The ignored hosts that have no error: the tokens that the errors leave, at most.
abbrev pub ignored_values : Inputs → Probes → ℤ → ℕ
ignored_values i probes count =
    ignored (pos_part count - errors_of i probes) i.ignore_hosts_threshold (ranked i probes)

module _ (i : Inputs) (probes : Probes) (count : ℤ) where
  -- With no probe unread and a token for each error the gathered values decide.
  pub aggregate_gathered :
      unreads_of i probes ≡ 0
      → errors_of i probes ≤ pos_part count
      → aggregate_mysql_probes i probes count
        ≡ worst_of i.ignore_hosts_threshold (values_of i probes) (spent (errors_of i probes) count)
  unfolding aggregate_mysql_probes
  aggregate_gathered u e = rw (collect-gathered i probes [] count u e)

-- The last of the values that stay.
last-take :
    (n : ℕ) (xs : List Float)
    → n < length xs
    → get_or (take (length xs - n) xs) (length (take (length xs - n) xs) - 1) float_zero
      ≡ get_or xs (length xs - n - 1) float_zero
last-take n xs h =
    let shorter : length (take (length xs - n) xs) ≡ length xs - n =
      omega (arith, length-take (length xs - n) xs) in
    rw shorter (get_or-take (length xs - n) (length xs - n - 1) xs (omega arith))

-- The worst value after the loop, with the loop in closed form.
worst_of-ranked :
    (threshold : Float) (values : List Float) (count : ℤ)
    → values ≢ []
    → worst_of threshold values count
      ≡ simple_metric_result (
          get_or
            (sort_floats values)
            (length (sort_floats values)
              - ignored (pos_part count) threshold (sort_floats values)
              - 1)
            float_zero)
unfolding worst_of worst_value
worst_of-ranked t [] count h = absurd (h refl)
worst_of-ranked t (v ∷ vs) count h =
    let s = sort_floats (v ∷ vs) in
    rw (trim-eq-take (pos_part count) t s (sort_floats-IsSorted (v ∷ vs))) (
      ap simple_metric_result
        (last-take (ignored (pos_part count) t s) s (omega (arith, length-sort_floats (v ∷ vs)))))

pos_part-spent : (n : ℕ) (count : ℤ) → pos_part (spent n count) ≡ pos_part count - n
unfolding spent
pos_part-spent n (pos c) = refl
pos_part-spent n (negsuc c) = omega arith

module _ (i : Inputs) (probes : Probes) (count : ℤ) where
  -- Where no probe is unread, there is a token for each error, and some host has a value, the
  -- aggregated metric is the value that ranks worst after the ignored hosts. They number the tokens
  -- that the errors left, but never the last host, and where the threshold is positive only the
  -- hosts whose value exceeds it.
  pub aggregate_mysql_probes-ranked :
      unreads_of i probes ≡ 0
      → errors_of i probes ≤ pos_part count
      → values_of i probes ≢ []
      → aggregate_mysql_probes i probes count
        ≡ simple_metric_result (
            get_or
              (ranked i probes)
              (length (ranked i probes) - ignored_values i probes count - 1)
              float_zero)
  aggregate_mysql_probes-ranked u e h =
      aggregate_gathered i probes count u e
      ∙ worst_of-ranked i.ignore_hosts_threshold (values_of i probes)
          (spent (errors_of i probes) count) h
      ∙ ap
          (λ n. simple_metric_result (
            get_or (ranked i probes)
              (length (ranked i probes) - ignored n i.ignore_hosts_threshold (ranked i probes) - 1)
              float_zero))
          (pos_part-spent (errors_of i probes) count)

  no_values :
      unreads_of i probes ≡ 0
      → errors_of i probes ≤ pos_part count
      → values_of i probes ≡ []
      → aggregate_mysql_probes i probes count ≡ no_hosts_metric_result
  no_values u e h = aggregate_gathered i probes count u e ∙ unfold worst_of in (rw h)

  Blocked-error : Blocked i probes count → (aggregate_mysql_probes i probes count).get.1 ≢ none
  unfolding aggregate_mysql_probes
  Blocked-error b h =
      let (r, e, a, q) = collect-StopsWithError i probes [] count b in ground (arith, a, q, h)

  no_values_error :
      unreads_of i probes ≡ 0
      → errors_of i probes ≤ pos_part count
      → values_of i probes ≡ []
      → (aggregate_mysql_probes i probes count).get.1 ≢ none
  no_values_error u e v h = unfold no_hosts_metric_result in ground (arith, no_values u e v, h)

  -- The aggregated metric has no error exactly when no probe is unread, there is a token for each
  -- error, and some host has a value.
  pub aggregate_mysql_probes_succeeds : ((aggregate_mysql_probes i probes count).get.1 ≡ none) ↔ (
      (unreads_of i probes ≡ 0) × (errors_of i probes ≤ pos_part count) × (values_of i probes ≢ []))
  aggregate_mysql_probes_succeeds = (
    λ h. elim (Blocked-or i probes count) [
      | inl b ↦ absurd (Blocked-error b h)
      | inr (u, e) ↦ (u, e, λ v. no_values_error u e v h)
    ],
    λ t.
        unfold simple_metric_result in
        ap (λ (r : MetricResult). r.get.1) (aggregate_mysql_probes-ranked t.0 t.1 t.2),
  )

worst_of-perm :
    (threshold : Float) (count : ℤ) (xs ys : List Float)
    → Perm xs ys
    → worst_of threshold xs count ≡ worst_of threshold ys count
unfolding worst_of
worst_of-perm t c [] [] p = refl
worst_of-perm t c [] (y ∷ ys) p = absurd (
    omega (
      arith,
      ap length (sort_floats-eq_of_perm p),
      length-sort_floats [],
      length-sort_floats (y ∷ ys),
    ))
worst_of-perm t c (x ∷ xs) [] p = absurd (
    omega (
      arith,
      ap length (sort_floats-eq_of_perm p),
      length-sort_floats [],
      length-sort_floats (x ∷ xs),
    ))
worst_of-perm t c (x ∷ xs) (y ∷ ys) p =
    ap (λ s. simple_metric_result (worst_value (trim (pos_part c) t s))) (sort_floats-eq_of_perm p)

-- Where no probe is unread and there is a token for each error, the order in which the probes are
-- iterated does not change the aggregated metric.
pub aggregate_mysql_probes-eq_of_perm :
    (i : Inputs) (probes probes' : Probes) (count : ℤ)
    → Perm probes probes'
    → unreads_of i probes ≡ 0
    → errors_of i probes ≤ pos_part count
    → aggregate_mysql_probes i probes count ≡ aggregate_mysql_probes i probes' count
aggregate_mysql_probes-eq_of_perm i probes probes' count p u e =
    let (same_errors, same_unreads) = counts-perm i p in
    let values : Perm (values_of i probes) (values_of i probes') = values_of-perm i p in
    aggregate_gathered i probes count u e
    ∙ worst_of-perm i.ignore_hosts_threshold (spent (errors_of i probes) count) (values_of i probes)
        (values_of i probes') values
    ∙ ap (λ n. worst_of i.ignore_hosts_threshold (values_of i probes') (spent n count)) same_errors
    ∙ sym (aggregate_gathered i probes' count (sym same_unreads ∙ u) (rw (← same_errors) e))
