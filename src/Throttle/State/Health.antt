-- ===== src/Throttle/State/Health.antt =====
-- The health of the shared domain after its collection: at each metric the worst of the answers.
use freno.Prelude.{
  ◌+◌, ◌*◌, ◌≤◌, ◌≡◌, ◌⊎◌, refl, sym, ◌∙◌, Option, none, some, List, [], ◌∷◌, inl, inr, true,
  Option-cases, arith,
}
use mathlib.Core.Path.{subst}
use freno.Go.Int.{ℤ, ◌≤ℤ◌}
use freno.Go.Text.{Text, str_eq_iff, text_eq}
use freno.Go.Dict.{lookup, insert, KeysOnce, insert-KeysOnce}
use freno.Go.Time.{Time, second}
use freno.Base.Health.{MetricHealth, MetricHealthMap, aggregate, join, worse, lookup-aggregate}
use freno.Cache.Api.{CacheApi, default_expiration}
use freno.Throttle.State.{
  Throttler, shared_domain_collect_interval, get_share_domain_seconds_since_health,
  collect_share_domain_metric_health, merge_health, store_health,
}

-- There is an entry, and it is unhealthy for at least so many seconds.
abbrev pub UnhealthyFor : ℤ → Option MetricHealth → Type 0
UnhealthyFor seconds none = ⊥
UnhealthyFor seconds (some health) = seconds ≤ℤ health.seconds_since_last_healthy

join-UnhealthyFor :
    (seconds : ℤ) (a b : Option MetricHealth)
    → UnhealthyFor seconds a ⊎ UnhealthyFor seconds b
    → UnhealthyFor seconds (join a b)
unfolding join worse
join-UnhealthyFor seconds a none (inl h) = h
join-UnhealthyFor seconds a none (inr h) = absurd h
join-UnhealthyFor seconds none (some b) (inl h) = absurd h
join-UnhealthyFor seconds none (some b) (inr h) = h
join-UnhealthyFor seconds (some a) (some b) (inl h) = ground (arith, h)
join-UnhealthyFor seconds (some a) (some b) (inr h) = ground (arith, h)

aggregate-KeysOnce : (m other : MetricHealthMap) → KeysOnce m → KeysOnce (aggregate m other)
unfolding aggregate
aggregate-KeysOnce m [] h = h
aggregate-KeysOnce m ((name, other) ∷ rest) h =
    aggregate-KeysOnce (insert name (worse (lookup name m) other) m) rest
      (insert-KeysOnce name (worse (lookup name m) other) m h)

-- Some answer has the metric, unhealthy for so long.
abbrev pub SomeUnhealthy : ℤ → Text → List (Option MetricHealthMap) → Type 0
SomeUnhealthy seconds name [] = ⊥
SomeUnhealthy seconds name (none ∷ answers) = SomeUnhealthy seconds name answers
SomeUnhealthy seconds name (some m ∷ answers) =
    UnhealthyFor seconds (lookup name m) ⊎ SomeUnhealthy seconds name answers

-- The answers are maps.
abbrev pub AreMaps : List (Option MetricHealthMap) → Type 0
AreMaps [] = Unit
AreMaps (none ∷ answers) = AreMaps answers
AreMaps (some m ∷ answers) = KeysOnce m × AreMaps answers

module _ ⦃c : CacheApi⦄ where
  merge_health-KeysOnce :
      (m : MetricHealthMap) (answers : List (Option MetricHealthMap))
      → KeysOnce m
      → KeysOnce (merge_health m answers)
  unfolding merge_health
  merge_health-KeysOnce m [] h = h
  merge_health-KeysOnce m (none ∷ answers) h = merge_health-KeysOnce m answers h
  merge_health-KeysOnce m (some other ∷ answers) h =
      merge_health-KeysOnce (aggregate m other) answers (aggregate-KeysOnce m other h)

  merge_health-UnhealthyFor :
      (seconds : ℤ) (name : Text) (m : MetricHealthMap) (answers : List (Option MetricHealthMap))
      → AreMaps answers
      → UnhealthyFor seconds (lookup name m) ⊎ SomeUnhealthy seconds name answers
      → UnhealthyFor seconds (lookup name (merge_health m answers))
  unfolding merge_health
  merge_health-UnhealthyFor seconds name m [] k (inl h) = h
  merge_health-UnhealthyFor seconds name m [] k (inr h) = absurd h
  merge_health-UnhealthyFor seconds name m (none ∷ answers) k h =
      merge_health-UnhealthyFor seconds name m answers k h
  merge_health-UnhealthyFor seconds name m (some other ∷ answers) (k, ks) h =
      let joined =
        λ (x : UnhealthyFor seconds (lookup name m) ⊎ UnhealthyFor seconds (lookup name other)).
          subst (UnhealthyFor seconds) (sym (lookup-aggregate m other name k))
            (join-UnhealthyFor seconds (lookup name m) (lookup name other) x) in
      merge_health-UnhealthyFor seconds name (aggregate m other) answers ks (elim h [
        | inl a ↦ inl (joined (inl a))
        | inr (inl b) ↦ inl (joined (inr b))
        | inr (inr d) ↦ inr d
      ])

  get-store_health :
      (now later : Time) (entries : MetricHealthMap) (m : c.Cache MetricHealth) (name : Text)
      → c.ttl MetricHealth m ≡ some (5 * shared_domain_collect_interval)
      → later ≤ now + 5 * second
      → KeysOnce entries
      → c.get MetricHealth (store_health now entries m) later name ≡ elim (lookup name entries) [
        | none ↦ c.get MetricHealth m later name
        | some health ↦ some health
      ]
  unfolding store_health lookup
  get-store_health now later [] m name d h k = refl
  get-store_health now later ((j, health) ∷ entries) m name d h (n, k) =
      let m' = c.set MetricHealth m now j health default_expiration in
      ground (
        arith,
        d,
        c.get-set MetricHealth m now j health default_expiration later name,
        str_eq_iff j name,
        get-store_health now later entries m' name
            (c.ttl-set MetricHealth m now j health default_expiration ∙ d) h k,
      )

  -- For five seconds after a collection on the leader, the health that is kept for a metric is at
  -- least as bad as that of each answer.
  pub get_share_domain-collect :
      (t : Throttler) (now later : Time) (answers : List (Option MetricHealthMap)) (name : Text)
      (seconds : ℤ)
      → t.is_leader ≡ true
      → c.ttl MetricHealth t.share_domain_metric_health ≡ some (5 * shared_domain_collect_interval)
      → later ≤ now + 5 * second
      → AreMaps answers
      → SomeUnhealthy seconds name answers
      → seconds
        ≤ℤ get_share_domain_seconds_since_health
            (collect_share_domain_metric_health t now (some answers))
            later
            name
  unfolding get_share_domain_seconds_since_health collect_share_domain_metric_health
  get_share_domain-collect t now later answers name seconds l d h k s =
      let merged = merge_health [] answers in
      let g =
        get-store_health now later merged t.share_domain_metric_health name d h
          (merge_health-KeysOnce [] answers tt) in
      let u = merge_health-UnhealthyFor seconds name [] answers k (inr s) in
      elim (Option-cases (lookup name merged)) [
        | inl n ↦ absurd (subst (UnhealthyFor seconds) n u)
        | inr (health, e) ↦
            let v : UnhealthyFor seconds (some health) = subst (UnhealthyFor seconds) e u in
            ground (arith, l, g, e, v)
      ]
