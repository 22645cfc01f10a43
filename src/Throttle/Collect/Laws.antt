-- ===== src/Throttle/Collect/Laws.antt =====
-- The flags let one goroutine at a time past each probe.
use freno.Prelude.{
  ℕ, zero, suc, ◌+◌, ◌≤◌, ◌≡◌, refl, ap, Bool, true, false, ◌&&◌, List, [], ◌∷◌, ◌++◌, map,
  if◌then◌else◌, ◌==◌, ==_iff, count_of, count_of-append, arith,
}
use freno.Go.Text.{Text}
use freno.Go.Dict.{Dict}
use freno.Throttle.Collect.{
  Stage, starting, reading, sent, Goroutine, Collector, spawn, collect, proceed, advance_at,
  advance, replace_probes, leader_change, Step, ticked, advanced, replaced, elected, Reached, new,
  stepped,
}

-- The goroutine queries the probe, or has still to give its flag back.
abbrev pub queries : ℕ → Goroutine → Bool
queries p g = (g.probe == p) && elim g.stage [ starting ↦ false | reading ↦ true | sent ↦ true ]

abbrev pub bit : Bool → ℕ
bit b = if b then 1 else 0

-- The flag of each probe counts the goroutines that query it.
abbrev pub IsExclusive : {M : Type 0} → Collector M → Type 0
IsExclusive c = (p : ℕ) → count_of (queries p) c.goroutines ≡ bit (c.in_progress p)

queries-map :
    (p : ℕ) (cluster_name : Text) (probes : List ℕ)
    → count_of (queries p) (
        map
          (λ probe. record { cluster_name = cluster_name; probe = probe; stage = starting })
          probes)
      ≡ 0
queries-map p cluster_name [] = refl
queries-map p cluster_name (probe ∷ probes) = ground (arith, queries-map p cluster_name probes)

queries-spawn : (p : ℕ) (clusters : Dict Text (List ℕ)) → count_of (queries p) (spawn clusters) ≡ 0
unfolding spawn
queries-spawn p [] = refl
queries-spawn p ((cluster_name, probes) ∷ clusters) =
    let started : List Goroutine =
      map (λ probe. record { cluster_name = cluster_name; probe = probe; stage = starting })
        probes in
    omega (
      arith,
      count_of-append (queries p) started (spawn clusters),
      queries-map p cluster_name probes,
      queries-spawn p clusters,
    )

collect-IsExclusive : {M : Type 0} (c : Collector M) → IsExclusive c → IsExclusive (collect c)
unfolding collect
collect-IsExclusive c h p = ground (
  arith,
  h p,
  count_of-append (queries p) c.goroutines (spawn c.clusters_probes),
  queries-spawn p c.clusters_probes,
)

module _ {M : Type 0} (read : Text → ℕ → M) where
  queries-proceed :
      (flags : ℕ → Bool) (cluster_name : Text) (probe p : ℕ) (stage : Stage) (gs : List Goroutine)
      → count_of
          (queries p)
          (record { cluster_name = cluster_name; probe = probe; stage = stage } ∷ gs)
        ≤ bit (flags p)
      → count_of (queries p) ((proceed read flags cluster_name probe stage).0 ++ gs) + bit (flags p)
        ≡ count_of
            (queries p)
            (record { cluster_name = cluster_name; probe = probe; stage = stage } ∷ gs)
          + bit ((proceed read flags cluster_name probe stage).1 p)
  unfolding proceed
  queries-proceed flags cluster_name probe p starting gs h =
      ground (arith, h, ==_iff probe p, ap flags)
  queries-proceed flags cluster_name probe p reading gs h = ground (arith, h)
  queries-proceed flags cluster_name probe p sent gs h = ground (arith, h)

  -- The queries of a probe and its flag change together.
  queries-advance_at :
      (i : ℕ) (flags : ℕ → Bool) (gs : List Goroutine) (p : ℕ)
      → count_of (queries p) gs ≤ bit (flags p)
      → count_of (queries p) (advance_at read i flags gs).0 + bit (flags p)
        ≡ count_of (queries p) gs + bit ((advance_at read i flags gs).1 p)
  unfolding advance_at
  queries-advance_at i flags [] p h = refl
  queries-advance_at zero flags (g ∷ gs) p h =
      queries-proceed flags g.cluster_name g.probe p g.stage gs h
  queries-advance_at (suc i) flags (g ∷ gs) p h = ground (arith, h, queries-advance_at i flags gs p)

  advance-IsExclusive : (i : ℕ) (c : Collector M) → IsExclusive c → IsExclusive (advance read i c)
  unfolding advance
  advance-IsExclusive i c h p =
      omega (arith, h p, queries-advance_at i c.in_progress c.goroutines p (omega (arith, h p)))

  Step-IsExclusive : {c d : Collector M} → Step read c d → IsExclusive c → IsExclusive d
  unfolding replace_probes leader_change
  Step-IsExclusive (ticked c) h = collect-IsExclusive c h
  Step-IsExclusive (advanced i c) h = advance-IsExclusive i c h
  Step-IsExclusive (replaced cluster_name probes c) h = h
  Step-IsExclusive (elected is_leader c) h = h

  -- However the ticks of a collection, its goroutines, the replacements of probes and the changes
  -- of leadership interleave, the goroutines that query a probe, or have yet to give its flag back,
  -- are none where the flag is down and exactly one where it is up.
  pub Reached-IsExclusive : {c : Collector M} → Reached read c → IsExclusive c
  Reached-IsExclusive new p = refl
  Reached-IsExclusive (stepped r step) p = Step-IsExclusive step (Reached-IsExclusive r) p
