-- ===== src/Throttle/Collect.antt =====
-- pkg/throttle/throttler.go: collectMySQLMetrics and collectMySQLHttpChecks, which start a goroutine
-- for each probe. A probe is an object with a flag, here its address; the goroutines of the
-- collections and the replacement of the probes interleave in any order.
pub mod Laws
use freno.Prelude.{
  ℕ, zero, suc, Bool, true, false, not, List, [], ◌∷◌, ◌++◌, map, if◌then◌else◌, ◌==◌,
}
use freno.Go.Text.{Text, text_eq}
use freno.Go.Dict.{Dict, insert}
use freno.Mysql.Probe.{MySqlHttpCheck}
use freno.Mysql.ThrottleMetric.{MySqlThrottleMetric}

-- Where a goroutine stands: before CompareAndSwap, before the read, and before the deferred store.
pub data Stage : Type 0 where
  starting reading sent : Stage

pub record Goroutine : Type 0 where
  pub cluster_name : Text
  pub probe : ℕ
  pub stage : Stage

-- The probes of each cluster, the flag of each probe, the goroutines that run, and what has been
-- sent on the channel. QueryInProgress and HttpCheckInProgress are the flags of one collector each.
pub record Collector (M : Type 0) : Type 0 where
  pub is_leader : Bool
  pub clusters_probes : Dict Text (List ℕ)
  pub in_progress : ℕ → Bool
  pub goroutines : List Goroutine
  pub channel : List M

abbrev pub set_flag : (ℕ → Bool) → ℕ → Bool → ℕ → Bool
set_flag flags probe b p = if probe == p then b else flags p

-- A goroutine for each probe of each cluster. The goroutine of a cluster only starts those of its
-- probes, so it is not kept.
spawn : Dict Text (List ℕ) → List Goroutine
spawn [] = []
spawn ((cluster_name, probes) ∷ clusters) =
    map (λ probe. record { cluster_name = cluster_name; probe = probe; stage = starting }) probes
    ++ spawn clusters

unfoldable pub collect : {M : Type 0} → Collector M → Collector M
unfolding spawn
collect c =
    if not c.is_leader then c else record c { goroutines = c.goroutines ++ spawn c.clusters_probes }

-- The two collections, of the metrics and of the HTTP checks.
abbrev pub collect_mysql_metrics : Collector MySqlThrottleMetric → Collector MySqlThrottleMetric
collect_mysql_metrics = collect

abbrev pub collect_mysql_http_checks : Collector MySqlHttpCheck → Collector MySqlHttpCheck
collect_mysql_http_checks = collect

-- `read` is what ReadThrottleMetric, or CheckHttp, answers for a cluster and a probe.
module _ {M : Type 0} (read : Text → ℕ → M) where
  -- The next stage of a goroutine, or its end, with the flags and what it sends.
  proceed : (ℕ → Bool) → Text → ℕ → Stage → List Goroutine × (ℕ → Bool) × List M
  proceed flags cluster_name probe starting = if flags probe then ([], flags, []) else (
    record { cluster_name = cluster_name; probe = probe; stage = reading } ∷ [],
    set_flag flags probe true,
    [],
  )
  proceed flags cluster_name probe reading = (
    record { cluster_name = cluster_name; probe = probe; stage = sent } ∷ [],
    flags,
    read cluster_name probe ∷ [],
  )
  proceed flags cluster_name probe sent = ([], set_flag flags probe false, [])

  -- The goroutine at a position proceeds.
  advance_at : ℕ → (ℕ → Bool) → List Goroutine → List Goroutine × (ℕ → Bool) × List M
  unfolding proceed
  advance_at i flags [] = ([], flags, [])
  advance_at zero flags (g ∷ gs) =
      let (next, flags', messages) = proceed flags g.cluster_name g.probe g.stage in
      (next ++ gs, flags', messages)
  advance_at (suc i) flags (g ∷ gs) =
      let (gs', flags', messages) = advance_at i flags gs in (g ∷ gs', flags', messages)

  unfoldable pub advance : ℕ → Collector M → Collector M
  unfolding advance_at
  advance i c =
      let (gs, flags, messages) = advance_at i c.in_progress c.goroutines in
      record c { goroutines = gs; in_progress = flags; channel = c.channel ++ messages }

-- updateMySQLClusterProbes for a cluster: the objects are new ones.
unfoldable pub replace_probes : {M : Type 0} → Text → List ℕ → Collector M → Collector M
replace_probes cluster_name probes c = record c {
  clusters_probes = insert cluster_name probes c.clusters_probes;
}

-- The flag of leadership, as Operate reads it.
unfoldable pub leader_change : {M : Type 0} → Bool → Collector M → Collector M
leader_change is_leader c = record c { is_leader = is_leader }

abbrev pub new_collector : {M : Type 0} → Collector M
new_collector = record {
  is_leader = false;
  clusters_probes = [];
  in_progress = λ p. false;
  goroutines = [];
  channel = [];
}

-- What can happen next, and the states that are reached.
pub data Step {M : Type 0} (read : Text → ℕ → M) : Collector M → Collector M → Type 0 where
  ticked : (c : Collector M) → Step read c (collect c)
  advanced : (i : ℕ) (c : Collector M) → Step read c (advance read i c)
  replaced :
      (cluster_name : Text) (probes : List ℕ) (c : Collector M)
      → Step read c (replace_probes cluster_name probes c)
  elected : (is_leader : Bool) (c : Collector M) → Step read c (leader_change is_leader c)

pub data Reached {M : Type 0} (read : Text → ℕ → M) : Collector M → Type 0 where
  new : Reached read new_collector
  stepped : {c d : Collector M} → Reached read c → Step read c d → Reached read d
