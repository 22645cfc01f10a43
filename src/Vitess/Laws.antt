-- ===== src/Vitess/Laws.antt =====
-- The laws of the selection of tablets.
use freno.Prelude.{
  ◌≡◌, ◌⊎◌, ◌↔◌, refl, true, ◌&&◌, Option, none, some, List, [], ◌∷◌, arith, Among, inl, inr,
  Bool-cases,
}
use freno.Go.Text.{Text, str_eq_iff}
use freno.Config.Stores.{VitessSettings}
use freno.Vitess.{
  Tablet, TabletStats, replica, get_cell, any_cell, has_valid_cell, is_valid_replica, is_serveable,
  keep_replicas, filter_replica_tablets, parse_cells, is_present,
}

-- The stats of a tablet that serves: none, or no last error and realtime stats.
abbrev pub Serves : Option TabletStats → Type 0
Serves none = Unit
Serves (some s) = (s.last_error ≡ []) × (is_present s.realtime ≡ true)

-- A tablet that freno probes: a replica that serves, in one of the cells, if any is given.
abbrev pub Probed : List Text → Tablet → Type 0
Probed cells t =
    ((cells ≡ []) ⊎ Among (get_cell t.alias) cells) × (t.tablet_type ≡ replica) × Serves t.stats

any_cell_iff : (cell : Text) (cells : List Text) → (any_cell cell cells ≡ true) ↔ Among cell cells
unfolding any_cell
any_cell_iff cell [] = ground arith
any_cell_iff cell (x ∷ cells) = ground (arith, str_eq_iff cell x, any_cell_iff cell cells)

test_iff :
    (cells : List Text) (t : Tablet)
    → ((has_valid_cell t cells && is_valid_replica t) ≡ true) ↔ Probed cells t
unfolding has_valid_cell is_valid_replica is_serveable
test_iff cells t = go cells t.stats refl
  where
    go :
        (cs : List Text) (o : Option TabletStats)
        → t.stats ≡ o
        → ((has_valid_cell t cs && is_valid_replica t) ≡ true) ↔ Probed cs t
    go [] none q = ground (arith, q)
    go [] (some s) q = ground (arith, q, str_eq_iff s.last_error [])
    go (x ∷ cs) none q = ground (arith, q, any_cell_iff (get_cell t.alias) (x ∷ cs))
    go (x ∷ cs) (some s) q =
        ground (arith, q, str_eq_iff s.last_error [], any_cell_iff (get_cell t.alias) (x ∷ cs))

keep_replicas_iff :
    (cells : List Text) (tablets : List Tablet) (t : Tablet)
    → Among t (keep_replicas cells tablets) ↔ (Among t tablets × Probed cells t)
unfolding keep_replicas
keep_replicas_iff cells [] t = (λ h. absurd h, λ h. h.0)
keep_replicas_iff cells (x ∷ tablets) t =
    let (there, back) = keep_replicas_iff cells tablets t in
    elim (Bool-cases (has_valid_cell x cells && is_valid_replica x)) [
      | inl e ↦ rw e (
        λ h. elim h [
          | inl q ↦ (inl q, rw q at ((test_iff cells x).0 e))
          | inr r ↦ (inr (there r).0, (there r).1)
        ],
        λ h. elim h.0 [ inl q ↦ inl q | inr r ↦ inr (back (r, h.1)) ],
      )
      | inr e ↦ rw e (
        λ h. (inr (there h).0, (there h).1),
        λ h. elim h.0 [
          | inl q ↦ absurd (ground (arith, e, (test_iff cells x).1 (rw q h.1)))
          | inr r ↦ back (r, h.1)
        ],
      )
    ]

-- The tablets that freno gets are those of the API's list that are replicas, whose stats, if they
-- have any, show no last error and come with realtime stats, and that stand in one of the
-- configured cells, or anywhere if no cell is left after trimming.
pub filter_replica_tablets_iff :
    (settings : VitessSettings) (tablets : List Tablet) (t : Tablet)
    → Among t (filter_replica_tablets settings tablets)
      ↔ (Among t tablets × Probed (parse_cells settings) t)
unfolding filter_replica_tablets
filter_replica_tablets_iff settings tablets t = keep_replicas_iff (parse_cells settings) tablets t
