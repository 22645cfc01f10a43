-- ===== src/Group/Election/System/Exclusion.antt =====
-- Two services that are in touch with the table do not lead one domain at once.
use freno.Prelude.{
  ℕ, ◌+◌, ◌≤◌, ◌≡◌, inl, inr, true, false, Option, none, some, ◌==◌, if◌then◌else◌, Bool-cases, ap,
  ◌∙◌, arith,
}
use freno.Go.Text.{Text, str_eq_iff, text_eq}
use freno.Go.Dict.{lookup}
use freno.Group.Election.{
  Backend, ElectionRow, election_expire_seconds, collates, attempt_leadership,
}
use freno.Group.Election.System.{
  Member, System, update, new_member, attempt, read_member, read, Step, passes, attempts, reads,
  starts, Reached, begin, stepped,
}
use freno.Group.Election.System.Invariant.{
  entry, holds, IsInTouch, later-IsInTouch, read-IsInTouch, attempt_lost, attempt_reached,
  attempt_leadership-IsInTouch, new_member-IsInTouch,
}

module _ (fold : Text → Text) where
  IsSound : System → Type 0
  IsSound s =
      (i : ℕ) → IsInTouch fold s.now (entry fold (s.members i).backend s.table) (s.members i)

  -- Each member after an update of one.
  update_cases :
      (P : Member → Type 0) (members : ℕ → Member) (i : ℕ) (m : Member) (j : ℕ)
      → P m
      → P (members j)
      → P (update members i m j)
  update_cases P members i m j p q = elim (i == j) as (λ b. P (if b then m else members j)) [
    | true ↦ p
    | false ↦ q
  ]

  Step-IsSound : {s t : System} → Step fold s t → IsSound s → IsSound t
  unfolding IsSound attempt read
  Step-IsSound (passes later s p) h j =
      later-IsInTouch fold s.now later (entry fold (s.members j).backend s.table) (s.members j) p
        (h j)
  Step-IsSound (attempts i true s w) h j =
      let table = attempt_leadership fold (s.members i).backend s.now s.table in
      update_cases (λ m. IsInTouch fold s.now (entry fold m.backend table) m) s.members i _ j
        (attempt_reached fold s.now s.table (s.members i) (h i))
        (attempt_leadership-IsInTouch fold (s.members i).backend s.now s.table (s.members j) (h j))
  Step-IsSound (attempts i false s w) h j =
      update_cases (λ m. IsInTouch fold s.now (entry fold m.backend s.table) m) s.members i _ j
        (attempt_lost fold s.now (entry fold (s.members i).backend s.table) (s.members i) (h i))
        (h j)
  Step-IsSound (reads i ok time s w) h j =
      update_cases (λ m. IsInTouch fold s.now (entry fold m.backend s.table) m) s.members i
        (read_member fold ok s.table (s.members i)) j
        (read-IsInTouch fold ok s.now s.table (s.members i) (h i)) (h j)
  Step-IsSound (starts i b s) h j =
      update_cases (λ m. IsInTouch fold s.now (entry fold m.backend s.table) m) s.members i
        (new_member b) j (new_member-IsInTouch fold s.now (entry fold b s.table) b) (h j)

  Reached-IsSound : {s : System} → Reached fold s → IsSound s
  unfolding IsSound
  Reached-IsSound (begin now table backends) i =
      new_member-IsInTouch fold now (entry fold (backends i) table) (backends i)
  Reached-IsSound (stepped r step) i = Step-IsSound step (Reached-IsSound r) i

  same_holder :
      (a b : Backend) (e : Option ElectionRow)
      → holds fold a e ≡ true
      → holds fold b e ≡ true
      → fold a.service_id ≡ fold b.service_id
  same_holder a b none h k = ground (arith, h)
  same_holder a b (some row) h k = ground (
    arith,
    h,
    k,
    str_eq_iff (fold row.row_service_id) (fold a.service_id),
    str_eq_iff (fold row.row_service_id) (fold b.service_id),
  )

  -- However the attempts and the reads of many services over one table interleave, with statements
  -- that fail, time that passes and services that start again, of two services of one domain with
  -- different identities at most one leads, while for both it is at most five seconds since the
  -- last attempt that reached the server and whose tick then read the leadership.
  pub leaders_exclusive :
      {s : System} (i j : ℕ)
      → Reached fold s
      → fold (s.members i).backend.domain ≡ fold (s.members j).backend.domain
      → collates fold (s.members i).backend.service_id (s.members j).backend.service_id ≡ false
      → (s.members i).backend.leader_state ≡ true
      → s.now ≤ (s.members i).renewed + election_expire_seconds
      → s.now ≤ (s.members j).renewed + election_expire_seconds
      → (s.members j).backend.leader_state ≡ false
  unfolding IsSound
  leaders_exclusive {s} i j r d f l p q = elim (Bool-cases (s.members j).backend.leader_state) [
    | inr k ↦ k
    | inl k ↦
        let a = (s.members i).backend in
        let b = (s.members j).backend in
        let of_i = (Reached-IsSound r i).leads l p in
        let of_j = (Reached-IsSound r j).leads k q in
        ground (
          arith,
          f,
          str_eq_iff (fold a.service_id) (fold b.service_id),
          same_holder a b (entry fold a s.table) of_i
              (ap (λ x. holds fold b (lookup x s.table)) d ∙ of_j),
        )
  ]
