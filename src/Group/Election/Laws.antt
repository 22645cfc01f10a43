-- ===== src/Group/Election/Laws.antt =====
-- The laws of the election: one holder for a domain, the lease of a holder, and its end.
use freno.Prelude.{
  ℕ, ◌+◌, ◌≤◌, ◌≡◌, Bool, true, Option, none, some, List, [], ◌∷◌, ◌||◌, if◌then◌else◌, ltb, arith,
  Option-cases, inl, inr,
}
use freno.Go.Text.{Text, str_eq, str_eq_iff, text_eq}
use freno.Go.Dict.{lookup, lookup-insert}
use freno.Group.Election.{
  ElectionRow, Backend, ServiceElection, election_expire_seconds, collates, contend,
  attempt_leadership, read_leadership,
}

module _ (fold : Text → Text) where
  -- Two backends of one domain that both read that they lead have the same identity.
  pub read_leadership_exclusive :
      (a b : Backend) (table : ServiceElection)
      → fold a.domain ≡ fold b.domain
      → (read_leadership fold a table).0 ≡ true
      → (read_leadership fold b table).0 ≡ true
      → fold a.service_id ≡ fold b.service_id
  unfolding read_leadership
  read_leadership_exclusive a b table d h k = elim (Option-cases (lookup (fold b.domain) table)) [
    | inl e ↦ ground (arith, d, e)
    | inr (row, e) ↦ ground (
      arith,
      d,
      e,
      str_eq_iff (fold row.row_service_id) (fold a.service_id),
      str_eq_iff (fold row.row_service_id) (fold b.service_id),
    )
  ]

  -- The row of the domain after an attempt.
  unfoldable pub attempted_row : Backend → ℕ → ServiceElection → ElectionRow
  attempted_row b now table = elim (lookup (fold b.domain) table) [
    | none ↦ record {
      row_domain = b.domain;
      row_share_domain = b.share_domain;
      row_service_id = b.service_id;
      last_seen_active = now;
    }
    | some row ↦ contend fold b now row
  ]

  pub lookup-attempt_leadership :
      (b : Backend) (now : ℕ) (table : ServiceElection) (j : Text)
      → lookup j (attempt_leadership fold b now table)
        ≡ (if str_eq (fold b.domain) j then some (attempted_row b now table) else lookup j table)
  unfolding attempt_leadership attempted_row
  lookup-attempt_leadership b now table j =
      ground (arith, lookup-insert (fold b.domain) j (attempted_row b now table) table)

  -- The row leaves the leadership to a backend: there is none, it was not renewed within the last
  -- five seconds, or it is the backend's own.
  abbrev pub leaves_to : Backend → ℕ → Option ElectionRow → Bool
  leaves_to b now none = true
  leaves_to b now (some row) =
      ltb (row.last_seen_active + election_expire_seconds) now
      || collates fold row.row_service_id b.service_id

  -- After its attempt a backend reads that it leads exactly when the domain had no row, the row was
  -- not renewed within the last five seconds, or the row was the backend's own.
  pub read_leadership-attempt_leadership :
      (b : Backend) (now : ℕ) (table : ServiceElection)
      → (read_leadership fold b (attempt_leadership fold b now table)).0
        ≡ leaves_to b now (lookup (fold b.domain) table)
  unfolding read_leadership contend attempted_row
  read_leadership-attempt_leadership b now table = ground (
    arith,
    lookup-attempt_leadership b now table (fold b.domain),
    str_eq_iff (fold b.domain) (fold b.domain),
    str_eq_iff (fold b.service_id) (fold b.service_id),
  )

  -- Attempts of any backends, in the order in which they reach the server.
  unfoldable pub attempts : List (Backend × ℕ) → ServiceElection → ServiceElection
  attempts [] table = table
  attempts ((b, now) ∷ rest) table = attempts rest (attempt_leadership fold b now table)

  -- No attempt for the domain comes later than five seconds after the last renewal by the holder.
  abbrev pub Renewed : Text → Text → ℕ → List (Backend × ℕ) → Type 0
  Renewed domain holder seen [] = Unit
  Renewed domain holder seen ((b, now) ∷ rest) =
      if collates fold b.domain domain
      then (now ≤ seen + election_expire_seconds)
        × (if collates fold holder b.service_id
            then Renewed domain holder now rest
            else Renewed domain holder seen rest)
      else Renewed domain holder seen rest

  -- The row after an attempt is still the holder's, and says when it was last renewed.
  contend_keeps :
      (b : Backend) (now : ℕ) (row : ElectionRow) (holder : Text)
      → fold row.row_service_id ≡ fold holder
      → now ≤ row.last_seen_active + election_expire_seconds
      → (fold (contend fold b now row).row_service_id ≡ fold holder)
        × ((contend fold b now row).last_seen_active
            ≡ (if collates fold holder b.service_id then now else row.last_seen_active))
  unfolding contend
  contend_keeps b now row holder f h =
      ground (arith, f, str_eq_iff (fold holder) (fold b.service_id))

  -- A backend whose row it is still leads after any attempts of any backends, as long as none for
  -- its domain comes more than five seconds after the last renewal of the row by itself.
  pub attempts_keep_leader :
      (a : Backend) (row : ElectionRow) (steps : List (Backend × ℕ)) (table : ServiceElection)
      → lookup (fold a.domain) table ≡ some row
      → fold row.row_service_id ≡ fold a.service_id
      → Renewed a.domain a.service_id row.last_seen_active steps
      → (read_leadership fold a (attempts steps table)).0 ≡ true
  unfolding attempts read_leadership attempted_row
  attempts_keep_leader a row [] table l f r =
      ground (arith, l, str_eq_iff (fold row.row_service_id) (fold a.service_id))
  attempts_keep_leader a row ((b, now) ∷ steps) table l f r =
      let table' = attempt_leadership fold b now table in
      let kept = contend_keeps b now row a.service_id f in
      ground (
        arith,
        l,
        r,
        str_eq_iff (fold b.domain) (fold a.domain),
        lookup-attempt_leadership b now table (fold a.domain),
        kept,
        attempts_keep_leader a row steps table',
        attempts_keep_leader a (contend fold b now row) steps table',
      )
