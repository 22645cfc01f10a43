-- ===== src/Group/Election/Failover.antt =====
-- A leader that has stopped is replaced.
use freno.Prelude.{
  ℕ, ◌+◌, ◌≡◌, ◌⊎◌, inl, inr, refl, ◌∙◌, ap, Bool, true, false, not, ◌&&◌, ◌||◌, some, List, [],
  ◌∷◌, map, ltb, if◌then◌else◌, Among, All, Bool-cases, arith,
}
use freno.Go.Text.{Text, str_eq_iff, text_eq}
use freno.Go.Dict.{lookup}
use freno.Group.Election.{
  Backend, ElectionRow, ServiceElection, collates, contend, attempt_leadership, read_leadership,
  election_expire_seconds,
}
use freno.Group.Election.Laws.{attempted_row, lookup-attempt_leadership, attempts}

module _ (fold : Text → Text) where
  -- No attempt is of the identity.
  abbrev pub HasStopped : Text → List (Backend × ℕ) → Type 0
  HasStopped service_id steps =
      All (λ step. collates fold step.0.service_id service_id ≡ false) steps

  -- Some attempt for the domain comes more than five seconds after the time.
  abbrev pub has_late : Text → ℕ → List (Backend × ℕ) → Bool
  has_late domain seen [] = false
  has_late domain seen ((b, now) ∷ steps) =
      (collates fold b.domain domain && ltb (seen + election_expire_seconds) now)
      || has_late domain seen steps

  abbrev pub services : List (Backend × ℕ) → List Backend
  services steps = map (λ step. step.0) steps

  -- The row of the domain after an attempt for it.
  lookup-attempted_row :
      (domain : Text) (row : ElectionRow) (b : Backend) (now : ℕ) (table : ServiceElection)
      → lookup (fold domain) table ≡ some row
      → lookup (fold domain) (attempt_leadership fold b now table)
        ≡ (if collates fold b.domain domain then some (contend fold b now row) else some row)
  unfolding attempted_row
  lookup-attempted_row domain row b now table l = ground (
    arith,
    l,
    lookup-attempt_leadership fold b now table (fold domain),
    str_eq_iff (fold b.domain) (fold domain),
  )

  contend_late :
      (b : Backend) (now : ℕ) (row : ElectionRow)
      → ltb (row.last_seen_active + election_expire_seconds) now ≡ true
      → fold (contend fold b now row).row_service_id ≡ fold b.service_id
  unfolding contend
  contend_late b now row k = ground (arith, k)

  contend_early :
      (c b : Backend) (now : ℕ) (row : ElectionRow)
      → fold row.row_service_id ≡ fold c.service_id
      → ltb (row.last_seen_active + election_expire_seconds) now ≡ false
      → fold (contend fold b now row).row_service_id ≡ fold c.service_id
  unfolding contend
  contend_early c b now row f k = ground (arith, f, k)

  -- A leader among the later services is one among all.
  later :
      (c b : Backend) (steps : List (Backend × ℕ)) (table : ServiceElection)
      → ((b' : Backend) × ((c ≡ b') ⊎ Among b' (services steps))
          × ((read_leadership fold b' (attempts fold steps table)).0 ≡ true))
      → (b' : Backend) × ((c ≡ b') ⊎ Among b' (b ∷ services steps))
        × ((read_leadership fold b' (attempts fold steps table)).0 ≡ true)
  later c b steps table (b', inl e, leads) = (b', inl e, leads)
  later c b steps table (b', inr m, leads) = (b', inr (inr m), leads)

  -- Whoever holds the row, or a service of the attempts, leads in the end.
  leader_among :
      (c : Backend) (row : ElectionRow) (steps : List (Backend × ℕ)) (table : ServiceElection)
      → lookup (fold c.domain) table ≡ some row
      → fold row.row_service_id ≡ fold c.service_id
      → (b : Backend) × ((c ≡ b) ⊎ Among b (services steps))
        × ((read_leadership fold b (attempts fold steps table)).0 ≡ true)
  unfolding attempts read_leadership
  leader_among c row [] table l f =
      (c, inl refl, ground (arith, l, str_eq_iff (fold row.row_service_id) (fold c.service_id)))
  leader_among c row ((b, now) ∷ steps) table l f =
      let table' = attempt_leadership fold b now table in
      let row' = contend fold b now row in
      let l' = lookup-attempted_row c.domain row b now table l in
      elim (Bool-cases (collates fold b.domain c.domain)) [
        | inr d ↦ later c b steps table' (leader_among c row steps table' (ground (arith, l', d)) f)
        | inl d ↦ elim (Bool-cases (ltb (row.last_seen_active + election_expire_seconds) now)) [
          | inr k ↦ later c b steps table' (
              leader_among c row' steps table' (ground (arith, l', d))
                (contend_early c b now row f k))
          | inl k ↦
              let (b', m, leads) =
                leader_among b row' steps table'
                  (ap (λ j. lookup j table') ((str_eq_iff (fold b.domain) (fold c.domain)).0 d)
                    ∙ ground (arith, l', d))
                  (contend_late b now row k) in
              (b', inr m, leads)
        ]
      ]

  -- The holder's row stays its own without attempts of it, up to a late one.
  lost :
      (a : Backend) (row : ElectionRow) (steps : List (Backend × ℕ)) (table : ServiceElection)
      → lookup (fold a.domain) table ≡ some row
      → HasStopped a.service_id steps
      → (collates fold row.row_service_id a.service_id
          && not (has_late a.domain row.last_seen_active steps))
        ≡ false
      → (read_leadership fold a (attempts fold steps table)).0 ≡ false
  unfolding attempts read_leadership contend
  lost a row [] table l st h = ground (arith, l, h)
  lost a row ((b, now) ∷ steps) table l (q, st) h =
      let table' = attempt_leadership fold b now table in
      let row' = contend fold b now row in
      ground (
        arith,
        l,
        q,
        st,
        h,
        lookup-attempted_row a.domain row b now table,
        str_eq_iff (fold row.row_service_id) (fold a.service_id),
        str_eq_iff (fold row.row_service_id) (fold b.service_id),
        str_eq_iff (fold b.service_id) (fold a.service_id),
        lost a row steps table',
        lost a row' steps table',
      )

  -- Where the holder of a domain's row makes no attempt any more, and some attempt for the domain
  -- comes more than five seconds after the row was last renewed, the holder no longer leads after
  -- all the attempts, and one of the services that made them does.
  pub attempts_replace_leader :
      (a : Backend) (row : ElectionRow) (steps : List (Backend × ℕ)) (table : ServiceElection)
      → lookup (fold a.domain) table ≡ some row
      → fold row.row_service_id ≡ fold a.service_id
      → HasStopped a.service_id steps
      → has_late a.domain row.last_seen_active steps ≡ true
      → ((read_leadership fold a (attempts fold steps table)).0 ≡ false)
        × ((b : Backend) × Among b (services steps)
            × ((read_leadership fold b (attempts fold steps table)).0 ≡ true))
  attempts_replace_leader a row steps table l f st late =
      let gone = lost a row steps table l st (ground (arith, late)) in
      let (b, m, leads) = leader_among a row steps table l f in
      (
        gone,
        elim m [
          | inr among ↦ (b, among, leads)
          | inl e ↦ absurd (
              ground (
                arith,
                gone,
                leads,
                ap (λ x. (read_leadership fold x (attempts fold steps table)).0) e,
              ))
        ],
      )
