-- ===== src/Group/Election/System/Invariant.antt =====
-- What holds of a service, the row of its domain and the time, and that each statement keeps it.
use freno.Prelude.{
  ℕ, ◌+◌, ◌≤◌, ◌≡◌, inl, inr, Bool, true, false, Option, none, some, if◌then◌else◌, Option-cases,
  Bool-cases, sym, ◌∙◌, arith,
}
use mathlib.Core.Path.{subst}
use freno.Go.Text.{Text, str_eq, str_eq_iff, text_eq}
use freno.Go.Dict.{lookup}
use freno.Group.Election.{
  Backend, ElectionRow, ServiceElection, election_expire_seconds, collates, contend,
  attempt_leadership, read_leadership, read_election,
}
use freno.Group.Election.Laws.{attempted_row, lookup-attempt_leadership}
use freno.Group.Election.System.{
  Stage, waiting, attempted, Member, new_member, renewal, read_member,
}

-- The time of the attempt that a service is about to read after.
abbrev pub attempt_time : Stage → ℕ
attempt_time waiting = 0
attempt_time (attempted none) = 0
attempt_time (attempted (some time)) = time

module _ (fold : Text → Text) where
  abbrev pub entry : Backend → ServiceElection → Option ElectionRow
  entry b table = lookup (fold b.domain) table

  abbrev pub holds : Backend → Option ElectionRow → Bool
  holds b none = false
  holds b (some row) = collates fold row.row_service_id b.service_id

  -- Where the row is the backend's own, it was last renewed at the time or later.
  abbrev pub RenewedSince : Backend → ℕ → Option ElectionRow → Type 0
  RenewedSince b time none = Unit
  RenewedSince b time (some row) =
      collates fold row.row_service_id b.service_id ≡ true → time ≤ row.last_seen_active

  -- What holds of a service, the row of its domain and the time: its attempts are past, the row
  -- shows them where it is the service's own, and it is where the service leads and has not been
  -- out of touch.
  pub record IsInTouch (now : ℕ) (e : Option ElectionRow) (m : Member) : Type 0 where
    pub renewed_past : m.renewed ≤ now
    pub attempt_past : attempt_time m.stage ≤ now
    pub renewed_shows : RenewedSince m.backend m.renewed e
    pub attempt_shows : RenewedSince m.backend (attempt_time m.stage) e
    pub leads :
        m.backend.leader_state ≡ true
        → now ≤ m.renewed + election_expire_seconds
        → holds m.backend e ≡ true

  pub new_member-IsInTouch :
      (now : ℕ) (e : Option ElectionRow) (b : Backend) → IsInTouch now e (new_member b)
  new_member-IsInTouch now none b = ground arith
  new_member-IsInTouch now (some row) b = ground arith

  -- The row after an attempt, by the row before.
  abbrev next_row : Backend → ℕ → Option ElectionRow → ElectionRow
  next_row b now none = record {
    row_domain = b.domain;
    row_share_domain = b.share_domain;
    row_service_id = b.service_id;
    last_seen_active = now;
  }
  next_row b now (some row) = contend fold b now row

  RenewedSince-next_row :
      (b c : Backend) (now time : ℕ) (e : Option ElectionRow)
      → time ≤ now
      → RenewedSince c time e
      → RenewedSince c time (some (next_row b now e))
  unfolding contend
  RenewedSince-next_row b c now time none p h = ground (arith, p)
  RenewedSince-next_row b c now time (some row) p h =
      ground (arith, p, h, str_eq_iff (fold b.service_id) (fold b.service_id))

  holds-next_row :
      (b c : Backend) (now time : ℕ) (e : Option ElectionRow)
      → now ≤ time + election_expire_seconds
      → RenewedSince c time e
      → holds c e ≡ true
      → holds c (some (next_row b now e)) ≡ true
  unfolding contend
  holds-next_row b c now time none p h k = absurd (ground (arith, k))
  holds-next_row b c now time (some row) p h k = ground (arith, p, h, k)

  next_row-IsInTouch :
      (b : Backend) (now : ℕ) (e : Option ElectionRow) (m : Member)
      → IsInTouch now e m
      → IsInTouch now (some (next_row b now e)) m
  next_row-IsInTouch b now e m h = record {
    renewed_past = h.renewed_past;
    attempt_past = h.attempt_past;
    renewed_shows =
        RenewedSince-next_row b m.backend now m.renewed e h.renewed_past h.renewed_shows;
    attempt_shows =
        RenewedSince-next_row b m.backend now (attempt_time m.stage) e h.attempt_past
          h.attempt_shows;
    leads = λ l p. holds-next_row b m.backend now m.renewed e p h.renewed_shows (h.leads l p);
  }

  -- The service's own attempt.
  own_attempt :
      (b : Backend) (now : ℕ) (e : Option ElectionRow)
      → RenewedSince b now (some (next_row b now e))
  unfolding contend
  own_attempt b now none = ground arith
  own_attempt b now (some row) = ground (arith, str_eq_iff (fold b.service_id) (fold b.service_id))

  lookup-next_row :
      (b : Backend) (now : ℕ) (table : ServiceElection) (domain : Text)
      → lookup (fold domain) (attempt_leadership fold b now table) ≡ (
          if str_eq (fold b.domain) (fold domain)
          then some (next_row b now (lookup (fold domain) table))
          else lookup (fold domain) table)
  unfolding attempted_row
  lookup-next_row b now table domain = elim (Option-cases (lookup (fold domain) table)) [
    | inl e ↦ ground (
      arith,
      e,
      lookup-attempt_leadership fold b now table (fold domain),
      str_eq_iff (fold b.domain) (fold domain),
    )
    | inr (row, e) ↦ ground (
      arith,
      e,
      lookup-attempt_leadership fold b now table (fold domain),
      str_eq_iff (fold b.domain) (fold domain),
    )
  ]

  pub attempt_leadership-IsInTouch :
      (b : Backend) (now : ℕ) (table : ServiceElection) (m : Member)
      → IsInTouch now (entry m.backend table) m
      → IsInTouch now (entry m.backend (attempt_leadership fold b now table)) m
  attempt_leadership-IsInTouch b now table m h =
      elim (Bool-cases (str_eq (fold b.domain) (fold m.backend.domain))) [
        | inl d ↦
            subst (λ e. IsInTouch now e m)
              (sym (ground (arith, d, lookup-next_row b now table m.backend.domain)))
              (next_row-IsInTouch b now (entry m.backend table) m h)
        | inr d ↦
            subst (λ e. IsInTouch now e m)
              (sym (ground (arith, d, lookup-next_row b now table m.backend.domain))) h
      ]

  pub attempt_reached :
      (now : ℕ) (table : ServiceElection) (m : Member)
      → IsInTouch now (entry m.backend table) m
      → IsInTouch now
          (entry m.backend (attempt_leadership fold m.backend now table))
          (record m { stage = attempted (some now) })
  attempt_reached now table m h =
      let kept = attempt_leadership-IsInTouch m.backend now table m h in
      record {
        renewed_past = kept.renewed_past;
        attempt_past = ground arith;
        renewed_shows = kept.renewed_shows;
        attempt_shows =
            subst (RenewedSince m.backend now)
              {x = some (next_row m.backend now (entry m.backend table))}
              (sym (
                ground (
                  arith,
                  str_eq_iff (fold m.backend.domain) (fold m.backend.domain),
                  lookup-next_row m.backend now table m.backend.domain,
                )))
              (own_attempt m.backend now (entry m.backend table));
        leads = kept.leads;
      }

  pub attempt_lost :
      (now : ℕ) (e : Option ElectionRow) (m : Member)
      → IsInTouch now e m
      → IsInTouch now e (record m { stage = attempted none })
  attempt_lost now none m h = ground (arith, h)
  attempt_lost now (some row) m h = ground (arith, h)

  renewal_cases :
      (P : ℕ → Type 0) (ok : Bool) (stage : Stage) (renewed : ℕ)
      → P renewed
      → P (attempt_time stage)
      → P (renewal ok stage renewed)
  unfolding renewal
  renewal_cases P false stage renewed p q = p
  renewal_cases P true waiting renewed p q = p
  renewal_cases P true (attempted none) renewed p q = p
  renewal_cases P true (attempted (some time)) renewed p q = q

  RenewedSince-zero : (b : Backend) (e : Option ElectionRow) → RenewedSince b 0 e
  RenewedSince-zero b none = tt
  RenewedSince-zero b (some row) = λ h. omega arith

  read_leadership-holds :
      (b : Backend) (table : ServiceElection)
      → (read_leadership fold b table).0 ≡ holds b (entry b table)
  unfolding read_leadership
  read_leadership-holds b table = elim (Option-cases (entry b table)) [
    | inl e ↦ ground (arith, e)
    | inr (row, e) ↦ ground (arith, e)
  ]

  pub read-IsInTouch :
      (ok : Bool) (now : ℕ) (table : ServiceElection) (m : Member)
      → IsInTouch now (entry m.backend table) m
      → IsInTouch now
          (entry (read_member fold ok table m).backend table)
          (read_member fold ok table m)
  unfolding read_member read_election renewal
  read-IsInTouch true now table m h = record {
    renewed_past =
        renewal_cases (λ t. t ≤ now) true m.stage m.renewed h.renewed_past h.attempt_past;
    attempt_past = omega arith;
    renewed_shows =
        renewal_cases (λ t. RenewedSince m.backend t (entry m.backend table)) true m.stage m.renewed
          h.renewed_shows h.attempt_shows;
    attempt_shows = RenewedSince-zero m.backend (entry m.backend table);
    leads = λ l p. sym (read_leadership-holds m.backend table) ∙ l;
  }
  read-IsInTouch false now table m h = record {
    renewed_past = h.renewed_past;
    attempt_past = omega arith;
    renewed_shows = h.renewed_shows;
    attempt_shows = RenewedSince-zero m.backend (entry m.backend table);
    leads = h.leads;
  }

  pub later-IsInTouch :
      (now later : ℕ) (e : Option ElectionRow) (m : Member)
      → now ≤ later
      → IsInTouch now e m
      → IsInTouch later e m
  later-IsInTouch now later e m p h = record {
    renewed_past = omega (arith, p, h.renewed_past);
    attempt_past = omega (arith, p, h.attempt_past);
    renewed_shows = h.renewed_shows;
    attempt_shows = h.attempt_shows;
    leads = λ l q. h.leads l (omega (arith, p, q));
  }
