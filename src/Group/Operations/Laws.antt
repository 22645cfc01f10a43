-- ===== src/Group/Operations/Laws.antt =====
-- A service that becomes the leader takes the throttles over: they outlive the leader that set them.
use freno.Prelude.{
  ℕ, suc, ◌+◌, ◌-◌, ◌*◌, ◌^◌, ◌≤◌, ◌<◌, ◌≡◌, inl, refl, ◌∙◌, ap, sym, true, false, Option, none,
  some, [], ◌∷◌, arith,
}
use mathlib.Core.Path.{subst}
use freno.Go.Text.{Text, codes, str_eq_iff, text_eq}
use freno.Go.Int.{pos, ltb_ℤ, sub_ℕ, scale64}
use freno.Go.Float.{Float, float_zero}
use freno.Go.Dict.{Dict, lookup, lookup-insert, insert-KeysOnce, KeysOnce}
use freno.Go.Time.{Time, second, add_duration}
use freno.Base.Metric.{AppThrottle}
use freno.Cache.Api.{CacheApi}
use freno.Throttle.State.{Throttler}
use freno.Throttle.Apps.{throttle_app}
use freno.Throttle.Apps.Laws.{HasSteadyApps, throttle_of, throttle_app-HasSteadyApps}
use freno.Throttle.Hosts.{skip_host}
use freno.Throttle.Hosts.Frame.{skip_host_frame}
use freno.Throttle.Check.{CheckFlags, check, status_expectation_failed}
use freno.Throttle.Run.Between.{Between, check-Between}
use freno.Group.Election.Laws.{leaves_to, read_leadership-attempt_leadership}
use freno.Group.Backend.{
  Stored, Clock, ThrottledRow, throttle, throttled_row, minutes_later, row_expiry,
  read_throttled_apps, read_skipped_hosts, on_leader_state_change,
}
use freno.Group.Backend.Laws.{EndFits, FoundFits, taken_over, throttle_of-read_throttled_apps}
use freno.Group.Operations.{Service, elections, note_leadership, tick}

-- A row that is written for `n` minutes and read before its end stands for the throttle of the rest
-- of these minutes.
EndFits-throttled_row :
    (written read : Clock) (n : ℕ) (ratio : Float)
    → read.db_now < written.db_now + suc n * 60
    → (written.db_now + suc n * 60 - read.db_now) * second ≤ 2 ^ 63 - 1
    → EndFits read (throttled_row written.db_now (pos (suc n)) ratio).expires_at
unfolding throttled_row minutes_later
EndFits-throttled_row written read n ratio h b =
    let end : (throttled_row written.db_now (pos (suc n)) ratio).expires_at
        ≡ some (written.db_now + suc n * 60) =
      ground arith in
    subst (EndFits read) (sym end) (b, omega (arith, h), inl (omega (arith, h)))

taken_over-throttled_row :
    (written read : Clock) (n : ℕ) (ratio : Float) (old : Option AppThrottle)
    → read.db_now < written.db_now + suc n * 60
    → ltb_ℤ ratio float_zero ≡ false
    → taken_over read (throttled_row written.db_now (pos (suc n)) ratio) old
      ≡ some (record {
        expire_at = read.now + (written.db_now + suc n * 60 - read.db_now) * second;
        ratio = ratio;
      })
unfolding throttled_row minutes_later
taken_over-throttled_row written read n ratio none h z = ground (arith, h, z)
taken_over-throttled_row written read n ratio (some old) h z = ground (arith, h, z)

module _ ⦃c : CacheApi⦄ where
  read_throttled_apps-HasSteadyApps :
      (rows : Dict Text ThrottledRow) (clock : Clock) (t : Throttler)
      → HasSteadyApps t
      → HasSteadyApps (read_throttled_apps clock rows t)
  unfolding read_throttled_apps
  read_throttled_apps-HasSteadyApps [] clock t s = s
  read_throttled_apps-HasSteadyApps ((app_name, row) ∷ rows) clock t s =
      let end = row_expiry clock row.expires_at in
      read_throttled_apps-HasSteadyApps rows clock
        (throttle_app t clock.now app_name end row.row_ratio)
        (throttle_app-HasSteadyApps t clock.now app_name end row.row_ratio s)

  read_skipped_hosts-HasSteadyApps :
      (rows : Dict Text ℕ) (clock : Clock) (t : Throttler)
      → HasSteadyApps t
      → HasSteadyApps (read_skipped_hosts clock rows t)
  unfolding read_skipped_hosts
  read_skipped_hosts-HasSteadyApps [] clock t s = s
  read_skipped_hosts-HasSteadyApps ((host_name, expires) ∷ rows) clock t s =
      let end = add_duration clock.now (scale64 second (sub_ℕ expires clock.db_now)) in
      read_skipped_hosts-HasSteadyApps rows clock (skip_host t clock.now host_name end)
        (subst HasSteadyApps (sym (skip_host_frame t clock.now host_name end)) s)

  -- The skips change no throttle.
  throttle_of-read_skipped_hosts :
      (rows : Dict Text ℕ) (clock : Clock) (t : Throttler) (u : Time) (name : Text)
      → throttle_of (read_skipped_hosts clock rows t) u name ≡ throttle_of t u name
  unfolding read_skipped_hosts
  throttle_of-read_skipped_hosts [] clock t u name = refl
  throttle_of-read_skipped_hosts ((host_name, expires) ∷ rows) clock t u name =
      let end = add_duration clock.now (scale64 second (sub_ℕ expires clock.db_now)) in
      throttle_of-read_skipped_hosts rows clock (skip_host t clock.now host_name end) u name
      ∙ ap (λ (x : Throttler). throttle_of x u name) (skip_host_frame t clock.now host_name end)

  module _ (fold : Text → Text) where
    -- The throttles of a service that becomes the leader.
    throttle_of-tick :
        (s : Service) (clock : Clock) (u : Time) (name : Text)
        → HasSteadyApps s.stored.throttler
        → KeysOnce s.stored.throttled_rows
        → FoundFits clock (lookup name s.stored.throttled_rows)
        → s.backend.leader_state ≡ false
        → leaves_to fold s.backend clock.db_now (lookup (fold s.backend.domain) s.election) ≡ true
        → throttle_of (tick fold s clock (elections true true)).stored.throttler u name
          ≡ elim (lookup name s.stored.throttled_rows) [
            | none ↦ throttle_of s.stored.throttler u name
            | some row ↦ taken_over clock row (throttle_of s.stored.throttler u name)
          ]
    unfolding tick note_leadership on_leader_state_change
    throttle_of-tick s clock u name st once fits off free =
        let leads =
          read_leadership-attempt_leadership fold s.backend clock.db_now s.election ∙ free in
        rw (leads, off)
          (throttle_of-read_skipped_hosts s.stored.skipped_rows clock
              (read_throttled_apps clock s.stored.throttled_rows s.stored.throttler) u name
            ∙ throttle_of-read_throttled_apps s.stored.throttled_rows clock s.stored.throttler u
                name st once fits)

    -- The throttle that a service with a row takes over.
    throttle_of-taken_over :
        (s : Service) (written read : Clock) (later : Time) (app_name : Text) (n : ℕ)
        (ratio : Float)
        → HasSteadyApps s.stored.throttler
        → KeysOnce s.stored.throttled_rows
        → lookup app_name s.stored.throttled_rows
          ≡ some (throttled_row written.db_now (pos (suc n)) ratio)
        → s.backend.leader_state ≡ false
        → leaves_to fold s.backend read.db_now (lookup (fold s.backend.domain) s.election) ≡ true
        → ltb_ℤ ratio float_zero ≡ false
        → read.db_now < written.db_now + suc n * 60
        → (written.db_now + suc n * 60 - read.db_now) * second ≤ 2 ^ 63 - 1
        → throttle_of (tick fold s read (elections true true)).stored.throttler later app_name
          ≡ some (record {
            expire_at = read.now + (written.db_now + suc n * 60 - read.db_now) * second;
            ratio = ratio;
          })
    throttle_of-taken_over s written read later app_name n ratio st once row off free z soon b =
        let fits =
          subst (FoundFits read) (sym row) (EndFits-throttled_row written read n ratio soon b) in
        throttle_of-tick s read later app_name st once fits off free
        ∙ rw row (
            taken_over-throttled_row written read n ratio
              (throttle_of s.stored.throttler later app_name) soon z)

    -- The new leader's throttles do not end by the cache's own lifetime either.
    tick-HasSteadyApps :
        (s : Service) (clock : Clock)
        → HasSteadyApps s.stored.throttler
        → s.backend.leader_state ≡ false
        → leaves_to fold s.backend clock.db_now (lookup (fold s.backend.domain) s.election) ≡ true
        → HasSteadyApps (tick fold s clock (elections true true)).stored.throttler
    unfolding tick note_leadership on_leader_state_change
    tick-HasSteadyApps s clock st off free =
        let leads =
          read_leadership-attempt_leadership fold s.backend clock.db_now s.election ∙ free in
        rw (leads, off)
          (read_skipped_hosts-HasSteadyApps s.stored.skipped_rows clock
            (read_throttled_apps clock s.stored.throttled_rows s.stored.throttler)
            (read_throttled_apps-HasSteadyApps s.stored.throttled_rows clock s.stored.throttler st))

    -- A throttle outlives the leader that set it: where a service has stored a throttle of an app
    -- for some minutes, and another one, which finds its row, becomes the leader in its tick before
    -- the row ends, the checks of the app that the new leader answers up to that end, on its own
    -- clock, are answered with 417 if their draws are below the ratio. Between the tick and the
    -- check any events of Operate, operations on other apps and on hosts, checks and self checks
    -- may come, but no throttle or unthrottle of the app, whether it is asked for or comes from
    -- another read of the app's row. The ratio is not negative, the rest of the time fits a
    -- duration, each app had one row, the sweeps of throttles come at the time of the check at the
    -- latest, and the throttles of the new leader do not end by the cache's own lifetime, as in a
    -- new throttler.
    pub check-failover :
        (a : Stored) (s : Service) (written read : Clock) (app_name : Text) (n : ℕ)
        (expire_at : Time) (t' : Throttler) (later : Time) (ratio : Float) (rand : ℕ → Float)
        (store_name remote_addr : Text) (flags : CheckFlags)
        → HasSteadyApps s.stored.throttler
        → KeysOnce a.throttled_rows
        → s.stored.throttled_rows
          ≡ (throttle a written true app_name (pos (suc n)) expire_at ratio).0.throttled_rows
        → s.backend.leader_state ≡ false
        → leaves_to fold s.backend read.db_now (lookup (fold s.backend.domain) s.election) ≡ true
        → ltb_ℤ ratio float_zero ≡ false
        → read.db_now < written.db_now + suc n * 60
        → (written.db_now + suc n * 60 - read.db_now) * second ≤ 2 ^ 63 - 1
        → ((i : ℕ) → ltb_ℤ (rand i) ratio ≡ true)
        → later ≤ read.now + (written.db_now + suc n * 60 - read.db_now) * second
        → Between app_name later (tick fold s read (elections true true)).stored.throttler t'
        → (check t' later rand app_name (codes "mysql") store_name remote_addr flags).0.status_code
          ≡ status_expectation_failed
    unfolding throttle
    check-failover a s written read app_name n expire_at t' later ratio rand store_name remote_addr
          flags st once rows off free z soon b d l m =
        let row = throttled_row written.db_now (pos (suc n)) ratio in
        let found : lookup app_name s.stored.throttled_rows ≡ some row =
          ap (lookup app_name) rows
          ∙ ground (
            arith,
            lookup-insert app_name app_name row a.throttled_rows,
            str_eq_iff app_name app_name,
          ) in
        let once' : KeysOnce s.stored.throttled_rows =
          subst KeysOnce (sym rows) (insert-KeysOnce app_name row a.throttled_rows once) in
        let taken =
          throttle_of-taken_over s written read later app_name n ratio st once' found off free z
            soon b in
        check-Between app_name later _ rand store_name remote_addr flags
          (tick-HasSteadyApps s read st off free) taken (ground (arith, l)) d m
