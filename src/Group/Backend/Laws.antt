-- ===== src/Group/Backend/Laws.antt =====
-- What a service takes over from the tables.
use freno.Prelude.{
  ℕ, suc, ◌+◌, ◌-◌, ◌*◌, ◌^◌, ◌≤◌, ◌<◌, ◌≡◌, ◌⊎◌, refl, ◌∙◌, inl, inr, ◌==◌, ltb, ◌||◌, Option,
  none, some, [], ◌∷◌, if◌then◌else◌, arith,
}
use freno.Go.Text.{Text, str_eq_iff, text_eq}
use freno.Go.Int.{negsuc, scale64, scale64_exact, ltb_ℤ}
use freno.Go.Float.{Float, float_zero, float_one}
use freno.Go.Dict.{Dict, lookup, KeysOnce}
use freno.Go.Time.{Time, before, is_zero, second, add_duration}
use freno.Base.Metric.{AppThrottle}
use freno.Cache.Api.{CacheApi}
use freno.Throttle.State.{Throttler}
use freno.Throttle.Apps.{throttle_app, next_throttle}
use freno.Throttle.Apps.Laws.{
  HasSteadyApps, throttle_of, throttle_of-throttle_app, throttle_app-HasSteadyApps,
}
use freno.Group.Backend.{Clock, ThrottledRow, ttl_seconds, row_expiry, read_throttled_apps}

-- The ratio of a row, or where that is negative the one of the throttle that is there, or else 1.
abbrev pub ratio_taken : Float → Option AppThrottle → Float
ratio_taken ratio none = if ltb_ℤ ratio float_zero then float_one else ratio
ratio_taken ratio (some old) = if ltb_ℤ ratio float_zero then old.ratio else ratio

-- The throttle that a service gets from a row: without an end where the row has none or ends in
-- this second, for as many seconds as the row has left, or no throttle where the row has ended.
abbrev pub taken_over : Clock → ThrottledRow → Option AppThrottle → Option AppThrottle
taken_over clock row old =
    let ratio = ratio_taken row.row_ratio old in
    elim row.expires_at [
      | none ↦ some (record { expire_at = 0; ratio = ratio })
      | some expires ↦
          if ltb clock.db_now expires
          then some
              (record { expire_at = clock.now + (expires - clock.db_now) * second; ratio = ratio })
          else if expires == clock.db_now
          then some (record { expire_at = 0; ratio = ratio })
          else none
    ]

-- The time to the row's end, or since then, fits a duration, and an end in the past is still after
-- the start of year 1.
abbrev pub EndFits : Clock → Option ℕ → Type 0
EndFits clock none = Unit
EndFits clock (some expires) =
    ((expires - clock.db_now) * second ≤ 2 ^ 63 - 1)
    × ((clock.db_now - expires) * second ≤ 2 ^ 63 - 1)
    × ((clock.db_now ≤ expires) ⊎ ((clock.db_now - expires) * second < clock.now))

-- A row that is found, if any.
abbrev pub FoundFits : Clock → Option ThrottledRow → Type 0
FoundFits clock none = Unit
FoundFits clock (some row) = EndFits clock row.expires_at

scale64_past :
    (k n : ℕ) → suc n * k ≤ 2 ^ 63 - 1 → 0 < k → scale64 k (negsuc n) ≡ negsuc (suc n * k - 1)
unfolding scale64
scale64_past k n h p = ground arith

row_expiry_later :
    (clock : Clock) (expires : ℕ)
    → clock.db_now < expires
    → (expires - clock.db_now) * second ≤ 2 ^ 63 - 1
    → row_expiry clock (some expires) ≡ clock.now + (expires - clock.db_now) * second
unfolding row_expiry ttl_seconds add_duration
row_expiry_later clock expires h f = ground (arith, scale64_exact second (expires - clock.db_now) f)

row_expiry_now :
    (clock : Clock) (expires : ℕ) → expires ≡ clock.db_now → row_expiry clock (some expires) ≡ 0
unfolding row_expiry ttl_seconds
row_expiry_now clock expires h = ground (arith, h)

row_expiry_past :
    (clock : Clock) (expires : ℕ)
    → expires < clock.db_now
    → (clock.db_now - expires) * second ≤ 2 ^ 63 - 1
    → row_expiry clock (some expires) ≡ clock.now - (clock.db_now - expires) * second
unfolding row_expiry ttl_seconds add_duration
row_expiry_past clock expires h f =
    ground (
      arith,
      h,
      scale64_past second (clock.db_now - expires - 1) (omega (arith, f, h)) (omega arith),
    )

pub next_throttle-ratio_taken :
    (old : Option AppThrottle) (expire_at : Time) (ratio : Float)
    → next_throttle old expire_at ratio
      ≡ record { expire_at = expire_at; ratio = ratio_taken ratio old }
unfolding next_throttle
next_throttle-ratio_taken none expire_at ratio = ground arith
next_throttle-ratio_taken (some old) expire_at ratio = ground arith

lt_cases : (m n : ℕ) → (m < n) ⊎ ((m ≡ n) ⊎ (n < m))
lt_cases m n = ground arith

module _ ⦃c : CacheApi⦄ where
  -- The entry that the code makes of the one that is there.
  abbrev next_entry : Clock → ThrottledRow → Option AppThrottle → Option AppThrottle
  next_entry clock row old =
      let expire_at = row_expiry clock row.expires_at in
      if is_zero expire_at || before clock.now expire_at
      then some (next_throttle old expire_at row.row_ratio)
      else none

  throttle_of-rows :
      (rows : Dict Text ThrottledRow) (clock : Clock) (t : Throttler) (u : Time) (name : Text)
      → HasSteadyApps t
      → KeysOnce rows
      → throttle_of (read_throttled_apps clock rows t) u name ≡ elim (lookup name rows) [
        | none ↦ throttle_of t u name
        | some row ↦ next_entry clock row (throttle_of t u name)
      ]
  unfolding read_throttled_apps lookup
  throttle_of-rows [] clock t u name s k = refl
  throttle_of-rows ((app_name, row) ∷ rows) clock t u name s (n, k) =
      let expire_at = row_expiry clock row.expires_at in
      let t' = throttle_app t clock.now app_name expire_at row.row_ratio in
      ground (
        arith,
        str_eq_iff app_name name,
        s.same clock.now u app_name,
        throttle_of-throttle_app t clock.now app_name expire_at row.row_ratio u name s,
        throttle_of-rows rows clock t' u name
            (throttle_app-HasSteadyApps t clock.now app_name expire_at row.row_ratio s) k,
      )

  -- It is the throttle that the row stands for.
  next_entry_lem :
      (clock : Clock) (expires : Option ℕ) (ratio : Float) (old : Option AppThrottle)
      → EndFits clock expires
      → next_entry clock (record { expires_at = expires; row_ratio = ratio }) old
        ≡ taken_over clock (record { expires_at = expires; row_ratio = ratio }) old
  unfolding row_expiry ttl_seconds
  next_entry_lem clock none ratio old f = rw (next_throttle-ratio_taken old 0 ratio) refl
  next_entry_lem clock (some expires) ratio old (f, p, q) = elim (lt_cases expires clock.db_now) [
    | inl h ↦ ground (arith, h, q, row_expiry_past clock expires h p)
    | inr (inl h) ↦
        rw (row_expiry_now clock expires h, next_throttle-ratio_taken old 0 ratio)
          (ground (arith, h))
    | inr (inr h) ↦
        let end = clock.now + (expires - clock.db_now) * second in
        rw (row_expiry_later clock expires h f, next_throttle-ratio_taken old end ratio)
          (ground (arith, h))
  ]

  next_entry_found :
      (clock : Clock) (found : Option ThrottledRow) (old : Option AppThrottle)
      → FoundFits clock found
      → elim found [ none ↦ old | some row ↦ next_entry clock row old ]
        ≡ elim found [ none ↦ old | some row ↦ taken_over clock row old ]
  next_entry_found clock none old f = refl
  next_entry_found clock (some row) old f = next_entry_lem clock row.expires_at row.row_ratio old f

  -- A service that reads the table, each app of which has one row, keeps the throttle of an app
  -- without a row. An app with a row has, on the service's own clock, a throttle for as many
  -- seconds as the row has left, a throttle without an end where the row has no end or ends in this
  -- very second, and no throttle where the row has ended. Its ratio is the row's, or where that is
  -- negative the one of the app's throttle before, or else 1. The seconds to the app's end, or
  -- since then, fit a duration, an end in the past is after the start of year 1, and the throttles
  -- of the service do not end by the cache's own lifetime, as in a new throttler.
  pub throttle_of-read_throttled_apps :
      (rows : Dict Text ThrottledRow) (clock : Clock) (t : Throttler) (u : Time) (name : Text)
      → HasSteadyApps t
      → KeysOnce rows
      → FoundFits clock (lookup name rows)
      → throttle_of (read_throttled_apps clock rows t) u name ≡ elim (lookup name rows) [
        | none ↦ throttle_of t u name
        | some row ↦ taken_over clock row (throttle_of t u name)
      ]
  throttle_of-read_throttled_apps rows clock t u name s k f =
      throttle_of-rows rows clock t u name s k
      ∙ next_entry_found clock (lookup name rows) (throttle_of t u name) f
