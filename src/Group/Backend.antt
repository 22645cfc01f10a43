-- ===== src/Group/Backend.antt =====
-- pkg/group/mysql.go: the tables throttled_apps and skipped_hosts, the operations that write them,
-- and the reads with which a new leader takes them over. A name is the key of its row, compared
-- byte by byte. Go's clock counts nanoseconds and the server's clock seconds. `db_ok` says whether
-- the statement reaches the server: its error is answered, and the throttler is changed anyway.
pub mod Laws
use freno.Prelude.{
  ℕ, ◌+◌, ◌-◌, ◌*◌, Bool, true, false, Option, none, some, List, [], ◌∷◌, if◌then◌else◌,
}
use freno.Go.Text.{Text, text_eq}
use freno.Go.Int.{ℤ, pos, negsuc, eqb_ℤ, ltb_ℤ, sub_ℕ, scale64}
use freno.Go.Float.{Float}
use freno.Go.Dict.{Dict, lookup, insert}
use freno.Go.Time.{Time, time_zero, second, add_duration}
use freno.Cache.Api.{CacheApi}
use freno.Throttle.State.{Throttler}
use freno.Throttle.Apps.{throttle_app, unthrottle_app}
use freno.Throttle.Hosts.{skip_host, recover_host, default_skip_ttl_minutes}

-- A row of throttled_apps; `none` is null.
pub record ThrottledRow : Type 0 where
  pub expires_at : Option ℕ
  pub row_ratio : Float

-- Both clocks.
pub record Clock : Type 0 where
  pub now : Time
  pub db_now : ℕ

-- timestampdiff(second, now(), coalesce(expires_at, now()))
unfoldable pub ttl_seconds : ℕ → Option ℕ → ℤ
ttl_seconds db_now none = pos 0
ttl_seconds db_now (some expires) = sub_ℕ expires db_now

-- The end of a throttle that is read from a row: the zero time where no second is left.
unfoldable pub row_expiry : Clock → Option ℕ → Time
unfolding ttl_seconds
row_expiry clock expires =
    if eqb_ℤ (ttl_seconds clock.db_now expires) (pos 0)
    then time_zero
    else add_duration clock.now (scale64 second (ttl_seconds clock.db_now expires))

-- now() + interval ? minute, for a number of minutes that keeps it after the epoch.
unfoldable pub minutes_later : ℕ → ℤ → ℕ
minutes_later db_now (pos n) = db_now + n * 60
minutes_later db_now (negsuc n) = db_now - (n + 1) * 60

-- The row that the two statements of ThrottleApp leave.
unfoldable pub throttled_row : ℕ → ℤ → Float → ThrottledRow
unfolding minutes_later
throttled_row db_now ttl_minutes ratio = record {
  expires_at = if ltb_ℤ (pos 0) ttl_minutes then some (minutes_later db_now ttl_minutes) else none;
  row_ratio = ratio;
}

-- update ... set expires_at=now() where the row is there.
unfoldable pub end_row : ℕ → Text → Dict Text ThrottledRow → Dict Text ThrottledRow
end_row db_now name rows = elim (lookup name rows) [
  | none ↦ rows
  | some row ↦ insert name (record row { expires_at = some db_now }) rows
]

module _ ⦃c : CacheApi⦄ where
  -- The throttler of one service and the tables that all services share.
  pub record Stored : Type 0 where
    pub throttler : Throttler
    pub throttled_rows : Dict Text ThrottledRow
    pub skipped_rows : Dict Text ℕ

  unfoldable pub throttle : Stored → Clock → Bool → Text → ℤ → Time → Float → Stored × Bool
  unfolding throttled_row
  throttle s clock db_ok app_name ttl_minutes expire_at ratio = (
    record s {
      throttler = throttle_app s.throttler clock.now app_name expire_at ratio;
      throttled_rows =
          if db_ok
          then insert app_name (throttled_row clock.db_now ttl_minutes ratio) s.throttled_rows
          else s.throttled_rows;
    },
    db_ok,
  )

  unfoldable pub unthrottle : Stored → Clock → Bool → Text → Stored × Bool
  unfolding end_row
  unthrottle s clock db_ok app_name = (
    record s {
      throttler = unthrottle_app s.throttler app_name;
      throttled_rows =
          if db_ok then end_row clock.db_now app_name s.throttled_rows else s.throttled_rows;
    },
    db_ok,
  )

  unfoldable pub skip : Stored → Clock → Bool → Text → ℤ → Time → Stored × Bool
  unfolding minutes_later
  skip s clock db_ok host_name ttl_minutes expire_at =
      let ttl = if eqb_ℤ ttl_minutes (pos 0) then pos default_skip_ttl_minutes else ttl_minutes in
      (
        record s {
          throttler = skip_host s.throttler clock.now host_name expire_at;
          skipped_rows =
              if db_ok
              then insert host_name (minutes_later clock.db_now ttl) s.skipped_rows
              else s.skipped_rows;
        },
        db_ok,
      )

  unfoldable pub recover : Stored → Clock → Bool → Text → Stored × Bool
  recover s clock db_ok host_name = (
    record s {
      throttler = recover_host s.throttler host_name;
      skipped_rows = elim (lookup host_name s.skipped_rows) [
        | none ↦ s.skipped_rows
        | some expires ↦
            if db_ok then insert host_name clock.db_now s.skipped_rows else s.skipped_rows
      ];
    },
    db_ok,
  )

  -- The rows in turn. The program starts the operation on each row as a goroutine.
  unfoldable pub read_throttled_apps : Clock → Dict Text ThrottledRow → Throttler → Throttler
  unfolding row_expiry
  read_throttled_apps clock [] t = t
  read_throttled_apps clock ((app_name, row) ∷ rows) t =
      read_throttled_apps clock rows
        (throttle_app t clock.now app_name (row_expiry clock row.expires_at) row.row_ratio)

  unfoldable pub read_skipped_hosts : Clock → Dict Text ℕ → Throttler → Throttler
  read_skipped_hosts clock [] t = t
  read_skipped_hosts clock ((host_name, expires) ∷ rows) t = read_skipped_hosts clock rows (
      skip_host t clock.now host_name
        (add_duration clock.now (scale64 second (sub_ℕ expires clock.db_now))))

  -- onLeaderStateChange
  unfoldable pub on_leader_state_change : Stored → Clock → Bool → Stored
  on_leader_state_change s clock new_leader_state =
      if new_leader_state
      then record s {
        throttler =
            read_skipped_hosts clock s.skipped_rows
              (read_throttled_apps clock s.throttled_rows s.throttler);
      }
      else s
