-- ===== src/Group/Fsm/Restore.antt =====
-- What a replica has after it has restored a snapshot.
use freno.Prelude.{
  ◌==◌, ltb, ◌+◌, ◌*◌, ◌≡◌, refl, ◌∙◌, ap, sym, true, false, ◌||◌, Option, none, some, [], ◌∷◌,
  arith, if◌then◌else◌,
}
use freno.Go.Text.{Text, str_eq, str_eq_iff, to_lower, text_eq}
use freno.Go.Dict.{Dict, lookup, KeysOnce}
use freno.Go.Time.{Time, minute}
use freno.Base.Metric.{AppThrottle}
use freno.Cache.Api.{CacheApi}
use freno.Throttle.State.{Throttler}
use freno.Throttle.Apps.{throttle_app, throttled_apps_map}
use freno.Throttle.Apps.Frame.{throttle_app_frame}
use freno.Throttle.Apps.Laws.{
  HasSteadyApps, throttle_of, throttle_app-HasSteadyApps, throttle_of-throttle_app,
}
use freno.Throttle.Hosts.{skip_host, skipped_hosts_map}
use freno.Throttle.Hosts.Frame.{skip_host_frame}
use freno.Throttle.Hosts.Laws.{HasSteadyHosts, skip_of, skip_of-skip_host, skip_host-HasSteadyHosts}
use freno.Group.Snapshot.{
  SnapshotData, FieldNames, is_exported, snapshot_data_fields, insert_members, Document, persist,
  persisted, decode_snapshot, marshal_snapshot, filled, new_snapshot_data,
}
use freno.Group.Snapshot.Laws.{
  KeysUtf8, lookup-insert_members, insert_members-KeysOnce, decode_snapshot-not_exported,
  decode_snapshot-exported,
}
use freno.Group.Backend.Laws.{ratio_taken, next_throttle-ratio_taken}
use freno.Group.Fsm.{snapshot, restore_apps, restore_hosts, restore_data, restore}

module _ ⦃c : CacheApi⦄ where
  -- The throttle that a replica makes of one in the snapshot: the same up to its end, and none where
  -- that has passed.
  abbrev pub restored_throttle : Time → Option AppThrottle → Option AppThrottle → Option AppThrottle
  restored_throttle now none old = old
  restored_throttle now (some a) old =
      if a.expire_at == 0 || ltb now a.expire_at
      then some (record { expire_at = a.expire_at; ratio = ratio_taken a.ratio old })
      else none

  -- The end of a skip likewise; a skip without one lasts for an hour.
  abbrev pub restored_skip : Time → Option Time → Option Time → Option Time
  restored_skip now none old = old
  restored_skip now (some e) old =
      if e == 0 then some (now + 60 * minute) else if ltb now e then some e else none

  throttle_of-restore_apps :
      (its : Dict Text AppThrottle) (now : Time) (t : Throttler) (u : Time) (name : Text)
      → HasSteadyApps t
      → KeysOnce its
      → throttle_of (restore_apps now its t) u name
        ≡ restored_throttle now (lookup name its) (throttle_of t u name)
  unfolding restore_apps lookup
  throttle_of-restore_apps [] now t u name s h = refl
  throttle_of-restore_apps ((k, a) ∷ its) now t u name s (n, h) = ground (
    arith,
    n,
    str_eq_iff k name,
    s.same now u k,
    next_throttle-ratio_taken (throttle_of t now k) a.expire_at a.ratio,
    throttle_of-throttle_app t now k a.expire_at a.ratio u name s,
    throttle_of-restore_apps its now (throttle_app t now k a.expire_at a.ratio) u name
        (throttle_app-HasSteadyApps t now k a.expire_at a.ratio s) h,
  )

  skip_of-restore_hosts :
      (its : Dict Text Time) (now : Time) (t : Throttler) (u : Time) (name : Text)
      → HasSteadyHosts t
      → KeysOnce its
      → skip_of (restore_hosts now its t) u name
        ≡ restored_skip now (lookup name its) (skip_of t u name)
  unfolding restore_hosts lookup
  skip_of-restore_hosts [] now t u name s h = refl
  skip_of-restore_hosts ((k, e) ∷ its) now t u name s (n, h) = ground (
    arith,
    n,
    str_eq_iff k name,
    skip_of-skip_host t now k e u name s,
    skip_of-restore_hosts its now (skip_host t now k e) u name
        (skip_host-HasSteadyHosts t now k e s) h,
  )

  -- The throttles and the skips are restored apart from each other.
  throttle_of-restore_hosts :
      (its : Dict Text Time) (now : Time) (t : Throttler) (u : Time) (name : Text)
      → throttle_of (restore_hosts now its t) u name ≡ throttle_of t u name
  unfolding restore_hosts
  throttle_of-restore_hosts [] now t u name = refl
  throttle_of-restore_hosts ((k, e) ∷ its) now t u name =
      throttle_of-restore_hosts its now (skip_host t now k e) u name
      ∙ ap (λ (x : Throttler). throttle_of x u name) (skip_host_frame t now k e)

  skipped_hosts-restore_apps :
      (its : Dict Text AppThrottle) (now : Time) (t : Throttler)
      → (restore_apps now its t).skipped_hosts ≡ t.skipped_hosts
  unfolding restore_apps
  skipped_hosts-restore_apps [] now t = refl
  skipped_hosts-restore_apps ((k, a) ∷ its) now t =
      skipped_hosts-restore_apps its now (throttle_app t now k a.expire_at a.ratio)
      ∙ ap (λ (x : Throttler). x.skipped_hosts) (throttle_app_frame t now k a.expire_at a.ratio)

  -- What a replica has after it has restored data.
  restore_data_lem :
      (contents : SnapshotData) (now : Time) (t : Throttler) (u : Time) (app_name host_name : Text)
      → HasSteadyApps t
      → HasSteadyHosts t
      → KeysOnce contents.throttled_apps
      → KeysOnce contents.skipped_hosts
      → (throttle_of (restore_data now contents t) u app_name
          ≡ restored_throttle now
              (lookup app_name contents.throttled_apps)
              (throttle_of t u app_name))
        × (skip_of (restore_data now contents t) u host_name
            ≡ restored_skip now (lookup host_name contents.skipped_hosts) (skip_of t u host_name))
  unfolding restore_data
  restore_data_lem contents now t u app_name host_name s r h k =
      let t' = restore_apps now contents.throttled_apps t in
      let same = skipped_hosts-restore_apps contents.throttled_apps now t in
      let r' : HasSteadyHosts t' = rw same r in
      (
        throttle_of-restore_hosts contents.skipped_hosts now t' u app_name
            ∙ throttle_of-restore_apps contents.throttled_apps now t u app_name s h,
        skip_of-restore_hosts contents.skipped_hosts now t' u host_name r' k
            ∙ ap
                (λ hosts.
                  restored_skip now (lookup host_name contents.skipped_hosts)
                    (c.get Time hosts u host_name))
                same,
      )

  -- A document that decodes is applied.
  restore-filled :
      (names : FieldNames) (t : Throttler) (now : Time) (document : Document)
      (contents : SnapshotData)
      → decode_snapshot names document ≡ filled contents
      → restore names t now document ≡ some (restore_data now contents t, true)
  unfolding restore
  restore-filled names t now document contents h = rw (restore, h) refl

  -- A snapshot that has been written and is read back restores nothing, whatever it was taken of,
  -- because the names of the fields of snapshotData begin with a lower case letter. With fields
  -- whose names are exported, and differ by more than their case, the replica would have each
  -- throttle of the snapshot up to its end, with its ratio, or none where that has passed, and each
  -- skip likewise, and would keep its own throttles and skips of other names. A negative ratio
  -- would leave the one of the replica's throttle, or be 1, and a skip without an end would last
  -- for an hour. The names of the apps and hosts in the snapshot are UTF-8, and the throttles and
  -- skips of the replica do not end by the caches' own lifetimes, as in a new throttler.
  pub restore-persist :
      (names : FieldNames) (t replica : Throttler) (now later u : Time) (app_name host_name : Text)
      (document document' : Document)
      → is_exported names.apps_field ≡ true
      → is_exported names.hosts_field ≡ true
      → str_eq (to_lower names.hosts_field) (to_lower names.apps_field) ≡ false
      → KeysUtf8 (throttled_apps_map t now)
      → KeysUtf8 (skipped_hosts_map t now)
      → HasSteadyApps replica
      → HasSteadyHosts replica
      → persist snapshot_data_fields true true (snapshot t now) ≡ persisted document
      → persist names true true (snapshot t now) ≡ persisted document'
      → (restore snapshot_data_fields replica later document ≡ some (replica, true))
        × (replica' : Throttler) × (restore names replica later document' ≡ some (replica', true))
        × (throttle_of replica' u app_name
            ≡ restored_throttle later (throttle_of t now app_name) (throttle_of replica u app_name))
        × (skip_of replica' u host_name
            ≡ restored_skip later (skip_of t now host_name) (skip_of replica u host_name))
  unfolding persist restore_data restore_apps restore_hosts snapshot throttled_apps_map
      skipped_hosts_map lookup
  restore-persist names t replica now later u app_name host_name document document' h k d p q s r e
        e' =
      let contents = snapshot t now in
      let back : SnapshotData = record {
        throttled_apps = insert_members contents.throttled_apps [];
        skipped_hosts = insert_members contents.skipped_hosts [];
      } in
      let lost = decode_snapshot-not_exported snapshot_data_fields contents refl refl in
      let kept = decode_snapshot-exported names contents h k d p q in
      let (apps, hosts) =
        restore_data_lem back later replica u app_name host_name s r
          (insert_members-KeysOnce contents.throttled_apps [] tt)
          (insert_members-KeysOnce contents.skipped_hosts [] tt) in
      let first : marshal_snapshot snapshot_data_fields contents ≡ document = ground (arith, e) in
      let second : marshal_snapshot names contents ≡ document' = ground (arith, e') in
      let apps_once = c.items-KeysOnce AppThrottle t.throttled_apps now in
      let hosts_once = c.items-KeysOnce Time t.skipped_hosts now in
      let app_kept : lookup app_name back.throttled_apps ≡ throttle_of t now app_name = ground (
        arith,
        lookup-insert_members (c.items AppThrottle t.throttled_apps now) [] app_name apps_once,
        c.lookup-items AppThrottle t.throttled_apps now app_name,
      ) in
      let host_kept : lookup host_name back.skipped_hosts ≡ skip_of t now host_name = ground (
        arith,
        lookup-insert_members (c.items Time t.skipped_hosts now) [] host_name hosts_once,
        c.lookup-items Time t.skipped_hosts now host_name,
      ) in
      (
        restore-filled snapshot_data_fields replica later document new_snapshot_data
            (ap (decode_snapshot snapshot_data_fields) (sym first) ∙ lost),
        restore_data later back replica,
        restore-filled names replica later document' back
            (ap (decode_snapshot names) (sym second) ∙ kept),
        apps ∙ ap (λ a. restored_throttle later a (throttle_of replica u app_name)) app_kept,
        hosts ∙ ap (λ a. restored_skip later a (skip_of replica u host_name)) host_kept,
      )
