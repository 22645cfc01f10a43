-- ===== src/Throttle/Hosts/Laws.antt =====
-- The laws of skipping hosts: what each operation leaves at each host.
use freno.Prelude.{
  ◌≡◌, refl, Option, none, some, [], ◌∷◌, if◌then◌else◌, arith, Bool-cases, inl, inr,
}
use freno.Go.Text.{Text, str_eq, str_eq_iff, text_eq}
use freno.Go.Dict.{Dict, lookup, KeysOnce}
use freno.Go.Time.{Time, before}
use freno.Cache.Api.{CacheApi, IsSteady, default_expiration, IsSteady-set_default, IsSteady-delete}
use freno.Throttle.State.{Throttler}
use freno.Throttle.Hosts.{skip_end, recover_host, skip_host, recover_expired, expire_skipped_hosts}

module _ ⦃c : CacheApi⦄ where
  -- The end of the skip of a host, where it is skipped.
  abbrev pub skip_of : Throttler → Time → Text → Option Time
  skip_of t now host_name = c.get Time t.skipped_hosts now host_name

  abbrev pub HasSteadyHosts : Throttler → Type 0
  HasSteadyHosts t = IsSteady Time t.skipped_hosts

  pub skip_of-recover_host :
      (t : Throttler) (host_name : Text) (u : Time) (name : Text)
      → skip_of (recover_host t host_name) u name
        ≡ (if str_eq host_name name then none else skip_of t u name)
  unfolding recover_host
  skip_of-recover_host t host_name u name = c.get-delete Time t.skipped_hosts host_name u name

  -- After SkipHost the host is skipped up to the given end, or for an hour where none is given, and
  -- it is recovered where the end has passed. Every other host keeps its own state. The skips
  -- before do not end by the cache's own lifetime, as in a new throttler.
  pub skip_of-skip_host :
      (t : Throttler) (now : Time) (host_name : Text) (expire_at u : Time) (name : Text)
      → HasSteadyHosts t
      → skip_of (skip_host t now host_name expire_at) u name ≡ (
          if str_eq host_name name
          then (if before now (skip_end now expire_at) then some (skip_end now expire_at) else none)
          else skip_of t u name)
  unfolding skip_host
  skip_of-skip_host t now host_name expire_at u name s = ground (
    arith,
    c.get-delete Time t.skipped_hosts host_name u name,
    c.get-set Time t.skipped_hosts now host_name (skip_end now expire_at) default_expiration u name,
    s.no_ttl,
  )

  pub skip_host-HasSteadyHosts :
      (t : Throttler) (now : Time) (host_name : Text) (expire_at : Time)
      → HasSteadyHosts t
      → HasSteadyHosts (skip_host t now host_name expire_at)
  unfolding skip_host
  skip_host-HasSteadyHosts t now host_name expire_at s =
      elim (Bool-cases (before now (skip_end now expire_at))) [
        | inl b ↦
            rw b
              (IsSteady-set_default Time t.skipped_hosts now host_name (skip_end now expire_at) s)
        | inr b ↦ rw b (IsSteady-delete Time t.skipped_hosts host_name s)
      ]

  skip_of-recover_expired :
      (now : Time) (its : Dict Text Time) (t : Throttler) (u : Time) (name : Text)
      → KeysOnce its
      → skip_of (recover_expired now its t) u name ≡ elim (lookup name its) [
        | none ↦ skip_of t u name
        | some e ↦ if before e now then none else skip_of t u name
      ]
  unfolding recover_expired lookup
  skip_of-recover_expired now [] t u name h = refl
  skip_of-recover_expired now ((k, e) ∷ rest) t u name (n, h) = ground (
    arith,
    str_eq_iff k name,
    skip_of-recover_host t k u name,
    skip_of-recover_expired now rest t u name h,
    skip_of-recover_expired now rest (recover_host t k) u name h,
  )

  -- The sweep recovers exactly the hosts whose skip has ended, and keeps every other skip, in a
  -- throttler whose skips do not end by the cache's own lifetime, as in a new one.
  pub skip_of-expire_skipped_hosts :
      (t : Throttler) (now u : Time) (name : Text)
      → HasSteadyHosts t
      → skip_of (expire_skipped_hosts t now) u name
        ≡ elim (skip_of t u name) [ none ↦ none | some e ↦ if before e now then none else some e ]
  unfolding expire_skipped_hosts
  skip_of-expire_skipped_hosts t now u name s = ground (
    arith,
    skip_of-recover_expired now (c.items Time t.skipped_hosts now) t u name
        (c.items-KeysOnce Time t.skipped_hosts now),
    c.lookup-items Time t.skipped_hosts now name,
    s.same now u name,
  )

  pub recover_host-HasSteadyHosts :
      (t : Throttler) (host_name : Text)
      → HasSteadyHosts t
      → HasSteadyHosts (recover_host t host_name)
  unfolding recover_host
  recover_host-HasSteadyHosts t host_name s = IsSteady-delete Time t.skipped_hosts host_name s

  recover_expired-HasSteadyHosts :
      (now : Time) (its : Dict Text Time) (t : Throttler)
      → HasSteadyHosts t
      → HasSteadyHosts (recover_expired now its t)
  unfolding recover_expired
  recover_expired-HasSteadyHosts now [] t s = s
  recover_expired-HasSteadyHosts now ((k, e) ∷ rest) t s =
      recover_expired-HasSteadyHosts now rest (if before e now then recover_host t k else t)
        (elim (Bool-cases (before e now)) [
          | inl b ↦ rw b (recover_host-HasSteadyHosts t k s)
          | inr b ↦ rw b s
        ])

  pub expire_skipped_hosts-HasSteadyHosts :
      (t : Throttler) (now : Time) → HasSteadyHosts t → HasSteadyHosts (expire_skipped_hosts t now)
  unfolding expire_skipped_hosts
  expire_skipped_hosts-HasSteadyHosts t now s =
      recover_expired-HasSteadyHosts now (c.items Time t.skipped_hosts now) t s
