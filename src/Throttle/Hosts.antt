-- ===== src/Throttle/Hosts.antt =====
-- pkg/throttle/throttler.go: hosts that are skipped for a time. Each operation reads the clock once.
pub mod Laws
pub mod Frame
use freno.Prelude.{◌+◌, ◌*◌, Bool, List, [], ◌∷◌, if◌then◌else◌}
use freno.Go.Text.{Text, text_eq}
use freno.Go.Dict.{Dict}
use freno.Go.Time.{Time, is_zero, before, minute}
use freno.Cache.Api.{CacheApi, default_expiration}
use freno.Throttle.State.{Throttler}
use freno.Prelude.{ℕ}

abbrev pub default_skip_ttl_minutes : ℕ
default_skip_ttl_minutes = 60

-- The end of the skip: an hour from now where none is given.
abbrev pub skip_end : Time → Time → Time
skip_end now expire_at =
    if is_zero expire_at then now + default_skip_ttl_minutes * minute else expire_at

module _ ⦃c : CacheApi⦄ where
  unfoldable pub recover_host : Throttler → Text → Throttler
  recover_host t host_name = record t { skipped_hosts = c.delete Time t.skipped_hosts host_name }

  unfoldable pub skip_host : Throttler → Time → Text → Time → Throttler
  unfolding recover_host
  skip_host t now host_name expire_at =
      let until = skip_end now expire_at in
      if before now until
      then record t {
        skipped_hosts = c.set Time t.skipped_hosts now host_name until default_expiration;
      }
      else recover_host t host_name

  unfoldable pub skipped_hosts_map : Throttler → Time → Dict Text Time
  skipped_hosts_map t now = c.items Time t.skipped_hosts now

  recover_expired : Time → Dict Text Time → Throttler → Throttler
  unfolding recover_host
  recover_expired now [] t = t
  recover_expired now ((host_name, expire_at) ∷ rest) t =
      recover_expired now rest (if before expire_at now then recover_host t host_name else t)

  unfoldable pub expire_skipped_hosts : Throttler → Time → Throttler
  unfolding recover_expired
  expire_skipped_hosts t now = recover_expired now (c.items Time t.skipped_hosts now) t
