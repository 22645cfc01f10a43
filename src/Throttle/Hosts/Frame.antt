-- ===== src/Throttle/Hosts/Frame.antt =====
-- The frame of skipping hosts: the operations change nothing but the skips.
use freno.Prelude.{◌∙◌, ap, if_keeps, ◌≡◌, refl, [], ◌∷◌, if◌then◌else◌, Bool-cases, inl, inr}
use freno.Go.Text.{Text, text_eq}
use freno.Go.Dict.{Dict}
use freno.Go.Time.{Time, before}
use freno.Cache.Api.{CacheApi}
use freno.Throttle.State.{Throttler}
use freno.Throttle.Hosts.{skip_end, recover_host, skip_host, recover_expired, expire_skipped_hosts}

module _ ⦃c : CacheApi⦄ where
  -- The second state is the first but for the skips.
  abbrev Frames : Throttler → Throttler → Type 0
  Frames t t' = t' ≡ record t { skipped_hosts = t'.skipped_hosts }

  Frames-trans : (t t' t'' : Throttler) → Frames t t' → Frames t' t'' → Frames t t''
  Frames-trans t t' t'' p q =
      q ∙ ap (λ (x : Throttler). record x { skipped_hosts = t''.skipped_hosts }) p

  -- Nothing but the skips changes.
  pub skip_host_frame :
      (t : Throttler) (now : Time) (host_name : Text) (expire_at : Time)
      → skip_host t now host_name expire_at
        ≡ record t { skipped_hosts = (skip_host t now host_name expire_at).skipped_hosts }
  unfolding skip_host recover_host
  skip_host_frame t now host_name expire_at =
      elim (Bool-cases (before now (skip_end now expire_at))) [
        | inl b ↦ rw b refl
        | inr b ↦ rw b refl
      ]

  recover_expired_frame :
      (now : Time) (its : Dict Text Time) (t : Throttler) → Frames t (recover_expired now its t)
  unfolding recover_expired recover_host
  recover_expired_frame now [] t = refl
  recover_expired_frame now ((k, e) ∷ rest) t =
      let t' = if before e now then recover_host t k else t in
      Frames-trans t t' (recover_expired now rest t')
        (if_keeps (Frames t) (before e now) (recover_host t k) t refl refl)
        (recover_expired_frame now rest t')

  pub expire_skipped_hosts_frame :
      (t : Throttler) (now : Time)
      → expire_skipped_hosts t now
        ≡ record t { skipped_hosts = (expire_skipped_hosts t now).skipped_hosts }
  unfolding expire_skipped_hosts
  expire_skipped_hosts_frame t now = recover_expired_frame now (c.items Time t.skipped_hosts now) t
