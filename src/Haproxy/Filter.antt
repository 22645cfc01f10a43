-- ===== src/Haproxy/Filter.antt =====
-- The law of FilterThrotllerHosts behind ParseHosts.
use freno.Prelude.{
  ◌<◌, ◌≡◌, ◌≢◌, refl, Option, none, some, List, [], ◌∷◌, arith, count_of, length, ap, inl, inr,
  ◌==◌, ==_iff, Bool-cases,
}
use freno.Go.Text.{Text}
use freno.Haproxy.Host.{BackendHost, filter_throttler_hosts}
use freno.Haproxy.Parser.{HaproxyError, parse_hosts}
use freno.Haproxy.Parser.Laws.{is_up, up_in_transition, in_transition, parse_hosts-Lists}

-- Where the filter keeps no host, every host that is up is in transition.
filter-nil :
    (hosts : List BackendHost)
    → filter_throttler_hosts hosts ≡ []
    → count_of up_in_transition hosts ≡ count_of is_up hosts
unfolding filter_throttler_hosts
filter-nil [] h = refl
filter-nil (host ∷ hosts) h = ground (arith, filter-nil hosts)

none-ne-some : {e : HaproxyError} → ◌≡◌ {A = Option HaproxyError} none (some e) → ⊥
none-ne-some h = cc

-- From a status page of at least two lines that is read without an error, where some host of the
-- pool is up, freno gets at least one host to probe.
pub filter_throttler_hosts-parse_hosts :
    (header line : Text) (lines : List Text) (pool_name : Text) (hosts : List BackendHost)
    → parse_hosts (header ∷ line ∷ lines) pool_name ≡ some (hosts, none)
    → 0 < count_of is_up hosts
    → filter_throttler_hosts hosts ≢ []
filter_throttler_hosts-parse_hosts header line lines pool_name hosts h up n =
    let (listed, missing, all, ups) = parse_hosts-Lists header line lines pool_name hosts none h in
    let full = (==_iff (count_of in_transition hosts) (length hosts)) in
    elim (Bool-cases (count_of in_transition hosts == length hosts)) [
      | inl q ↦
          none-ne-some (all.1 ((λ e. absurd (omega (arith, ap (count_of is_up) e, up))), full.0 q))
      | inr q ↦
          none-ne-some (ups.1 ((up, filter-nil hosts n), λ e. absurd (ground (arith, q, full.1 e))))
    ]
