-- ===== src/Config/Inherit.antt =====
-- The laws of the adjustments: what a cluster inherits.
use freno.Prelude.{◌≡◌, List, arith, Bool-cases, inl, inr}
use freno.Go.Int.{ℤ, pos, eqb_ℤ}
use freno.Go.Text.{Text}
use freno.Config.Stores.{
  MySqlClusterSettings, MySqlSettings, ProxySqlSettings, VitessSettings, proxysql_is_empty,
  vitess_is_empty,
}
use freno.Config.Adjust.{inherit, text_or, int_or, list_or, inherit_proxysql, inherit_vitess}

text_or_idem : (a b : Text) → text_or (text_or a b) b ≡ text_or a b
unfolding text_or
text_or_idem a b = ground arith

int_or_idem : (a b : ℤ) → int_or (int_or a b) b ≡ int_or a b
unfolding int_or
int_or_idem a b = elim (Bool-cases (eqb_ℤ a (pos 0))) [
  | inl e ↦ rw e (elim (Bool-cases (eqb_ℤ b (pos 0))) [ inl f ↦ rw f | inr f ↦ rw f ])
  | inr e ↦ rw e (rw e)
]

list_or_idem : (a b : List Text) → list_or (list_or a b) b ≡ list_or a b
unfolding list_or
list_or_idem a b = ground arith

inherit_proxysql_same :
    (settings : MySqlSettings) (own : ProxySqlSettings) → inherit_proxysql settings own ≡ own
unfolding inherit_proxysql proxysql_is_empty
inherit_proxysql_same settings own = ground arith

inherit_vitess_idem :
    (settings : MySqlSettings) (own : VitessSettings)
    → inherit_vitess settings (inherit_vitess settings own) ≡ inherit_vitess settings own
unfolding inherit_vitess vitess_is_empty
inherit_vitess_idem settings own = ground arith

-- No cluster inherits ProxySQL settings: the addresses, the user and the password are inherited
-- only where the cluster's settings are not empty, and they are empty where one of the three is
-- missing.
pub proxysql_settings-inherit :
    (settings : MySqlSettings) (cluster : MySqlClusterSettings)
    → (inherit settings cluster).proxysql_settings ≡ cluster.proxysql_settings
unfolding inherit
proxysql_settings-inherit settings cluster =
    inherit_proxysql_same settings cluster.proxysql_settings

-- A cluster that has inherited inherits nothing more from the same settings.
pub inherit_idem :
    (settings : MySqlSettings) (cluster : MySqlClusterSettings)
    → inherit settings (inherit settings cluster) ≡ inherit settings cluster
unfolding inherit
inherit_idem settings cluster =
    simp (text_or_idem, int_or_idem, list_or_idem, inherit_proxysql_same, inherit_vitess_idem)
