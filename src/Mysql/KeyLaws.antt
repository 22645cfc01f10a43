-- ===== src/Mysql/KeyLaws.antt =====
-- The laws of instance keys: the round trip of their print, and their order.
use freno.Prelude.{◌^◌, ◌≤◌, ◌<◌, ◌≡◌, refl, true, false, ◌∷◌, [], arith}
use freno.Go.Int.{ℤ, pos, pos_part, neg_part, eqb_ℤ_iff}
use freno.Go.Text.{
  Text, Lacks, str_eq_iff, str_lt, split_n2-append_sep, has_byte-append_sep, Lacks→has_byte,
}
use freno.Go.Decimal.{itoa, atoi-itoa}
use freno.Mysql.Key.{InstanceKey, parsed, parse_instance_key, smaller_than, string_code}

-- A key whose port is a 64-bit integer and whose hostname has no colon is read back from its print,
-- whatever the default port.
pub parse_instance_key-string_code :
    (k : InstanceKey) (default_port : ℤ)
    → Lacks b':' k.hostname
    → pos_part k.port < 2 ^ 63
    → neg_part k.port ≤ 2 ^ 63
    → parse_instance_key (string_code k) default_port ≡ parsed k
unfolding parse_instance_key string_code
parse_instance_key-string_code k d h p q = rw (
  has_byte-append_sep k.hostname (itoa k.port) b':',
  split_n2-append_sep k.hostname (itoa k.port) b':' h,
  atoi-itoa k.port p q,
)

-- A host with no port takes the default port.
pub parse_instance_key_default :
    (host : Text) (default_port : ℤ)
    → Lacks b':' host
    → parse_instance_key host default_port
      ≡ parsed (record { hostname = host; port = default_port })
unfolding parse_instance_key
parse_instance_key_default host d h = rw (Lacks→has_byte host b':' h)

str_lt_trans : (s t u : Text) → str_lt s t ≡ true → str_lt t u ≡ true → str_lt s u ≡ true
unfolding str_lt
str_lt_trans [] [] u h k = ground arith
str_lt_trans [] (d ∷ t) [] h k = ground arith
str_lt_trans [] (d ∷ t) (e ∷ u) h k = ground arith
str_lt_trans (c ∷ s) [] u h k = ground arith
str_lt_trans (c ∷ s) (d ∷ t) [] h k = ground arith
str_lt_trans (c ∷ s) (d ∷ t) (e ∷ u) h k = ground (arith, str_lt_trans s t u)

str_lt_irrefl : (s : Text) → str_lt s s ≡ false
unfolding str_lt
str_lt_irrefl [] = refl
str_lt_irrefl (c ∷ s) = ground (arith, str_lt_irrefl s)

str_lt_total : (s t : Text) → str_lt s t ≡ false → str_lt t s ≡ false → s ≡ t
unfolding str_lt
str_lt_total [] [] h k = refl
str_lt_total [] (d ∷ t) h k = ground arith
str_lt_total (c ∷ s) [] h k = ground arith
str_lt_total (c ∷ s) (d ∷ t) h k = ground (arith, str_lt_total s t)

-- The order on keys is strict and total: no key is smaller than itself, the order is transitive,
-- and two keys neither of which is smaller are equal.
pub smaller_than_strict_total :
    (a b c : InstanceKey)
    → (smaller_than a a ≡ false)
      × (smaller_than a b ≡ true → smaller_than b c ≡ true → smaller_than a c ≡ true)
      × (smaller_than a b ≡ false → smaller_than b a ≡ false → a ≡ b)
unfolding smaller_than
smaller_than_strict_total a b c = (
  ground (arith, str_lt_irrefl a.hostname),
  λ h k. ground (
    arith,
    str_lt_trans a.hostname b.hostname c.hostname,
    str_eq_iff a.hostname b.hostname,
    str_eq_iff b.hostname c.hostname,
    str_eq_iff a.hostname c.hostname,
  ),
  λ h k. ground (
    arith,
    str_lt_total a.hostname b.hostname,
    str_eq_iff a.hostname b.hostname,
    str_eq_iff b.hostname a.hostname,
    eqb_ℤ_iff a.port b.port,
  ),
)

-- Keys whose hostnames have no colon have different prints.
pub string_code_injective :
    (a b : InstanceKey)
    → Lacks b':' a.hostname
    → Lacks b':' b.hostname
    → (pos_part a.port < 2 ^ 63) × (neg_part a.port ≤ 2 ^ 63)
    → (pos_part b.port < 2 ^ 63) × (neg_part b.port ≤ 2 ^ 63)
    → string_code a ≡ string_code b
    → a ≡ b
string_code_injective a b ha hb (p, q) (p', q') e = ground (
  arith,
  parse_instance_key-string_code a (pos 0) ha p q,
  parse_instance_key-string_code b (pos 0) hb p' q',
  e,
)
