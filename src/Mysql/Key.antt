-- ===== src/Mysql/Key.antt =====
-- pkg/mysql/instance_key.go.
use freno.Prelude.{
  Bool, true, false, ◌&&◌, not, List, [], ◌∷◌, ◌++◌, Option, none, some, if◌then◌else◌, ◌≡◌, ◌↔◌,
  arith, Eq,
}
use freno.Go.Int.{ℤ, pos, eqb_ℤ, eqb_ℤ_iff, ltb_ℤ, int_eq}
use freno.Go.Text.{Text, codes, str_eq, str_eq_iff, str_lt, split_n2, has_byte}
use freno.Go.Decimal.{atoi, itoa}

pub record InstanceKey : Type 0 where
  pub hostname : Text
  pub port : ℤ

-- The errors of the two parsers, with the text that they name.
pub data KeyError : Type 0 where
  cannot_parse : Text → KeyError
  invalid_port : Text → KeyError

pub data KeyResult : Type 0 where
  parsed : InstanceKey → KeyResult
  failed : KeyError → KeyResult

with_port : Text → Text → Option ℤ → KeyResult
with_port host text none = failed (invalid_port text)
with_port host text (some port) = parsed (record { hostname = host; port = port })

raw_of_tokens : Text → List Text → KeyResult
unfolding with_port
raw_of_tokens host_port (host ∷ port ∷ []) = with_port host port (atoi port)
raw_of_tokens host_port _ = failed (cannot_parse host_port)

unfoldable pub new_raw_instance_key : Text → KeyResult
unfolding raw_of_tokens
new_raw_instance_key host_port = raw_of_tokens host_port (split_n2 host_port b':')

unfoldable pub parse_instance_key : Text → ℤ → KeyResult
unfolding new_raw_instance_key
parse_instance_key host_port default_port =
    if not (has_byte host_port b':')
    then parsed (record { hostname = host_port; port = default_port })
    else new_raw_instance_key host_port

-- The receiver and a key that is not nil.
unfoldable pub equals : InstanceKey → InstanceKey → Bool
equals this other = str_eq this.hostname other.hostname && eqb_ℤ this.port other.port

unfoldable pub smaller_than : InstanceKey → InstanceKey → Bool
smaller_than this other =
    if str_lt this.hostname other.hostname
    then true
    else if str_eq this.hostname other.hostname && ltb_ℤ this.port other.port
    then true
    else false

unfoldable pub is_valid : InstanceKey → Bool
is_valid this =
    if str_eq this.hostname (codes "_")
    then false
    else not (str_eq this.hostname []) && ltb_ℤ (pos 0) this.port

unfoldable pub string_code : InstanceKey → Text
string_code this = this.hostname ++ b':' ∷ itoa this.port

pub equals_iff : (a b : InstanceKey) → (equals a b ≡ true) ↔ (a ≡ b)
unfolding equals
equals_iff a b = ground (arith, str_eq_iff a.hostname b.hostname, eqb_ℤ_iff a.port b.port)

instance abbrev pub key_eq : Eq InstanceKey
key_eq = record { beq = equals; beq_iff = equals_iff }
