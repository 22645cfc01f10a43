-- ===== src/Config/Env.antt =====
-- The references to environment variables in settings: envVariableRegexp, `[$][{](.*?)[}]`, of
-- pkg/config/config.go, and its use by FindStringSubmatch. The environment is an argument.
pub mod Ends
use freno.Prelude.{
  ℕ, zero, suc, ◌==◌, true, false, Option, none, some, [], ◌∷◌, ◌++◌, ◌≡◌, arith, length,
  Option-cases, inl, inr,
}
use freno.Go.Text.{Text, codes, has_prefix, str_eq}

-- The text up to the first closing brace; `.` of the pattern matches no line feed.
up_to_brace : Text → Option Text
up_to_brace [] = none
up_to_brace (b ∷ s) = elim (b == b'}') [
  | true ↦ some []
  | false ↦ elim (b == 10) [
    | true ↦ none
    | false ↦ elim (up_to_brace s) [ none ↦ none | some name ↦ some (b ∷ name) ]
  ]
]

-- submatch[1] of the first match from the left; `none` where the pattern does not match.
unfoldable pub env_submatch : Text → Option Text
unfolding up_to_brace
env_submatch [] = none
env_submatch (d ∷ []) = none
env_submatch (d ∷ (b ∷ s)) = elim (d == b'$') [
  | false ↦ env_submatch (b ∷ s)
  | true ↦ elim (b == b'{') [
    | false ↦ env_submatch (b ∷ s)
    | true ↦ elim (up_to_brace s) [ some name ↦ some name | none ↦ env_submatch (b ∷ s) ]
  ]
]

-- The whole setting is replaced by the variable's value, where the setting names one. A variable
-- that is not set has the empty value.
unfoldable pub from_env : (Text → Text) → Text → Text
from_env getenv setting = elim (env_submatch setting) [ none ↦ setting | some name ↦ getenv name ]

-- The text without its first `n` bytes.
drop_bytes : ℕ → Text → Text
drop_bytes zero s = s
drop_bytes (suc n) [] = []
drop_bytes (suc n) (c ∷ s) = drop_bytes n s

-- strings.Replace(s, old, new, -1), for `old` that is not empty. Each round takes at least a byte,
-- so the length of the text is enough fuel.
replace_fuel : ℕ → Text → Text → Text → Text
unfolding drop_bytes
replace_fuel zero s old new = s
replace_fuel (suc fuel) [] old new = []
replace_fuel (suc fuel) (c ∷ s) old new = elim (has_prefix (c ∷ s) old) [
  | true ↦ new ++ replace_fuel fuel (drop_bytes (length old) (c ∷ s)) old new
  | false ↦ c ∷ replace_fuel fuel s old new
]

unfoldable pub replace_all : Text → Text → Text → Text
unfolding replace_fuel
replace_all s old new = replace_fuel (length s) s old new

-- A result of the loop over the references in the addresses of HAProxy: the addresses, the name of
-- an unknown variable, or no result yet when the fuel is used up. The source has no bound: a value
-- that refers to itself makes it loop for ever.
pub data Expanded : Type 0 where
  expanded : Text → Expanded
  unknown_variable : Text → Expanded
  running : Expanded

unfoldable pub expand : (Text → Text) → ℕ → Text → Expanded
expand getenv zero addresses = running
expand getenv (suc fuel) addresses = elim (env_submatch addresses) [
  | none ↦ expanded addresses
  | some name ↦ elim (str_eq (getenv name) []) [
    | true ↦ unknown_variable (codes "${" ++ (name ++ codes "}"))
    | false ↦
        expand getenv fuel (replace_all addresses (codes "${" ++ (name ++ codes "}")) (getenv name))
  ]
]

-- The addresses that come out have no reference left.
pub expand-env_submatch :
    (getenv : Text → Text) (fuel : ℕ) (addresses result : Text)
    → expand getenv fuel addresses ≡ expanded result
    → env_submatch result ≡ none
unfolding expand
expand-env_submatch getenv zero addresses result h = ground arith
expand-env_submatch getenv (suc fuel) addresses result h =
    elim (Option-cases (env_submatch addresses)) [
      | inl q ↦ ground (arith, q, h)
      | inr (name, q) ↦ ground (
        arith,
        q,
        h,
        expand-env_submatch getenv fuel
            (replace_all addresses (codes "${" ++ (name ++ codes "}")) (getenv name)) result,
      )
    ]
