-- ===== src/Config/Env/Ends.antt =====
-- The expansion of the variables ends where no value of a variable has a dollar sign: each round
-- takes one away.
use freno.Prelude.{
  ℕ, zero, suc, ◌+◌, ◌≤◌, ◌<◌, ◌≡◌, ◌≢◌, refl, Bool, true, false, ◌||◌, some, [], ◌∷◌, ◌++◌, arith,
  length, ◌==◌, count_of, count_of-append, Option-cases, inl, inr,
}
use freno.Go.Text.{Text, codes, has_prefix, Lacks}
use freno.Config.Env.{
  up_to_brace, env_submatch, drop_bytes, replace_fuel, replace_all, expand, running,
}

abbrev pub dollars : Text → ℕ
dollars s = count_of (λ b. b == b'$') s

-- The pattern stands somewhere in the text.
abbrev occurs : Text → Text → Bool
occurs old [] = false
occurs old (c ∷ s) = has_prefix (c ∷ s) old || occurs old s

dollars-Lacks : (s : Text) → Lacks b'$' s → dollars s ≡ 0
dollars-Lacks [] h = refl
dollars-Lacks (c ∷ s) h = ground (arith, dollars-Lacks s)

dollars-drop_bytes : (n : ℕ) (s : Text) → dollars (drop_bytes n s) ≤ dollars s
unfolding drop_bytes
dollars-drop_bytes zero s = omega arith
dollars-drop_bytes (suc n) [] = omega arith
dollars-drop_bytes (suc n) (c ∷ s) = ground (arith, dollars-drop_bytes n s)

-- A prefix takes its dollar signs with it.
dollars-drop_prefix :
    (old s : Text)
    → has_prefix s old ≡ true
    → dollars (drop_bytes (length old) s) + dollars old ≡ dollars s
unfolding drop_bytes has_prefix
dollars-drop_prefix [] s h = omega arith
dollars-drop_prefix (o ∷ old) [] h = ground arith
dollars-drop_prefix (o ∷ old) (c ∷ s) h = ground (arith, dollars-drop_prefix old s)

module _ (old new : Text) (plain : dollars new ≡ 0) where
  dollars-replace_fuel_le :
      (fuel : ℕ) (s : Text) → dollars (replace_fuel fuel s old new) ≤ dollars s
  unfolding replace_fuel
  dollars-replace_fuel_le zero s = omega arith
  dollars-replace_fuel_le (suc fuel) [] = omega arith
  dollars-replace_fuel_le (suc fuel) (c ∷ s) =
      let rest = drop_bytes (length old) (c ∷ s) in
      ground (
        arith,
        plain,
        dollars-replace_fuel_le fuel s,
        dollars-replace_fuel_le fuel rest,
        dollars-drop_bytes (length old) (c ∷ s),
        count_of-append (λ b. b == b'$') new (replace_fuel fuel rest old new),
      )

  dollars-replace_fuel_lt :
      (fuel : ℕ) (s : Text)
      → 0 < dollars old
      → length s ≤ fuel
      → occurs old s ≡ true
      → dollars (replace_fuel fuel s old new) < dollars s
  unfolding replace_fuel
  dollars-replace_fuel_lt zero [] d l o = ground arith
  dollars-replace_fuel_lt zero (c ∷ s) d l o = absurd (omega arith)
  dollars-replace_fuel_lt (suc fuel) [] d l o = ground arith
  dollars-replace_fuel_lt (suc fuel) (c ∷ s) d l o =
      let rest = drop_bytes (length old) (c ∷ s) in
      ground (
        arith,
        plain,
        dollars-replace_fuel_lt fuel s d,
        dollars-replace_fuel_le fuel rest,
        dollars-drop_prefix old (c ∷ s),
        count_of-append (λ b. b == b'$') new (replace_fuel fuel rest old new),
      )

-- The reference to a variable.
abbrev reference : Text → Text
reference name = codes "${" ++ (name ++ codes "}")

up_to_brace-has_prefix :
    (s name : Text) → up_to_brace s ≡ some name → has_prefix s (name ++ codes "}") ≡ true
unfolding up_to_brace has_prefix
up_to_brace-has_prefix [] name h = ground arith
up_to_brace-has_prefix (b ∷ s) name h = elim (Option-cases (up_to_brace s)) [
  | inl e ↦ ground (arith, h, e)
  | inr (rest, e) ↦ ground (arith, h, e, up_to_brace-has_prefix s rest e)
]

env_submatch-occurs :
    (s name : Text) → env_submatch s ≡ some name → occurs (reference name) s ≡ true
unfolding env_submatch has_prefix
env_submatch-occurs [] name h = ground arith
env_submatch-occurs (d ∷ []) name h = ground arith
env_submatch-occurs (d ∷ b ∷ s) name h = elim (Option-cases (up_to_brace s)) [
  | inl e ↦ ground (arith, h, e, env_submatch-occurs (b ∷ s) name)
  | inr (found, e) ↦
      ground (arith, h, e, up_to_brace-has_prefix s found e, env_submatch-occurs (b ∷ s) name)
]

-- The expansion of the variables in the addresses of HAProxy ends, in the addresses or in the error
-- of an unknown variable, where the fuel exceeds the number of dollar signs in the addresses, and
-- no value of a variable has one.
pub expand_ends :
    (getenv : Text → Text) (fuel : ℕ) (addresses : Text)
    → ((name : Text) → Lacks b'$' (getenv name))
    → dollars addresses < fuel
    → expand getenv fuel addresses ≢ running
unfolding expand replace_all
expand_ends getenv zero addresses plain f = absurd (omega arith)
expand_ends getenv (suc fuel) addresses plain f = elim (Option-cases (env_submatch addresses)) [
  | inl e ↦ ground (arith, e)
  | inr (name, e) ↦
      let next = replace_all addresses (reference name) (getenv name) in
      ground (
        arith,
        e,
        expand_ends getenv fuel next plain,
        dollars-replace_fuel_lt (reference name) (getenv name)
            (dollars-Lacks (getenv name) (plain name)) (length addresses) addresses (omega arith)
            (omega arith) (env_submatch-occurs addresses name e),
      )
]
