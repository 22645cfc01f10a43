-- ===== src/Throttle/Check/Counters.antt =====
-- pkg/throttle/check.go: the counters of checks, which Check increments by the status. A counter
-- that has not been registered is 0.
use mathlib.Core.List.{reverse, reverse-append, reverse-reverse}
use freno.Prelude.{
  ℕ, ◌+◌, ◌≤◌, ◌≡◌, ◌≢◌, refl, ap, sym, ◌∙◌, false, not, List, [], ◌∷◌, ◌++◌, ◌==◌, if◌then◌else◌,
  or_else, count_of, count_of-ext, count_of-none, arith, Bool-cases, inl, inr,
}
use freno.Go.Text.{Text, codes, str_eq, str_eq_iff, text_eq}
use freno.Go.Dict.{Dict, lookup, insert, lookup-insert}
use freno.Throttle.Check.{status_ok, status_internal_server_error}

abbrev pub Counters : Type 0
Counters = Dict Text ℕ

abbrev pub counter : Text → Counters → ℕ
counter name counters = or_else (lookup name counters) 0

bump : List Text → Text → Counters → Counters
bump [] suffix counters = counters
bump (prefix ∷ prefixes) suffix counters =
    bump prefixes suffix
      (insert (prefix ++ suffix) (counter (prefix ++ suffix) counters + 1) counters)

abbrev prefixes_of : Text → Text → Text → List Text
prefixes_of app_name store_type store_name =
    codes "check.any"
    ∷ (codes "check." ++ app_name)
    ∷ (codes "check.any." ++ (store_type ++ (b'.' ∷ store_name)))
    ∷ (codes "check." ++ (app_name ++ (b'.' ∷ (store_type ++ (b'.' ∷ store_name)))))
    ∷ []

unfoldable pub count_check : Text → Text → Text → ℕ → Counters → Counters
unfolding bump
count_check app_name store_type store_name status_code counters =
    let prefixes = prefixes_of app_name store_type store_name in
    let totals = bump prefixes (codes ".total") counters in
    if not (status_code == status_ok)
    then (let errors = bump prefixes (codes ".error") totals in
        if status_code == status_internal_server_error
        then bump prefixes (codes ".internal-error") errors
        else errors)
    else totals

-- One name, one counter.
counter_at :
    (key name : Text) (counters : Counters)
    → key ≡ name
    → counter key counters ≡ counter name counters
counter_at key name counters e = ap (λ k. counter k counters) e

counter-bump :
    (prefixes : List Text) (suffix name : Text) (counters : Counters)
    → counter name (bump prefixes suffix counters)
      ≡ counter name counters + count_of (λ prefix. str_eq (prefix ++ suffix) name) prefixes
unfolding bump
counter-bump [] suffix name counters = omega arith
counter-bump (prefix ∷ prefixes) suffix name counters =
    let key = prefix ++ suffix in
    let bumped = insert key (counter key counters + 1) counters in
    ground (
      arith,
      counter-bump prefixes suffix name bumped,
      lookup-insert key name (counter key counters + 1) counters,
      str_eq_iff key name,
      counter_at key name counters,
    )

-- The end of a text decides, read backwards.
backwards :
    (q p s t s' t' : Text)
    → reverse s ≡ s'
    → reverse t ≡ t'
    → q ++ s ≡ p ++ t
    → s' ++ reverse q ≡ t' ++ reverse p
backwards q p s t s' t' e f h =
    ap (λ x. x ++ reverse q) (sym e)
    ∙ sym (reverse-append q s)
    ∙ ap reverse h
    ∙ reverse-append p t
    ∙ ap (λ x. x ++ reverse p) f

differs :
    (q p s t s' t' : Text)
    → reverse s ≡ s'
    → reverse t ≡ t'
    → (s' ++ reverse q) ≢ (t' ++ reverse p)
    → str_eq (q ++ s) (p ++ t) ≡ false
differs q p s t s' t' e f n = elim (Bool-cases (str_eq (q ++ s) (p ++ t))) [
  | inr h ↦ h
  | inl h ↦ absurd (n (backwards q p s t s' t' e f ((str_eq_iff (q ++ s) (p ++ t)).0 h)))
]

append_cancel : (s q p : Text) → s ++ q ≡ s ++ p → q ≡ p
append_cancel [] q p h = h
append_cancel (b ∷ s) q p h = append_cancel s q p (ground (arith, h))

same_end : (s q p : Text) → q ++ s ≡ p ++ s → q ≡ p
same_end s q p h =
    sym (reverse-reverse q)
    ∙ ap reverse (
        append_cancel (reverse s) (reverse q) (reverse p)
          (backwards q p s s (reverse s) (reverse s) refl refl h))
    ∙ reverse-reverse p

appended : (s q p : Text) → q ≡ p → q ++ s ≡ p ++ s
appended s q p e = ap (λ x. x ++ s) e

str_eq-same_end : (s q p : Text) → str_eq (q ++ s) (p ++ s) ≡ str_eq q p
str_eq-same_end s q p =
    ground (arith, str_eq_iff (q ++ s) (p ++ s), str_eq_iff q p, same_end s q p, appended s q p)

-- How often a prefix stands among those that are counted.
abbrev times : Text → List Text → ℕ
times p prefixes = count_of (λ q. str_eq q p) prefixes

counter-bump_same :
    (prefixes : List Text) (s p : Text) (counters : Counters)
    → counter (p ++ s) (bump prefixes s counters) ≡ counter (p ++ s) counters + times p prefixes
counter-bump_same prefixes s p counters =
    counter-bump prefixes s (p ++ s) counters
    ∙ ap (λ n. counter (p ++ s) counters + n)
        (count_of-ext _ _ prefixes (λ q. str_eq-same_end s q p))

counter-bump_other :
    (prefixes : List Text) (s t p : Text) (counters : Counters)
    → ((q : Text) → str_eq (q ++ s) (p ++ t) ≡ false)
    → counter (p ++ t) (bump prefixes s counters) ≡ counter (p ++ t) counters
counter-bump_other prefixes s t p counters h =
    omega (arith, counter-bump prefixes s (p ++ t) counters, count_of-none _ prefixes h)

-- No counter of errors exceeds that of the checks, and none of internal errors that of the errors.
abbrev pub IsOrdered : Counters → Type 0
IsOrdered counters =
    (prefix : Text)
    → (counter (prefix ++ codes ".error") counters ≤ counter (prefix ++ codes ".total") counters)
      × (counter (prefix ++ codes ".internal-error") counters
          ≤ counter (prefix ++ codes ".error") counters)

abbrev total : Text
total = codes ".total"

abbrev error : Text
error = codes ".error"

abbrev internal : Text
internal = codes ".internal-error"

-- The counts of a check keep the order of the counters: none of errors exceeds that of the checks
-- with its prefix, and none of internal errors that of the errors, whatever the names of the app
-- and the store are and the status is.
pub count_check-IsOrdered :
    (app_name store_type store_name : Text) (status_code : ℕ) (counters : Counters)
    → IsOrdered counters
    → IsOrdered (count_check app_name store_type store_name status_code counters)
unfolding count_check
count_check-IsOrdered app_name store_type store_name status_code counters h p =
    let prefixes = prefixes_of app_name store_type store_name in
    let totals = bump prefixes total counters in
    let errors = bump prefixes error totals in
    let (a, b) = h p in
    ground (
      arith,
      a,
      b,
      counter-bump_same prefixes total p counters,
      counter-bump_same prefixes error p totals,
      counter-bump_same prefixes internal p errors,
      counter-bump_other prefixes total error p counters (λ q.
          differs q p total error (codes "latot.") (codes "rorre.") refl refl
            (λ e. ground (arith, e))),
      counter-bump_other prefixes total internal p counters (λ q.
          differs q p total internal (codes "latot.") (codes "rorre-lanretni.") refl refl
            (λ e. ground (arith, e))),
      counter-bump_other prefixes error total p totals (λ q.
          differs q p error total (codes "rorre.") (codes "latot.") refl refl
            (λ e. ground (arith, e))),
      counter-bump_other prefixes error internal p totals (λ q.
          differs q p error internal (codes "rorre.") (codes "rorre-lanretni.") refl refl
            (λ e. ground (arith, e))),
      counter-bump_other prefixes internal total p errors (λ q.
          differs q p internal total (codes "rorre-lanretni.") (codes "latot.") refl refl
            (λ e. ground (arith, e))),
      counter-bump_other prefixes internal error p errors (λ q.
          differs q p internal error (codes "rorre-lanretni.") (codes "rorre.") refl refl
            (λ e. ground (arith, e))),
    )
