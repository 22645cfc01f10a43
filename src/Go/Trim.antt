-- ===== src/Go/Trim.antt =====
-- strings.TrimSpace on a word between white space.
use mathlib.Core.List.{reverse, reverse-cons, reverse-append, reverse-reverse}
use mathlib.Core.Path.{subst}
use freno.Prelude.{ℕ, ◌≡◌, refl, sym, true, false, [], ◌∷◌, ◌++◌, All, All-append, arith}
use freno.Go.Text.{Text, is_space, trim_left, trim_right, trim_space}

abbrev pub IsSpaces : Text → Type 0
IsSpaces = All (λ c. is_space c ≡ true)

abbrev pub IsWord : Text → Type 0
IsWord = All (λ c. is_space c ≡ false)

All-reverse : (P : ℕ → Type 0) (s : Text) → All P s → All P (reverse s)
All-reverse P [] h = tt
All-reverse P (c ∷ s) (hc, hs) =
    subst (All P) (sym (reverse-cons c s))
      (All-append P (reverse s) (c ∷ []) (All-reverse P s hs) (hc, tt))

trim_left-append : (l t : Text) → IsSpaces l → trim_left is_space (l ++ t) ≡ trim_left is_space t
unfolding trim_left
trim_left-append [] t h = refl
trim_left-append (c ∷ l) t (hc, hl) = ground (arith, hc, trim_left-append l t hl)

trim_left-IsWord : (s : Text) → IsWord s → trim_left is_space s ≡ s
unfolding trim_left
trim_left-IsWord [] h = refl
trim_left-IsWord (c ∷ s) (hc, hs) = ground (arith, hc)

pub trim_space_padded :
    (l : Text) (c : ℕ) (s r : Text)
    → IsSpaces l
    → IsWord (c ∷ s)
    → IsSpaces r
    → trim_space (l ++ ((c ∷ s) ++ r)) ≡ c ∷ s
unfolding trim_space trim_right
trim_space_padded l c s r hl (hc, hs) hr =
    rw
      (
        trim_left-append l (c ∷ s ++ r) hl,
        trim_left-first,
        reverse-append (c ∷ s) r,
        trim_left-append (reverse r) (reverse (c ∷ s)) (All-reverse (λ c. is_space c ≡ true) r hr),
        trim_left-IsWord (reverse (c ∷ s)) (All-reverse (λ c. is_space c ≡ false) (c ∷ s) (hc, hs)),
      )
      (reverse-reverse (c ∷ s))
  where
    trim_left-first : trim_left is_space (c ∷ s ++ r) ≡ c ∷ s ++ r
    trim_left-first = unfold trim_left in ground (arith, hc)
