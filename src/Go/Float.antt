-- ===== src/Go/Float.antt =====
-- Go's float64 as far as the program uses it: it compares values and does no arithmetic on them.
-- A finite float64 is a whole number of units of 2^-1074, so it is given by that integer, with no
-- rounding. NaN and the infinities are not modelled.
use mathlib.Core.Path.{ap₂, ◌∙◌}
use mathlib.Core.Logic.{∥∥₁_elim}
use mathlib.Core.List.{Perm, Permᴰ}
use mathlib.Core.List.Perm
use freno.Prelude.{
  suc, ◌+◌, ◌-◌, ◌*◌, ◌^◌, ◌≡◌, refl, true, false, List, [], ◌∷◌, arith, length, All,
}
use freno.Go.Int.{ℤ, pos, negsuc, ltb_ℤ, ◌≤ℤ◌}

abbrev pub Float : Type 0
Float = ℤ

abbrev pub float_zero : Float
float_zero = pos 0

-- 1.0
unfoldable pub float_one : Float
float_one = pos (2 ^ 1074)

-- float64(i) of an integer that a float64 holds exactly.
unfoldable pub float_of : ℤ → Float
float_of (pos n) = pos (n * 2 ^ 1074)
float_of (negsuc n) = negsuc (n * 2 ^ 1074 + (2 ^ 1074 - 1))

-- The order of sort.Float64s on values that are not NaN. The library's algorithm is not stable,
-- but equal values cannot be told apart.
unfoldable pub insert_sorted : Float → List Float → List Float
insert_sorted x [] = x ∷ []
insert_sorted x (y ∷ ys) = elim (ltb_ℤ y x) [ true ↦ y ∷ insert_sorted x ys | false ↦ x ∷ y ∷ ys ]

unfoldable pub sort_floats : List Float → List Float
unfolding insert_sorted
sort_floats [] = []
sort_floats (x ∷ xs) = insert_sorted x (sort_floats xs)

eq_of_sides : (a b : Float) → ltb_ℤ a b ≡ false → ltb_ℤ b a ≡ false → a ≡ b
eq_of_sides a b h k = ground arith

-- Every element is at least `x`.
abbrev pub AtLeast : Float → List Float → Type 0
AtLeast x = All (λ y. x ≤ℤ y)

abbrev pub IsSorted : List Float → Type 0
IsSorted [] = Unit
IsSorted (x ∷ xs) = AtLeast x xs × IsSorted xs

AtLeast-trans : (x y : Float) (ys : List Float) → x ≤ℤ y → AtLeast y ys → AtLeast x ys
AtLeast-trans x y [] h a = tt
AtLeast-trans x y (z ∷ ys) h (hz, a) = (omega arith, AtLeast-trans x y ys h a)

AtLeast-insert_sorted :
    (z x : Float) (ys : List Float) → z ≤ℤ x → AtLeast z ys → AtLeast z (insert_sorted x ys)
unfolding insert_sorted
AtLeast-insert_sorted z x [] h a = (h, tt)
AtLeast-insert_sorted z x (y ∷ ys) h (hy, a) = ground (arith, AtLeast-insert_sorted z x ys h a)

insert_sorted-IsSorted : (x : Float) (ys : List Float) → IsSorted ys → IsSorted (insert_sorted x ys)
unfolding insert_sorted
insert_sorted-IsSorted x [] s = (tt, tt)
insert_sorted-IsSorted x (y ∷ ys) (a, s) =
    ground
      (arith, insert_sorted-IsSorted x ys s, AtLeast-insert_sorted y x ys, AtLeast-trans x y ys)

pub sort_floats-IsSorted : (xs : List Float) → IsSorted (sort_floats xs)
unfolding sort_floats
sort_floats-IsSorted [] = tt
sort_floats-IsSorted (x ∷ xs) = insert_sorted-IsSorted x (sort_floats xs) (sort_floats-IsSorted xs)

insert_sorted-perm : (x : Float) (ys : List Float) → Perm (insert_sorted x ys) (x ∷ ys)
unfolding insert_sorted
insert_sorted-perm x [] = Perm.refl (x ∷ [])
insert_sorted-perm x (y ∷ ys) =
    let later : Perm (insert_sorted x ys) (x ∷ ys) = insert_sorted-perm x ys in
    (elim (ltb_ℤ y x)
      as (λ b. Perm (elim b [ true ↦ y ∷ insert_sorted x ys | false ↦ x ∷ y ∷ ys ]) (x ∷ y ∷ ys)) [
        | true ↦ Perm.trans (Perm.cons y later) (Perm.swap x y ys)
        | false ↦ Perm.refl (x ∷ y ∷ ys)
      ])

pub sort_floats-perm : (xs : List Float) → Perm (sort_floats xs) xs
unfolding sort_floats
sort_floats-perm [] = Perm.refl []
sort_floats-perm (x ∷ xs) =
    Perm.trans (insert_sorted-perm x (sort_floats xs)) (Perm.cons x (sort_floats-perm xs))

insert_sorted_comm :
    (x y : Float) (zs : List Float)
    → insert_sorted x (insert_sorted y zs) ≡ insert_sorted y (insert_sorted x zs)
unfolding insert_sorted
insert_sorted_comm x y [] = ground (arith, eq_of_sides x y)
insert_sorted_comm x y (z ∷ zs) = ground (arith, eq_of_sides x y, insert_sorted_comm x y zs)

sort_floats-permᴰ : {xs ys : List Float} → Permᴰ xs ys → sort_floats xs ≡ sort_floats ys
unfolding sort_floats
sort_floats-permᴰ Permᴰ.nil = refl
sort_floats-permᴰ (Permᴰ.cons e p) = ap₂ insert_sorted e (sort_floats-permᴰ p)
sort_floats-permᴰ (Permᴰ.swap {a = a} {b = b} {l = l} e f) =
    insert_sorted_comm a b (sort_floats l)
    ∙ ap₂ (λ x y. insert_sorted x (insert_sorted y (sort_floats l))) f e
sort_floats-permᴰ (Permᴰ.trans p q) = sort_floats-permᴰ p ∙ sort_floats-permᴰ q

-- Sorting forgets the order in which the values came.
pub sort_floats-eq_of_perm : {xs ys : List Float} → Perm xs ys → sort_floats xs ≡ sort_floats ys
sort_floats-eq_of_perm p = ∥∥₁_elim p (hlevel) sort_floats-permᴰ

length-insert_sorted : (x : Float) (ys : List Float) → length (insert_sorted x ys) ≡ suc (length ys)
unfolding insert_sorted
length-insert_sorted x [] = refl
length-insert_sorted x (y ∷ ys) = ground (arith, length-insert_sorted x ys)

pub length-sort_floats : (xs : List Float) → length (sort_floats xs) ≡ length xs
unfolding sort_floats
length-sort_floats [] = refl
length-sort_floats (x ∷ xs) =
    omega (arith, length-insert_sorted x (sort_floats xs), length-sort_floats xs)
