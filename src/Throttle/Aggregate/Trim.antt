-- ===== src/Throttle/Aggregate/Trim.antt =====
-- The loop that ignores hosts, in closed form: how many of the worst values it drops.
use Prim.Native.Nat.{min}
use freno.Prelude.{
  ℕ, zero, suc, ◌+◌, ◌-◌, ◌≤◌, ◌<◌, ◌≡◌, refl, sym, ◌∙◌, ap, Bool, true, false, not, List, [], ◌∷◌,
  arith, if◌then◌else◌, length, count_of, Bool-cases, inl, inr,
}
use freno.Go.Int.{ltb_ℤ, ◌≤ℤ◌}
use freno.Go.Float.{Float, float_zero, IsSorted, AtLeast}
use freno.Throttle.Aggregate.{take, get_or, good_to_ignore, trim}

-- How many values lie above the threshold; each does where there is no positive threshold.
abbrev pub above : Float → List Float → ℕ
above threshold values =
    if not (ltb_ℤ float_zero threshold) then length values else count_of (ltb_ℤ threshold) values

-- The number of ignored hosts: bounded by the tokens, by the values above the threshold, and by the
-- rule that one host stays.
abbrev pub ignored : ℕ → Float → List Float → ℕ
ignored count threshold values = min count (min (above threshold values) (length values - 1))

pub length-take : (n : ℕ) (xs : List Float) → length (take n xs) ≡ min n (length xs)
length-take zero xs = omega arith
length-take (suc n) [] = omega arith
length-take (suc n) (x ∷ xs) = omega (arith, length-take n xs)

take-nil : (n : ℕ) → take n [] ≡ []
take-nil zero = refl
take-nil (suc n) = refl

zero-min : (n : ℕ) → min zero n ≡ zero
zero-min n = omega arith

min-zero : (m : ℕ) → min (suc m) zero ≡ zero
min-zero m = omega arith

min-suc : (m n : ℕ) → min (suc m) (suc n) ≡ suc (min m n)
min-suc m n = omega arith

take-take : (m n : ℕ) (xs : List Float) → take m (take n xs) ≡ take (min m n) xs
take-take zero n xs = rw (zero-min n)
take-take (suc m) zero xs = rw (min-zero m)
take-take (suc m) (suc n) [] = sym (take-nil (min (suc m) (suc n)))
take-take (suc m) (suc n) (x ∷ xs) = rw (min-suc m n) (ap (λ ys. x ∷ ys) (take-take m n xs))

pub take-length : (n : ℕ) (xs : List Float) → length xs ≤ n → take n xs ≡ xs
take-length zero [] h = refl
take-length zero (x ∷ xs) h = absurd (omega arith)
take-length (suc n) [] h = refl
take-length (suc n) (x ∷ xs) h = ap (λ ys. x ∷ ys) (take-length n xs (omega arith))

pub get_or-take :
    (n i : ℕ) (xs : List Float) → i < n → get_or (take n xs) i float_zero ≡ get_or xs i float_zero
get_or-take zero i xs h = absurd (omega arith)
get_or-take (suc n) i [] h = refl
get_or-take (suc n) zero (x ∷ xs) h = refl
get_or-take (suc n) (suc i) (x ∷ xs) h = get_or-take n i xs (omega arith)

IsSorted-take : (n : ℕ) (xs : List Float) → IsSorted xs → IsSorted (take n xs)
IsSorted-take zero xs s = tt
IsSorted-take (suc n) [] s = tt
IsSorted-take (suc n) (x ∷ xs) (a, s) = (AtLeast-take n xs a, IsSorted-take n xs s)
  where
    AtLeast-take : (m : ℕ) (ys : List Float) → AtLeast x ys → AtLeast x (take m ys)
    AtLeast-take zero ys b = tt
    AtLeast-take (suc m) [] b = tt
    AtLeast-take (suc m) (y ∷ ys) (h, b) = (h, AtLeast-take m ys b)

-- The count of the values but the last, by the test of the last.
count_of-take :
    (p : Float → Bool) (x : Float) (xs : List Float)
    → count_of p (x ∷ xs)
      ≡ count_of p (take (length xs) (x ∷ xs))
        + (if p (get_or (x ∷ xs) (length xs) float_zero) then 1 else 0)
count_of-take p x [] = ground arith
count_of-take p x (y ∷ ys) = ground (arith, count_of-take p y ys)

pub get_or-AtLeast :
    (x : Float) (xs : List Float) (i : ℕ)
    → AtLeast x xs
    → i < length xs
    → x ≤ℤ get_or xs i float_zero
get_or-AtLeast x [] i a h = absurd (omega arith)
get_or-AtLeast x (y ∷ ys) zero (b, a) h = b
get_or-AtLeast x (y ∷ ys) (suc i) (b, a) h = get_or-AtLeast x ys i a (omega arith)

-- Where the last of sorted values is not above the threshold, none is.
none_above :
    (threshold x : Float) (xs : List Float)
    → IsSorted (x ∷ xs)
    → ltb_ℤ threshold (get_or (x ∷ xs) (length xs) float_zero) ≡ false
    → count_of (ltb_ℤ threshold) (x ∷ xs) ≡ 0
none_above t x [] s h = ground arith
none_above t x (y ∷ ys) (a, s) h =
    ground (arith, none_above t y ys s h, get_or-AtLeast x (y ∷ ys) (length ys) a (omega arith))

-- A dropped value was one of those above the threshold, and was not the only value.
above_step :
    (threshold : Float) (xs : List Float)
    → good_to_ignore threshold xs ≡ true
    → (above threshold xs ≡ suc (above threshold (take (length xs - 1) xs))) × (2 ≤ length xs)
unfolding good_to_ignore
above_step t [] h = ground arith
above_step t (x ∷ xs) h =
    ground (arith, count_of-take (ltb_ℤ t) x xs, length-take (length xs) (x ∷ xs))

-- Where nothing is dropped, nothing more is to be dropped.
above_stay :
    (threshold : Float) (xs : List Float)
    → IsSorted xs
    → good_to_ignore threshold xs ≡ false
    → min (above threshold xs) (length xs - 1) ≡ 0
unfolding good_to_ignore
above_stay t [] s h = omega arith
above_stay t (x ∷ xs) s h = ground (arith, none_above t x xs s)

drop_arith :
    (n a b l k : ℕ)
    → a ≡ suc b
    → 2 ≤ l
    → k ≡ l - 1
    → min (k - min n (min b (k - 1))) (l - 1) ≡ l - min (suc n) (min a (l - 1))
drop_arith n a b l k e h f = omega arith

stay_arith : (n l m : ℕ) → m ≡ 0 → l - min n m ≡ l - min (suc n) m
stay_arith n l m h = omega arith

-- The loop drops `ignored` of the sorted values, the worst ones, and keeps the others.
pub trim-eq-take :
    (count : ℕ) (threshold : Float) (values : List Float)
    → IsSorted values
    → trim count threshold values ≡ take (length values - ignored count threshold values) values
unfolding trim
trim-eq-take zero t xs s = sym (take-length (length xs - ignored zero t xs) xs (omega arith))
trim-eq-take (suc n) t xs s = elim (Bool-cases (good_to_ignore t xs)) [
  | inl good ↦
      let ys = take (length xs - 1) xs in
      let (step, many) = above_step t xs good in
      let shorter : length ys ≡ length xs - 1 = omega (arith, length-take (length xs - 1) xs) in
      rw good (
        trim-eq-take n t ys (IsSorted-take (length xs - 1) xs s)
        ∙ take-take (length ys - ignored n t ys) (length xs - 1) xs
        ∙ ap (λ k. take k xs)
            (drop_arith n (above t xs) (above t ys) (length xs) (length ys) step many shorter))
  | inr bad ↦ rw bad (
      trim-eq-take n t xs s
      ∙ ap (λ k. take k xs)
          (stay_arith n (length xs) (min (above t xs) (length xs - 1)) (above_stay t xs s bad)))
]
