-- ===== src/Go/Decimal.antt =====
-- The verb %d of fmt.Sprintf and strconv.Atoi.
use mathlib.Core.List.{concat-ne-nil}
use freno.Prelude.{
  ◌∙◌, ℕ, zero, suc, ◌+◌, ◌-◌, ◌*◌, ◌/◌, ◌%◌, ◌^◌, ◌≤◌, ◌<◌, ◌≡◌, ◌≢◌, refl, ◌&&◌, [], ◌∷◌, ◌++◌,
  Option, none, some, arith, ltb, leb, ◌==◌, if◌then◌else◌, All, All-append,
}
use freno.Go.Int.{ℤ, pos, negsuc, pos_part, neg_part}
use freno.Go.Text.{Text, Lacks}

-- The decimal digits of a number, with fuel above the number.
digits : ℕ → ℕ → Text
digits zero n = []
digits (suc fuel) n =
    let rest = digits fuel (n / 10) in
    if ltb n 10 then (b'0' + n) ∷ [] else rest ++ (b'0' + n % 10) ∷ []

unfoldable pub itoa : ℤ → Text
unfolding digits
itoa (pos n) = digits (suc n) n
itoa (negsuc n) = b'-' ∷ digits (suc (suc n)) (suc n)

-- The value of a text of digits behind the value `n`; `none` at another byte.
scan : ℕ → Text → Option ℕ
scan n [] = some n
scan n (c ∷ s) =
    let rest = scan (n * 10 + (c - b'0')) s in if leb b'0' c && leb c b'9' then rest else none

non_negative : Option ℕ → Option ℤ
non_negative none = none
non_negative (some n) = if ltb n (2 ^ 63) then some (pos n) else none

negative : Option ℕ → Option ℤ
negative none = none
negative (some zero) = some (pos 0)
negative (some (suc n)) = if ltb n (2 ^ 63) then some (negsuc n) else none

unsigned : Text → Option ℕ
unfolding scan
unsigned [] = none
unsigned (c ∷ s) = scan 0 (c ∷ s)

-- `none` stands for the syntax and the range errors.
unfoldable pub atoi : Text → Option ℤ
unfolding unsigned non_negative negative
atoi [] = none
atoi (c ∷ s) =
    if c == b'-'
    then negative (unsigned s)
    else if c == b'+'
    then non_negative (unsigned s)
    else non_negative (unsigned (c ∷ s))

abbrev pub IsDigit : ℕ → Type 0
IsDigit c = (b'0' ≤ c) × (c ≤ b'9')

digits-IsDigit : (fuel n : ℕ) → All IsDigit (digits fuel n)
unfolding digits
digits-IsDigit zero n = tt
digits-IsDigit (suc fuel) n = ground (
  arith,
  All-append IsDigit (digits fuel (n / 10)) ((b'0' + n % 10) ∷ []) (digits-IsDigit fuel (n / 10)),
)

scan-append : (n : ℕ) (s t : Text) {m : ℕ} → scan n s ≡ some m → scan n (s ++ t) ≡ scan m t
unfolding scan
scan-append n [] t h = ground arith
scan-append n (c ∷ s) t {m} h = ground (arith, scan-append (n * 10 + (c - b'0')) s t {m = m})

scan-digits : (fuel n : ℕ) → n < fuel → scan 0 (digits fuel n) ≡ some n
unfolding digits scan
scan-digits zero n h = absurd (omega arith)
scan-digits (suc fuel) n h = ground (
  arith,
  scan-digits fuel (n / 10),
  scan-append 0 (digits fuel (n / 10)) ((b'0' + n % 10) ∷ []) {m = n / 10},
)

digits-ne-nil : (fuel n : ℕ) → digits (suc fuel) n ≢ []
unfolding digits
digits-ne-nil fuel n = ground (arith, concat-ne-nil (b'0' + n % 10) (digits fuel (n / 10)))

-- A text that is not empty is read digit by digit, whatever its first byte.
unsigned-scan : (s : Text) → s ≢ [] → unsigned s ≡ scan 0 s
unfolding unsigned
unsigned-scan [] h = absurd (h refl)
unsigned-scan (c ∷ s) h = refl

unsigned-digits : (fuel n : ℕ) → n < suc fuel → unsigned (digits (suc fuel) n) ≡ some n
unsigned-digits fuel n h =
    unsigned-scan (digits (suc fuel) n) (digits-ne-nil fuel n) ∙ scan-digits (suc fuel) n h

-- A text of digits has no sign in front.
atoi_digits : (s : Text) → All IsDigit s → atoi s ≡ non_negative (unsigned s)
unfolding atoi unsigned
atoi_digits [] a = unfold non_negative in refl
atoi_digits (c ∷ s) (d, a) = ground arith

-- Reading back the print of an int64 gives the int64.
pub atoi-itoa : (z : ℤ) → pos_part z < 2 ^ 63 → neg_part z ≤ 2 ^ 63 → atoi (itoa z) ≡ some z
unfolding itoa
atoi-itoa (pos n) h k =
    rw (atoi_digits (digits (suc n) n) (digits-IsDigit (suc n) n))
      (rw (unsigned-digits n n (omega arith)) (unfold non_negative in ground arith))
atoi-itoa (negsuc n) h k =
    unfold atoi in ground (arith, unsigned-digits (suc n) (suc n) (omega arith))

digit-ne : (b : ℕ) (s : Text) → b'9' < b → All IsDigit s → Lacks b s
digit-ne b [] h a = tt
digit-ne b (c ∷ s) h (d, a) = (omega arith, digit-ne b s h a)

-- The print of an integer has no byte above the digits.
pub itoa-Lacks : (z : ℤ) (b : ℕ) → b'9' < b → Lacks b (itoa z)
unfolding itoa
itoa-Lacks (pos n) b h = digit-ne b (digits (suc n) n) h (digits-IsDigit (suc n) n)
itoa-Lacks (negsuc n) b h = (
  omega arith,
  digit-ne b (digits (suc (suc n)) (suc n)) h (digits-IsDigit (suc (suc n)) (suc n)),
)

digits-above : (b : ℕ) (s : Text) → b < b'0' → All IsDigit s → All (λ c. b < c) s
digits-above b [] h a = tt
digits-above b (c ∷ s) h (d, a) = (omega (arith, d.0), digits-above b s h a)

-- The bytes of the print of an integer are above each byte below the sign.
pub itoa-above : (z : ℤ) (b : ℕ) → b < b'-' → All (λ c. b < c) (itoa z)
unfolding itoa
itoa-above (pos n) b h = digits-above b (digits (suc n) n) (omega arith) (digits-IsDigit (suc n) n)
itoa-above (negsuc n) b h = (
  h,
  digits-above b (digits (suc (suc n)) (suc n)) (omega arith)
      (digits-IsDigit (suc (suc n)) (suc n)),
)
