-- ===== src/Go/Utf8.antt =====
-- What a string becomes on its way through encoding/json: each byte that is not part of a UTF-8
-- encoded rune is replaced by U+FFFD, and every other character is escaped so that it is decoded to
-- itself. The runes are those of unicode/utf8, and `zero` stands for no rune.
use freno.Prelude.{ℕ, zero, suc, Bool, ◌&&◌, [], ◌∷◌, leb, if◌then◌else◌}
use freno.Go.Text.{Text}

abbrev within : ℕ → ℕ → ℕ → Bool
within low high c = leb low c && leb c high

-- A byte that continues a rune.
abbrev continues : ℕ → Bool
continues = within 128 191

size2 : Text → ℕ
size2 [] = 0
size2 (d ∷ s) = if continues d then 2 else 0

-- The bounds on the second byte depend on the first.
size3 : ℕ → ℕ → Text → ℕ
size3 low high [] = 0
size3 low high (d ∷ []) = 0
size3 low high (d ∷ e ∷ s) = if within low high d && continues e then 3 else 0

size4 : ℕ → ℕ → Text → ℕ
size4 low high [] = 0
size4 low high (d ∷ []) = 0
size4 low high (d ∷ e ∷ []) = 0
size4 low high (d ∷ e ∷ f ∷ s) = if within low high d && (continues e && continues f) then 4 else 0

-- The number of bytes of the rune at the start of a byte and a text.
unfoldable rune_size : ℕ → Text → ℕ
unfolding size2 size3 size4
rune_size c s =
    if leb c 127
    then 1
    else if within 194 223 c
    then size2 s
    else if within 224 224 c
    then size3 160 191 s
    else if within 237 237 c
    then size3 128 159 s
    else if within 225 239 c
    then size3 128 191 s
    else if within 240 240 c
    then size4 144 191 s
    else if within 241 243 c
    then size4 128 191 s
    else if within 244 244 c
    then size4 128 143 s
    else 0

-- `k` bytes of a rune are still to come.
unfoldable pub coerce_from : ℕ → Text → Text
unfolding rune_size
coerce_from k [] = []
coerce_from (suc k) (c ∷ s) = c ∷ coerce_from k s
coerce_from zero (c ∷ s) = elim (rune_size c s) [
  | zero ↦ 239 ∷ 191 ∷ 189 ∷ coerce_from zero s
  | suc k ↦ c ∷ coerce_from k s
]

unfoldable pub coerce : Text → Text
unfolding coerce_from
coerce s = coerce_from zero s
