-- ===== src/Go/Text.antt =====
-- Go's strings as lists of bytes, with the functions of the package `strings` that the program
-- calls: Split, SplitN, Contains, HasPrefix, HasSuffix, TrimSpace, TrimLeft, TrimRight, ToLower.
use Prim.Native.Char.{code}
use Prim.Native.String.{String}
use mathlib.Core.List.{reverse}
use freno.Prelude.{
  ℕ, ◌+◌, ◌≡◌, ◌≢◌, refl, ◌↔◌, Bool, true, false, ◌&&◌, ◌||◌, List, [], ◌∷◌, ◌++◌, map, arith, ltb,
  leb, ◌==◌, ==_iff, if◌then◌else◌, Eq, All,
}

abbrev pub Text : Type 0
Text = List ℕ

-- A literal of the source: its code points are its bytes, since all of them are ASCII.
abbrev pub codes : String → Text
codes String.[] = []
codes (String.◌∷◌ c s) = code c ∷ codes s

unfoldable pub str_eq : Text → Text → Bool
str_eq [] [] = true
str_eq [] (d ∷ t) = false
str_eq (c ∷ s) [] = false
str_eq (c ∷ s) (d ∷ t) = c == d && str_eq s t

pub str_eq_iff : (s t : Text) → (str_eq s t ≡ true) ↔ (s ≡ t)
unfolding str_eq
str_eq_iff [] [] = ground arith
str_eq_iff [] (d ∷ t) = ground arith
str_eq_iff (c ∷ s) [] = ground arith
str_eq_iff (c ∷ s) (d ∷ t) = ground (arith, ==_iff c d, str_eq_iff s t)

instance abbrev pub text_eq : Eq Text
text_eq = record { beq = str_eq; beq_iff = str_eq_iff }

-- The order of Go's `<` on strings: by bytes, a prefix first.
unfoldable pub str_lt : Text → Text → Bool
str_lt [] [] = false
str_lt [] (d ∷ t) = true
str_lt (c ∷ s) [] = false
str_lt (c ∷ s) (d ∷ t) = ltb c d || (c == d && str_lt s t)

-- No byte of the text is the separator.
abbrev pub Lacks : ℕ → Text → Type 0
Lacks b = All (λ c. c ≢ b)

-- Puts a byte in front of the first part.
abbrev pub onto_first : ℕ → List Text → List Text
onto_first c [] = (c ∷ []) ∷ []
onto_first c (p ∷ ps) = (c ∷ p) ∷ ps

-- strings.Split at a single byte.
unfoldable pub split : Text → ℕ → List Text
split [] sep = [] ∷ []
split (c ∷ s) sep = elim (c == sep) [ true ↦ [] ∷ split s sep | false ↦ onto_first c (split s sep) ]

-- strings.SplitN(s, sep, 2): the text around the first separator, or the whole text.
unfoldable pub split_n2 : Text → ℕ → List Text
split_n2 [] sep = [] ∷ []
split_n2 (c ∷ s) sep = elim (c == sep) [
  | true ↦ [] ∷ s ∷ []
  | false ↦ onto_first c (split_n2 s sep)
]

unfoldable pub has_prefix : Text → Text → Bool
has_prefix s [] = true
has_prefix [] (d ∷ p) = false
has_prefix (c ∷ s) (d ∷ p) = c == d && has_prefix s p

unfoldable pub contains : Text → Text → Bool
unfolding has_prefix
contains [] sub = has_prefix [] sub
contains (c ∷ s) sub = has_prefix (c ∷ s) sub || contains s sub

unfoldable pub has_suffix : Text → Text → Bool
unfolding has_prefix
has_suffix s suffix = has_prefix (reverse s) (reverse suffix)

-- strings.Contains with one byte.
unfoldable pub has_byte : Text → ℕ → Bool
has_byte [] b = false
has_byte (c ∷ s) b = c == b || has_byte s b

unfoldable pub trim_left : (ℕ → Bool) → Text → Text
trim_left cut [] = []
trim_left cut (c ∷ s) = elim (cut c) [ true ↦ trim_left cut s | false ↦ c ∷ s ]

unfoldable pub trim_right : (ℕ → Bool) → Text → Text
unfolding trim_left
trim_right cut s = reverse (trim_left cut (reverse s))

-- The ASCII white space of `unicode.IsSpace`.
abbrev pub is_space : ℕ → Bool
is_space c = c == 32 || (leb 9 c && leb c 13)

unfoldable pub trim_space : Text → Text
unfolding trim_left trim_right
trim_space s = trim_right is_space (trim_left is_space s)

unfoldable pub to_lower : Text → Text
to_lower = map (λ c. if leb b'A' c && leb c b'Z' then c + 32 else c)

pub has_byte→Lacks : (s : Text) (b : ℕ) → has_byte s b ≡ false → Lacks b s
unfolding has_byte
has_byte→Lacks [] b h = tt
has_byte→Lacks (c ∷ s) b h = (ground arith, has_byte→Lacks s b (ground arith))

pub Lacks→has_byte : (s : Text) (b : ℕ) → Lacks b s → has_byte s b ≡ false
unfolding has_byte
Lacks→has_byte [] b h = refl
Lacks→has_byte (c ∷ s) b (hc, hs) = ground (arith, Lacks→has_byte s b hs)

pub has_byte-append_sep : (s t : Text) (b : ℕ) → has_byte (s ++ b ∷ t) b ≡ true
unfolding has_byte
has_byte-append_sep [] t b = ground arith
has_byte-append_sep (c ∷ s) t b = ground (arith, has_byte-append_sep s t b)

pub split_n2-append_sep :
    (s t : Text) (sep : ℕ) → Lacks sep s → split_n2 (s ++ sep ∷ t) sep ≡ s ∷ t ∷ []
unfolding split_n2
split_n2-append_sep [] t sep h = ground arith
split_n2-append_sep (c ∷ s) t sep (hc, hs) = ground (arith, split_n2-append_sep s t sep hs)

pub split-Lacks : (s : Text) (sep : ℕ) → Lacks sep s → split s sep ≡ s ∷ []
unfolding split
split-Lacks [] sep h = refl
split-Lacks (c ∷ s) sep (hc, hs) = ground (arith, split-Lacks s sep hs)

pub split-append_sep :
    (s t : Text) (sep : ℕ) → Lacks sep s → split (s ++ sep ∷ t) sep ≡ s ∷ split t sep
unfolding split
split-append_sep [] t sep h = ground arith
split-append_sep (c ∷ s) t sep (hc, hs) = ground (arith, split-append_sep s t sep hs)

-- Two texts cut at their first separator: equal texts have equal parts.
pub append_sep_injective :
    (s s' t t' : Text) (sep : ℕ)
    → Lacks sep s
    → Lacks sep s'
    → s ++ sep ∷ t ≡ s' ++ sep ∷ t'
    → (s ≡ s') × (t ≡ t')
append_sep_injective [] [] t t' sep h h' e = ground arith
append_sep_injective [] (c ∷ s') t t' sep h (hc, hs) e = ground arith
append_sep_injective (c ∷ s) [] t t' sep (hc, hs) h' e = ground arith
append_sep_injective (c ∷ s) (d ∷ s') t t' sep (hc, hs) (hd, hs') e =
    ground (arith, append_sep_injective s s' t t' sep hs hs')
