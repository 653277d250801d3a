-- ===== src/Text.antt =====
-- What the code uses of Go's strings package, over the code points of a text.
use Prim.Native.Char.{code}
use Prim.Native.String.{String}
use godelayq.Prelude.{
  zero, suc, ◌-◌, not, ℕ, ◌+◌, ◌≡◌, refl, List, [], ◌∷◌, map, Bool, true, false, Option, none, some,
  ◌&&◌, ◌||◌, arith, leb, ◌==◌, if◌then◌else◌,
}
use mathlib.Core.List.{reverse}

-- The code points of a text.
abbrev pub codes : String → List ℕ
codes String.[] = []
codes (String.◌∷◌ c s) = code c ∷ codes s

-- unicode.IsSpace.
unfoldable pub is_space : ℕ → Bool
is_space c =
    (leb 9 c && leb c 13)
    || c == 32
    || c == 0x85
    || c == 0xa0
    || c == 0x1680
    || (leb 0x2000 c && leb c 0x200a)
    || c == 0x2028
    || c == 0x2029
    || c == 0x202f
    || c == 0x205f
    || c == 0x3000

unfoldable pub trim_left : List ℕ → List ℕ
trim_left [] = []
trim_left (c ∷ s) = if is_space c then trim_left s else c ∷ s

-- strings.TrimSpace.
unfoldable pub trim_space : List ℕ → List ℕ
unfolding trim_left is_space
trim_space s = reverse (trim_left (reverse (trim_left s)))

-- strings.TrimSpace again, as a text.
unfoldable pub trim_front : String → String
unfolding is_space
trim_front String.[] = String.[]
trim_front (String.◌∷◌ c s) = if is_space (code c) then trim_front s else String.◌∷◌ c s

abbrev pub is_blank_text : String → Bool
is_blank_text String.[] = true
is_blank_text (String.◌∷◌ c s) = false

unfoldable pub trim_back : String → String
unfolding is_space
trim_back String.[] = String.[]
trim_back (String.◌∷◌ c s) =
    let rest = trim_back s in
    if is_blank_text rest && is_space (code c) then String.[] else String.◌∷◌ c rest

unfoldable pub trim_text : String → String
unfolding trim_front trim_back
trim_text s = trim_back (trim_front s)

-- strings.CutPrefix s prefix.
unfoldable pub cut_prefix : String → String → Option String
cut_prefix s String.[] = some s
cut_prefix String.[] (String.◌∷◌ p ps) = none
cut_prefix (String.◌∷◌ c s) (String.◌∷◌ p ps) =
    let rest = cut_prefix s ps in if code c == code p then rest else none

-- strings.HasPrefix s prefix.
unfoldable pub has_prefix : List ℕ → List ℕ → Bool
has_prefix s [] = true
has_prefix [] (p ∷ ps) = false
has_prefix (c ∷ s) (p ∷ ps) = c == p && has_prefix s ps

-- The case folding of strings.EqualFold where one of the two texts is ASCII: the letters, and the
-- two other characters that fold to an ASCII letter (the Kelvin sign and the long s).
unfoldable pub fold_rune : ℕ → ℕ
fold_rune c =
    if leb b'A' c && leb c b'Z'
    then c + 32
    else if c == 0x212a
    then b'k'
    else if c == 0x17f
    then b's'
    else c

unfoldable pub equal_codes : List ℕ → List ℕ → Bool
equal_codes [] [] = true
equal_codes [] (d ∷ t) = false
equal_codes (c ∷ s) [] = false
equal_codes (c ∷ s) (d ∷ t) = c == d && equal_codes s t

unfoldable pub equal_fold : List ℕ → List ℕ → Bool
unfolding equal_codes fold_rune
equal_fold s t = equal_codes (map fold_rune s) (map fold_rune t)

pub equal_codes_refl : (s : List ℕ) → equal_codes s s ≡ true
unfolding equal_codes
equal_codes_refl [] = refl
equal_codes_refl (c ∷ s) = ground (arith, equal_codes_refl s)

pub equal_codes_sound : (s t : List ℕ) → equal_codes s t ≡ true → s ≡ t
unfolding equal_codes
equal_codes_sound [] [] h = refl
equal_codes_sound [] (d ∷ t) h = cc
equal_codes_sound (c ∷ s) [] h = cc
equal_codes_sound (c ∷ s) (d ∷ t) h = ground (arith, equal_codes_sound s t)

abbrev pub is_continuation : ℕ → Bool
is_continuation b = leb 0x80 b && leb b 0xbf

abbrev pub starts_continuation : List ℕ → Bool
starts_continuation [] = false
starts_continuation (b ∷ s) = is_continuation b

-- The bytes of the character of UTF-8 that the text starts with, 0 where it starts with none. The second
-- byte has a smaller range behind 0xe0, 0xed, 0xf0 and 0xf4.
unfoldable pub rune_size : List ℕ → ℕ
rune_size [] = 0
rune_size (b ∷ []) = if leb b 0x7f then 1 else 0
rune_size (b ∷ c ∷ []) =
    if leb b 0x7f then 1 else if leb 0xc2 b && leb b 0xdf && is_continuation c then 2 else 0
rune_size (b ∷ c ∷ d ∷ s) =
    if leb b 0x7f
    then 1
    else if leb 0xc2 b && leb b 0xdf && is_continuation c
    then 2
    else if leb 0xe0 b
        && leb b 0xef
        && is_continuation c
        && is_continuation d
        && (leb 0xa0 c || not (b == 0xe0))
        && (leb c 0x9f || not (b == 0xed))
    then 3
    else if leb 0xf0 b
        && leb b 0xf4
        && is_continuation c
        && is_continuation d
        && starts_continuation s
        && (leb 0x90 c || not (b == 0xf0))
        && (leb c 0x8f || not (b == 0xf4))
    then 4
    else 0

-- The text behind the first bytes, which are kept.
unfoldable pub replace_invalid : ℕ → List ℕ → List ℕ
unfolding rune_size
replace_invalid n [] = []
replace_invalid (suc n) (b ∷ s) = b ∷ replace_invalid n s
replace_invalid zero (b ∷ s) =
    let size = rune_size (b ∷ s) in
    let rest = replace_invalid (size - 1) s in
    if size == 0 then 0xef ∷ 0xbf ∷ 0xbd ∷ rest else b ∷ rest

-- What encoding/json writes for a text: each byte that is no UTF-8 is replaced by the character U+FFFD.
unfoldable pub to_valid_utf8 : List ℕ → List ℕ
unfolding replace_invalid
to_valid_utf8 s = replace_invalid 0 s
