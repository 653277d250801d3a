-- ===== src/JobName.antt =====
-- core/job_name.go: the check of the name of a job, over the characters of the name. What unicode.Han
-- has, which is also what the pattern says of Chinese characters, is the argument `han`.
pub mod Checks
mod Tests
use godelayq.Prelude.{
  ℕ, suc, List, [], ◌∷◌, Bool, true, false, ◌&&◌, ◌||◌, not, leb, ltb, if◌then◌else◌, length,
}

-- No error, or what the error says: a name that is empty or has so many characters, or the first bad
-- character and its place.
pub data NameCheck : Type 0 where
  valid empty : NameCheck
  too_long : ℕ → NameCheck
  bad_character : ℕ → ℕ → NameCheck

abbrev pub max_job_name_runes : ℕ
max_job_name_runes = 64

module _ (han : ℕ → Bool) where
  unfoldable pub is_allowed_name_rune : ℕ → Bool
  is_allowed_name_rune c =
      (leb b'0' c && leb c b'9')
      || (leb b'a' c && leb c b'z')
      || (leb b'A' c && leb c b'Z')
      || han c

  unfoldable pub each_in_class : List ℕ → Bool
  each_in_class [] = true
  each_in_class (c ∷ s) =
      (han c
        || (leb b'A' c && leb c b'Z')
        || (leb b'a' c && leb c b'z')
        || (leb b'0' c && leb c b'9'))
      && each_in_class s

  -- The pattern: 1 to 64 characters of the class.
  unfoldable pub job_name_pattern : List ℕ → Bool
  job_name_pattern s = each_in_class s && leb 1 (length s) && leb (length s) 64

  -- The loop of firstInvalidNameRune, from the index on.
  unfoldable pub first_invalid_from : List ℕ → ℕ → ℕ × ℕ
  first_invalid_from [] index = (0, index)
  first_invalid_from (c ∷ s) index =
      let rest = first_invalid_from s (suc index) in
      if is_allowed_name_rune c then rest else (c, index)

  unfoldable pub first_invalid_name_rune : List ℕ → ℕ × ℕ
  first_invalid_name_rune s = first_invalid_from s 0

  unfoldable pub validate_job_name : List ℕ → NameCheck
  validate_job_name [] = if job_name_pattern [] then valid else empty
  validate_job_name (c ∷ s) =
      if job_name_pattern (c ∷ s)
      then valid
      else if ltb max_job_name_runes (length (c ∷ s))
      then too_long (length (c ∷ s))
      else (let (bad, index) = first_invalid_name_rune (c ∷ s) in bad_character bad index)
