-- ===== src/JobName/Tests.antt =====
-- The check of a name at a name with a dash.
use godelayq.Prelude.{ℕ, ◌≡◌, refl, Bool, List, [], ◌∷◌, ◌&&◌, leb}
use godelayq.JobName.{
  bad_character, is_allowed_name_rune, each_in_class, job_name_pattern, first_invalid_from,
  first_invalid_name_rune, validate_job_name,
}
use godelayq.JobName.Checks.{Means, validate_job_name_lem}

-- The block of the common Chinese characters.
abbrev common : ℕ → Bool
common c = leb 0x4e00 c && leb c 0x9fff

abbrev dashed : List ℕ
dashed = 0x65e5 ∷ b'a' ∷ b'-' ∷ b'1' ∷ []

dash_reported : validate_job_name common dashed ≡ bad_character b'-' 2
unfolding validate_job_name job_name_pattern each_in_class first_invalid_name_rune
    first_invalid_from is_allowed_name_rune
dash_reported = refl

validate_job_name_lem_example : Means common dashed (validate_job_name common dashed)
validate_job_name_lem_example = validate_job_name_lem common dashed
