-- ===== src/Job/Status.antt =====
-- The names of the statuses and of the executor handler keys.
use godelayq.Prelude.{
  ℕ, zero, suc, AllBelow, ◌↔◌, subst, sym, ◌≡◌, ◌<◌, List, [], ◌∷◌, map, some, arith, Bool-cases,
  inl, inr,
}
use godelayq.Text.{codes, equal_fold, equal_codes, equal_codes_sound, fold_rune}
use godelayq.Job.{JobStatus, to_string, parse_job_status, parse_from, all_statuses}

parse_from_sound :
    (n : ℕ) (l : List JobStatus) (name : List ℕ) {s : JobStatus}
    → AllBelow n l
    → parse_from l name ≡ some s
    → (s < n) × (map fold_rune name ≡ map fold_rune (codes (to_string s)))
unfolding parse_from equal_fold
parse_from_sound n [] name b e = absurd (cc)
parse_from_sound n (t ∷ l) name {s} b e =
    elim (Bool-cases (equal_fold (codes (to_string t)) name)) [
      | inl same ↦
          let found : t ≡ s = ground arith in
          subst (λ u. (u < n) × (map fold_rune name ≡ map fold_rune (codes (to_string u)))) found
            (b.0, sym (equal_codes_sound _ _ same))
      | inr other ↦ parse_from_sound n l name b.1 (rw other at e)
    ]

name_of_status :
    (s : JobStatus) (name : List ℕ)
    → s < 6
    → map fold_rune name ≡ map fold_rune (codes (to_string s))
    → parse_job_status name ≡ some s
unfolding parse_job_status to_string equal_fold equal_codes fold_rune
name_of_status zero name p e = rw e
name_of_status (suc zero) name p e = rw e
name_of_status (suc (suc zero)) name p e = rw e
name_of_status (suc (suc (suc zero))) name p e = rw e
name_of_status (suc (suc (suc (suc zero)))) name p e = rw e
name_of_status (suc (suc (suc (suc (suc zero))))) name p e = rw e
name_of_status (suc (suc (suc (suc (suc (suc s)))))) name p e = absurd (omega arith)

-- ParseJobStatus gives a status exactly for the names that fold to the name of one of the six
-- statuses.
pub parse_iff :
    (s : JobStatus) (name : List ℕ)
    → (parse_job_status name ≡ some s)
      ↔ ((s < 6) × (map fold_rune name ≡ map fold_rune (codes (to_string s))))
unfolding parse_job_status
parse_iff s name =
    (λ e. parse_from_sound 6 all_statuses name (omega arith) e, λ h. name_of_status s name h.0 h.1)
