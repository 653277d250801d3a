-- ===== src/JobName/Checks.antt =====
-- What the check of a name says, whatever it says.
use godelayq.Prelude.{
  ℕ, suc, ◌≡◌, ◌≤◌, ◌<◌, ◌+◌, ◌⊎◌, refl, ap, subst, inl, inr, List, [], ◌∷◌, Bool, true, false,
  ◌&&◌, ◌||◌, some, arith, leb, ltb, length, get_elem?, Bool-cases, and_right, zero,
}
use godelayq.JobName.{
  NameCheck, valid, empty, too_long, bad_character, is_allowed_name_rune, each_in_class,
  job_name_pattern, first_invalid_from, first_invalid_name_rune, validate_job_name,
}

module _ (han : ℕ → Bool) where
  -- Every character before the place is allowed.
  abbrev pub AllowedBelow : List ℕ → ℕ → Type 0
  AllowedBelow [] i = Unit
  AllowedBelow (c ∷ s) zero = Unit
  AllowedBelow (c ∷ s) (suc i) = (is_allowed_name_rune han c ≡ true) × AllowedBelow s i

  -- What each answer means.
  abbrev pub Means : List ℕ → NameCheck → Type 0
  Means s valid = (1 ≤ length s) × (length s ≤ 64) × AllowedBelow s (length s)
  Means s empty = s ≡ []
  Means s (too_long n) = (n ≡ length s) × (64 < n)
  Means s (bad_character c i) =
      (length s ≤ 64)
      × (get_elem? s i ≡ some c)
      × (is_allowed_name_rune han c ≡ false)
      × AllowedBelow s i

  same_class :
      (c : ℕ)
      → (han c
          || (leb b'A' c && leb c b'Z')
          || (leb b'a' c && leb c b'z')
          || (leb b'0' c && leb c b'9'))
        ≡ is_allowed_name_rune han c
  unfolding is_allowed_name_rune
  same_class c =
      or_four (han c) (leb b'A' c && leb c b'Z') (leb b'a' c && leb c b'z')
        (leb b'0' c && leb c b'9')
    where
      or_four : (h u l d : Bool) → (h || u || l || d) ≡ (d || l || u || h)
      or_four true true true true = refl
      or_four true true true false = refl
      or_four true true false true = refl
      or_four true true false false = refl
      or_four true false true true = refl
      or_four true false true false = refl
      or_four true false false true = refl
      or_four true false false false = refl
      or_four false true true true = refl
      or_four false true true false = refl
      or_four false true false true = refl
      or_four false true false false = refl
      or_four false false true true = refl
      or_four false false true false = refl
      or_four false false false true = refl
      or_four false false false false = refl

  all_allowed : (s : List ℕ) → each_in_class han s ≡ true → AllowedBelow s (length s)
  unfolding each_in_class
  all_allowed [] e = tt
  all_allowed (c ∷ s) e = elim (Bool-cases (is_allowed_name_rune han c)) [
    | inl fine ↦ (fine, all_allowed s (and_right _ _ e))
    | inr bad ↦ let f = rw (same_class c, bad) at e in absurd (cc)
  ]

  -- Where the class leaves a character out, the loop finds the first.
  first_found :
      (s : List ℕ) (start : ℕ)
      → each_in_class han s ≡ false
      → (i : ℕ) × ((first_invalid_from han s start).1 ≡ start + i)
        × (get_elem? s i ≡ some (first_invalid_from han s start).0)
        × (is_allowed_name_rune han (first_invalid_from han s start).0 ≡ false)
        × AllowedBelow s i
  unfolding each_in_class first_invalid_from
  first_found [] start e = absurd (cc)
  first_found (c ∷ s) start e = elim (Bool-cases (is_allowed_name_rune han c)) [
    | inl fine ↦
        let (i, place, there, bad, before) =
          first_found s (suc start) (rw (same_class c, fine) at e) in
        (suc i, rw fine (omega (arith, place)), rw fine there, rw fine bad, (fine, before))
    | inr bad ↦ (0, rw bad (omega arith), rw bad refl, rw bad bad, tt)
  ]

  reported :
      (s : List ℕ)
      → each_in_class han s ≡ false
      → length s ≤ 64
      → (c i : ℕ) → first_invalid_name_rune han s ≡ (c, i)
      → Means s (bad_character c i)
  unfolding first_invalid_name_rune
  reported s bad small c i e =
      let (j, place, there, wrong, before) = first_found s 0 bad in
      let which : (first_invalid_from han s 0).0 ≡ c = ap (λ (p : ℕ × ℕ). p.0) e in
      let where_at : j ≡ i = (let at = ap (λ (p : ℕ × ℕ). p.1) e in omega arith) in
      let there' : get_elem? s i ≡ some c = rw (where_at, which) at there in
      (small, there', rw which at wrong, subst (AllowedBelow s) where_at before)

  matches :
      (s : List ℕ)
      → each_in_class han s ≡ true
      → 1 ≤ length s
      → length s ≤ 64
      → job_name_pattern han s ≡ true
  unfolding job_name_pattern
  matches s all some_char fits = rw all (ground arith)

  mismatches :
      (s : List ℕ)
      → (each_in_class han s ≡ false) ⊎ (64 < length s)
      → job_name_pattern han s ≡ false
  unfolding job_name_pattern
  mismatches s (inl bad) = rw bad refl
  mismatches s (inr long) = elim (Bool-cases (each_in_class han s)) [
    | inl all ↦ rw all (ground arith)
    | inr bad ↦ rw bad refl
  ]

  empty_mismatches : job_name_pattern han [] ≡ false
  unfolding job_name_pattern each_in_class
  empty_mismatches = refl

  -- ValidateJobName gives no error exactly for 1 to 64 allowed characters; an empty name and one of more
  -- than 64 characters are told apart, and of any other the first character that is not allowed is
  -- reported, with its place: the pattern and the loop agree on what is allowed.
  pub validate_job_name_lem : (s : List ℕ) → Means s (validate_job_name han s)
  unfolding validate_job_name
  validate_job_name_lem [] = rw empty_mismatches refl
  validate_job_name_lem (c ∷ s) = elim (Bool-cases (leb (length (c ∷ s)) 64)) [
    | inr long ↦
        let more : 64 < length (c ∷ s) = ground arith in
        let over : ltb 64 (length (c ∷ s)) ≡ true = ground arith in
        rw (mismatches (c ∷ s) (inr more), over) (refl, more)
    | inl fits ↦
        let few : length (c ∷ s) ≤ 64 = ground arith in
        let not_over : ltb 64 (length (c ∷ s)) ≡ false = ground arith in
        elim (Bool-cases (each_in_class han (c ∷ s))) [
          | inl all ↦
              rw (matches (c ∷ s) all (omega arith) few) (omega arith, few, all_allowed (c ∷ s) all)
          | inr bad ↦
              rw (mismatches (c ∷ s) (inl bad), not_over) (reported (c ∷ s) bad few _ _ refl)
        ]
  ]
