-- ===== src/Executor/Args/Timeouts.antt =====
-- How long a run may take.
use mathlib.Core.Option.{some_inj}
use godelayq.Prelude.{
  leb, ◌≢◌, ◌⊎◌, false, ℕ, ◌≡◌, ◌<◌, ◌≤◌, refl, inl, inr, true, Option, some, String, arith, ltb,
  Bool-cases, Option-cases, if◌then◌else◌,
}
use godelayq.Int64.{positive64}
use godelayq.Executor.Args.{
  Profile, parse_timeout, check_timeout_within_profile, timeout_within, positive_or,
  default_exec_default_timeout, default_exec_max_timeout,
}

requested_within :
    (parse : String → Option ℕ) (p : Profile) (raw : String) (requested : ℕ)
    → check_timeout_within_profile parse p raw ≡ some requested
    → requested ≤ p.timeout
unfolding check_timeout_within_profile
requested_within parse p raw requested e = elim (Option-cases (parse_timeout parse raw)) [
  | inl bad ↦ let f = rw (bad, check_timeout_within_profile) at e in absurd (cc)
  | inr (t, read) ↦
      let f = rw (read, check_timeout_within_profile) at e in
      elim (Bool-cases (ltb p.timeout t)) [
        | inl long ↦ let g = rw long at f in absurd (cc)
        | inr fits ↦ let g = some_inj.0 (rw fits at f) in ground arith
      ]
]

positive_or-positive : (a b : ℕ) → positive64 b ≡ true → positive64 (positive_or a b) ≡ true
positive_or-positive a b good = elim (Bool-cases (positive64 a)) [
  | inl positive ↦ rw positive positive
  | inr other ↦ rw other good
]

capped_lem :
    (ceiling value limit : ℕ)
    → positive64 ceiling ≡ true
    → positive64 value ≡ true
    → value ≤ limit
    → (0 < positive_or (if ltb ceiling value then ceiling else value) default_exec_default_timeout)
      × (positive_or (if ltb ceiling value then ceiling else value) default_exec_default_timeout
          ≤ ceiling)
      × (positive_or (if ltb ceiling value then ceiling else value) default_exec_default_timeout
          ≤ limit)
capped_lem ceiling value limit top good fits = elim (Bool-cases (ltb ceiling value)) [
  | inl over ↦ rw (over, top) (ground arith, omega arith, ground arith)
  | inr under ↦ rw (under, good) (ground arith, ground arith, fits)
]

-- The time that is asked for, before it is cut.
abbrev asked_for : ℕ → Profile → ℕ → ℕ
asked_for default_timeout p requested =
    positive_or requested
      (positive_or p.timeout (positive_or default_timeout default_exec_default_timeout))

asked_for-positive :
    (default_timeout : ℕ) (p : Profile) (requested : ℕ)
    → positive64 (asked_for default_timeout p requested) ≡ true
asked_for-positive default_timeout p requested =
    positive_or-positive requested _
      (positive_or-positive p.timeout _ (positive_or-positive default_timeout _ refl))

asked_within :
    (default_timeout : ℕ) (p : Profile) (requested : ℕ)
    → positive64 p.timeout ≡ true
    → requested ≤ p.timeout
    → asked_for default_timeout p requested ≤ p.timeout
asked_within default_timeout p requested limited within = elim (Bool-cases (positive64 requested)) [
  | inl asked ↦ rw asked within
  | inr not_asked ↦ rw (not_asked, limited) (omega arith)
]

-- A run has a time limit that is positive and is at most the greatest that the configuration allows,
-- whatever the profile and the payload say. It is also at most the timeout of the profile, unless that is
-- not positive or the payload has a timeout that is not accepted.
pub timeout_within_lem :
    (parse : String → Option ℕ) (default_timeout max_timeout : ℕ) (p : Profile) (raw : String)
    (requested : ℕ)
    → (0 < timeout_within default_timeout max_timeout p requested)
      × (timeout_within default_timeout max_timeout p requested
          ≤ positive_or max_timeout default_exec_max_timeout)
      × ((positive64 p.timeout ≡ false)
          ⊎ (check_timeout_within_profile parse p raw ≢ some requested)
          ⊎ (timeout_within default_timeout max_timeout p requested ≤ p.timeout))
unfolding timeout_within
timeout_within_lem parse default_timeout max_timeout p raw requested =
    let ceiling = positive_or max_timeout default_exec_max_timeout in
    let value = asked_for default_timeout p requested in
    let top : positive64 ceiling ≡ true =
      positive_or-positive max_timeout default_exec_max_timeout refl in
    let good = asked_for-positive default_timeout p requested in
    let whole = capped_lem ceiling value value top good (omega arith) in
    (
      whole.0,
      whole.1,
      elim (Bool-cases (positive64 p.timeout)) [
        | inr unset ↦ inl unset
        | inl limited ↦ inr (elim (Bool-cases (leb requested p.timeout)) [
          | inl within ↦
              let fits = asked_within default_timeout p requested limited (ground arith) in
              inr (capped_lem ceiling value p.timeout top good fits).2
          | inr over ↦
              inl (λ e. let within = requested_within parse p raw requested e in ground arith)
        ])
      ],
    )
