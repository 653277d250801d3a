-- ===== src/JsonStore/Live.antt =====
-- The map of the store: each job under its own id, and what the writes do to a job that is not
-- finished.
use godelayq.Prelude.{
  ℕ, ◌≡◌, refl, sym, ap, ◌∙◌, inl, inr, [], ◌∷◌, map, Bool, false, ◌&&◌, none, some, String, if_pos,
  if_neg, string_discrete, Bool-cases,
}
use godelayq.Dict
use godelayq.Dict.{Dict}
use godelayq.Dict.Keys.{Distinct}
use godelayq.Job.{JobSnapshot, is_terminal}
use godelayq.Scheduler.{find_id}
use godelayq.JsonStore.{stale, sweep}

-- Every job stands under its id.
abbrev pub Keyed : Dict JobSnapshot → Type 0
Keyed [] = Unit {0}
Keyed ((k, s) ∷ m) = (s.id ≡ k) × Keyed m

pub insert-Keyed :
    (k : String) (s : JobSnapshot) (m : Dict JobSnapshot)
    → s.id ≡ k
    → Keyed m
    → Keyed (Dict.insert k s m)
unfolding Dict.insert
insert-Keyed k s [] e h = (e, tt)
insert-Keyed k s ((j, t) ∷ m) e h = elim (string_discrete j k) [
  | yes same ↦ rw (if_pos (string_discrete j k) same) (e, h.1)
  | no other ↦ rw (if_neg (string_discrete j k) other) (h.0, insert-Keyed k s m e h.1)
]

pub delete-Keyed : (k : String) (m : Dict JobSnapshot) → Keyed m → Keyed (Dict.delete k m)
unfolding Dict.delete
delete-Keyed k [] h = tt
delete-Keyed k ((j, t) ∷ m) h = elim (string_discrete j k) [
  | yes same ↦ rw (if_pos (string_discrete j k) same) (delete-Keyed k m h.1)
  | no other ↦ rw (if_neg (string_discrete j k) other) (h.0, delete-Keyed k m h.1)
]

-- A loop over the jobs finds under an id what the map has there.
pub find_id-map :
    (k : String) (m : Dict JobSnapshot) → Keyed m → find_id k (map (λ e. e.1) m) ≡ Dict.lookup k m
unfolding Dict.lookup
find_id-map k [] h = refl
find_id-map k ((j, s) ∷ m) h = elim (string_discrete j k) [
  | yes same ↦
      if_pos (string_discrete s.id k) (h.0 ∙ same) _ _ ∙ sym (if_pos (string_discrete j k) same _ _)
  | no other ↦
      if_neg (string_discrete s.id k) (λ e. other (sym h.0 ∙ e)) _ _
      ∙ find_id-map k m h.1
      ∙ sym (if_neg (string_discrete j k) other _ _)
]

module _ (limit ttl now : ℕ) where
  abbrev pub off : JobSnapshot → Bool
  off s = is_terminal s.status && stale limit ttl now s

  -- A job that is not finished, or not stale, stays where it is.
  pub lookup-sweep :
      (k : String) (s : JobSnapshot) (m : Dict JobSnapshot)
      → Dict.lookup k m ≡ some s
      → off s ≡ false
      → Dict.lookup k (sweep limit ttl now m) ≡ some s
  unfolding sweep Dict.lookup
  lookup-sweep k s [] e h = absurd (cc)
  lookup-sweep k s ((j, t) ∷ m) e h = elim (string_discrete j k) [
    | yes same ↦
        let e1 = rw (if_pos (string_discrete j k) same) at e in
        let t_is : t ≡ s = cc in rw (ap off t_is ∙ h) (if_pos (string_discrete j k) same _ _ ∙ e1)
    | no other ↦
        let ih = lookup-sweep k s m (rw (if_neg (string_discrete j k) other) at e) h in
        elim (Bool-cases (off t)) [
          | inl gone ↦ rw gone ih
          | inr stays ↦ rw stays (if_neg (string_discrete j k) other _ _ ∙ ih)
        ]
  ]

  pub lookup-sweep-none :
      (k : String) (m : Dict JobSnapshot)
      → Dict.lookup k m ≡ none
      → Dict.lookup k (sweep limit ttl now m) ≡ none
  unfolding sweep Dict.lookup
  lookup-sweep-none k [] e = refl
  lookup-sweep-none k ((j, t) ∷ m) e = elim (string_discrete j k) [
    | yes same ↦ let e1 = rw (if_pos (string_discrete j k) same) at e in absurd (cc)
    | no other ↦
        let ih = lookup-sweep-none k m (rw (if_neg (string_discrete j k) other) at e) in
        elim (Bool-cases (off t)) [
          | inl gone ↦ rw gone ih
          | inr stays ↦ rw stays (if_neg (string_discrete j k) other _ _ ∙ ih)
        ]
  ]

  pub sweep-Distinct : (m : Dict JobSnapshot) → Distinct m → Distinct (sweep limit ttl now m)
  unfolding sweep
  sweep-Distinct [] d = tt
  sweep-Distinct ((j, t) ∷ m) d = elim (Bool-cases (off t)) [
    | inl gone ↦ rw gone (sweep-Distinct m d.1)
    | inr stays ↦ rw stays (lookup-sweep-none j m d.0, sweep-Distinct m d.1)
  ]

  pub sweep-Keyed : (m : Dict JobSnapshot) → Keyed m → Keyed (sweep limit ttl now m)
  unfolding sweep
  sweep-Keyed [] h = tt
  sweep-Keyed ((j, t) ∷ m) h = elim (Bool-cases (off t)) [
    | inl gone ↦ rw gone (sweep-Keyed m h.1)
    | inr stays ↦ rw stays (h.0, sweep-Keyed m h.1)
  ]
