-- ===== src/Dict/Keys.antt =====
-- A map with one entry for each key: what a loop over it sees is what its lookup gives.
use godelayq.Prelude.{
  ◌≡◌, refl, sym, ap, ◌∙◌, [], ◌∷◌, none, some, String, string_discrete, if_pos, if_neg,
}
use godelayq.Dict.{Dict, lookup, insert, delete, lookup-insert, lookup-delete}

module _ {ℓ} {V : Type ℓ} where
  abbrev pub Distinct : Dict V → Type ℓ
  Distinct [] = Unit
  Distinct ((k, v) ∷ m) = (lookup k m ≡ none) × Distinct m

  -- The map, as a list, has the pair.
  pub data Entry (k : String) (v : V) : Dict V → Type ℓ where
    here : {p : String × V} {m : Dict V} → p.0 ≡ k → p.1 ≡ v → Entry k v (p ∷ m)
    there : {p : String × V} {m : Dict V} → Entry k v m → Entry k v (p ∷ m)

  pub Entry-lookup :
      {k : String} {v : V} {m : Dict V} → Distinct m → Entry k v m → lookup k m ≡ some v
  unfolding lookup
  Entry-lookup d (here {p} {m} same_key same_value) =
      if_pos (string_discrete p.0 _) same_key (some p.1) (lookup _ m) ∙ ap some same_value
  Entry-lookup {k} d (there {p} {m} e) = elim (string_discrete p.0 k) [
    | yes same ↦ let ih = Entry-lookup d.1 e in absurd (cc (ih, d.0, same))
    | no other ↦ if_neg (string_discrete p.0 k) other (some p.1) (lookup k m) ∙ Entry-lookup d.1 e
  ]

  pub lookup-Entry : (k : String) (v : V) (m : Dict V) → lookup k m ≡ some v → Entry k v m
  unfolding lookup
  lookup-Entry k v [] e = absurd (cc)
  lookup-Entry k v ((j, w) ∷ m) e = elim (string_discrete j k) [
    | yes same ↦ here same (let f = rw (if_pos (string_discrete j k) same) at e in cc)
    | no other ↦ there (lookup-Entry k v m (rw (if_neg (string_discrete j k) other) at e))
  ]

  pub insert-Distinct : (k : String) (v : V) (m : Dict V) → Distinct m → Distinct (insert k v m)
  unfolding insert lookup
  insert-Distinct k v [] d = (refl, tt)
  insert-Distinct k v ((j, w) ∷ m) d = elim (string_discrete j k) [
    | yes same ↦ rw (if_pos (string_discrete j k) same) (rw same at d.0, d.1)
    | no other ↦ rw (if_neg (string_discrete j k) other) (
      lookup-insert k j v m ∙ if_neg (string_discrete k j) (λ e. other (sym e)) _ _ ∙ d.0,
      insert-Distinct k v m d.1,
    )
  ]

  pub delete-Distinct : (k : String) (m : Dict V) → Distinct m → Distinct (delete k m)
  unfolding delete lookup
  delete-Distinct k [] d = tt
  delete-Distinct k ((j, w) ∷ m) d = elim (string_discrete j k) [
    | yes same ↦ rw (if_pos (string_discrete j k) same) (delete-Distinct k m d.1)
    | no other ↦ rw (if_neg (string_discrete j k) other) (
      lookup-delete k j m ∙ if_neg (string_discrete k j) (λ e. other (sym e)) _ _ ∙ d.0,
      delete-Distinct k m d.1,
    )
  ]
