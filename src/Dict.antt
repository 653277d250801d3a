-- ===== src/Dict.antt =====
-- A Go map keyed by strings, as an association list: m[k] = v is `insert`, delete(m, k) is
-- `delete`, v, ok := m[k] is `lookup`, and a loop over the map runs over the list.
pub mod Keys
use godelayq.Prelude.{
  ◌≡◌, ◌≢◌, ◌⊎◌, inl, inr, if_pos, if_neg, refl, ite, List, [], ◌∷◌, Option, none, some, String,
  arith, string_discrete,
}

abbrev pub Dict {ℓ} : Type ℓ → Type ℓ
Dict V = List (String × V)

module _ {ℓ} {V : Type ℓ} where
  unfoldable pub lookup : String → Dict V → Option V
  lookup k [] = none
  lookup k ((j, v) ∷ m) = ite (string_discrete j k) (some v) (lookup k m)

  unfoldable pub insert : String → V → Dict V → Dict V
  insert k v [] = (k, v) ∷ []
  insert k v ((j, w) ∷ m) = ite (string_discrete j k) ((k, v) ∷ m) ((j, w) ∷ insert k v m)

  unfoldable pub delete : String → Dict V → Dict V
  delete k [] = []
  delete k ((j, w) ∷ m) = ite (string_discrete j k) (delete k m) ((j, w) ∷ delete k m)

  pub lookup-insert :
      (k j : String) (v : V) (m : Dict V)
      → lookup j (insert k v m) ≡ ite (string_discrete k j) (some v) (lookup j m)
  unfolding lookup insert
  lookup-insert k j v [] = refl
  lookup-insert k j v ((i, w) ∷ m) = ground (arith, lookup-insert k j v m)

  pub lookup-delete :
      (k j : String) (m : Dict V)
      → lookup j (delete k m) ≡ ite (string_discrete k j) none (lookup j m)
  unfolding lookup delete
  lookup-delete k j [] = ground arith
  lookup-delete k j ((i, w) ∷ m) = ground (arith, lookup-delete k j m)

  -- The two laws by cases, as facts for the tactics.
  pub insert_cases :
      (k j : String) (v : V) (m : Dict V)
      → ((k ≡ j) × (lookup j (insert k v m) ≡ some v))
        ⊎ ((k ≢ j) × (lookup j (insert k v m) ≡ lookup j m))
  insert_cases k j v m = elim (string_discrete k j) [
    | yes e ↦ inl (e, rw (lookup-insert k j v m, if_pos (string_discrete k j) e))
    | no n ↦ inr (n, rw (lookup-insert k j v m, if_neg (string_discrete k j) n))
  ]

  pub delete_cases :
      (k j : String) (m : Dict V)
      → ((k ≡ j) × (lookup j (delete k m) ≡ none))
        ⊎ ((k ≢ j) × (lookup j (delete k m) ≡ lookup j m))
  delete_cases k j m = elim (string_discrete k j) [
    | yes e ↦ inl (e, rw (lookup-delete k j m, if_pos (string_discrete k j) e))
    | no n ↦ inr (n, rw (lookup-delete k j m, if_neg (string_discrete k j) n))
  ]

  pub lookup-delete_self : (k : String) (m : Dict V) → lookup k (delete k m) ≡ none
  lookup-delete_self k m = elim (delete_cases k k m) [ inl p ↦ p.1 | inr n ↦ absurd (n.0 refl) ]

  pub lookup-insert_self : (k : String) (v : V) (m : Dict V) → lookup k (insert k v m) ≡ some v
  lookup-insert_self k v m = elim (insert_cases k k v m) [ inl p ↦ p.1 | inr n ↦ absurd (n.0 refl) ]
