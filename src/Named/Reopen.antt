-- ===== src/Named/Reopen.antt =====
-- What was answered without an error is there when the file is opened again.
use godelayq.Prelude.{
  ℕ, ◌≡◌, refl, sym, subst, ◌∙◌, inl, inr, false, none, some, String, List, [], ◌∷◌, if_pos, if_neg,
  string_discrete, Option-cases,
}
use godelayq.Dict
use godelayq.Dict.{Dict}
use godelayq.Dict.Keys.{Distinct, insert-Distinct}
use godelayq.Named.{Kind, ListCodec, values, key, sort_named, take_each}
use godelayq.Named.Alike.{Each}
use godelayq.Named.Agree.{Agree, All, Fresh, Apart, take_each-sort_named}

-- Writing the times changes neither the name nor what the check says.
pub record KindLaws {R : Type 0} (kind : Kind R) : Type 0 where
  pub name-stamped :
      (r : R) (created updated : ℕ) → kind.name (kind.stamped r created updated) ≡ kind.name r
  pub good-stamped :
      (r : R) (created updated : ℕ) → kind.good (kind.stamped r created updated) ≡ kind.good r

-- What encoding/json writes is not blank, and it reads back a list like the one it wrote.
pub record ListLaws {R : Type 0} (Alike : R → R → Type 0) (codec : ListCodec R) : Type 0 where
  pub not_blank :
      (l : List R) (bytes : List ℕ) → codec.marshal l ≡ some bytes → codec.blank bytes ≡ false
  pub read_back :
      (l : List R) (bytes : List ℕ)
      → codec.marshal l ≡ some bytes
      → (l' : List R) × (codec.unmarshal bytes ≡ some l') × Each Alike l l'

module _ {R : Type 0} (kind : Kind R) (lower : String → String) where
  -- Every record has the property and is kept under its name.
  abbrev pub Keyed : (R → Type 0) → Dict R → Type 0
  Keyed P [] = Unit
  Keyed P ((k, r) ∷ m) = (key kind lower r ≡ k) × P r × Keyed P m

  pub insert-Keyed :
      (P : R → Type 0) (r : R) (k : String) (m : Dict R)
      → key kind lower r ≡ k
      → P r
      → Keyed P m
      → Keyed P (Dict.insert k r m)
  unfolding Dict.insert
  insert-Keyed P r k [] e p all = (e, p, tt)
  insert-Keyed P r k ((j, q) ∷ m) e p all = elim (string_discrete j k) [
    | yes same ↦ rw (if_pos (string_discrete j k) same) (e, p, all.2)
    | no other ↦
        rw (if_neg (string_discrete j k) other) (all.0, all.1, insert-Keyed P r k m e p all.2)
  ]

  pub delete-Keyed :
      (P : R → Type 0) (k : String) (m : Dict R) → Keyed P m → Keyed P (Dict.delete k m)
  unfolding Dict.delete
  delete-Keyed P k [] all = tt
  delete-Keyed P k ((j, q) ∷ m) all = elim (string_discrete j k) [
    | yes same ↦ rw (if_pos (string_discrete j k) same) (delete-Keyed P k m all.2)
    | no other ↦ rw (if_neg (string_discrete j k) other) (all.0, all.1, delete-Keyed P k m all.2)
  ]

  pub values-All : (P : R → Type 0) (m : Dict R) → Keyed P m → All P (values m)
  values-All P [] all = tt
  values-All P ((k, r) ∷ m) all = (all.1, values-All P m all.2)

  values-Fresh :
      (P : R → Type 0) (k : String) (m : Dict R)
      → Keyed P m
      → Dict.lookup k m ≡ none
      → Fresh kind lower k (values m)
  unfolding Dict.lookup
  values-Fresh P k [] all e = tt
  values-Fresh P k ((j, r) ∷ m) all e = elim (string_discrete j k) [
    | yes same ↦ let f = rw (if_pos (string_discrete j k) same) at e in absurd (cc)
    | no other ↦ (
      λ n. other (sym all.0 ∙ n),
      values-Fresh P k m all.2 (rw (if_neg (string_discrete j k) other) at e),
    )
  ]

  pub values-Apart :
      (P : R → Type 0) (m : Dict R) → Distinct m → Keyed P m → Apart kind lower (values m)
  values-Apart P [] d all = tt
  values-Apart P ((k, r) ∷ m) d all = (
    subst (λ j. Fresh kind lower j (values m)) (sym all.0) (values-Fresh P k m all.2 d.0),
    values-Apart P m d.1 all.2,
  )

  absent :
      (P : R → Type 0) (d m : Dict R) (k : String)
      → Distinct d
      → Keyed P d
      → Dict.lookup k d ≡ none
      → Dict.lookup k (take_each kind lower (values d) m) ≡ Dict.lookup k m
  unfolding take_each Dict.lookup
  absent P [] m k apart all e = refl
  absent P ((j, r) ∷ d) m k apart all e = elim (string_discrete j k) [
    | yes same ↦ let f = rw (if_pos (string_discrete j k) same) at e in absurd (cc)
    | no other ↦
        absent P d _ k apart.1 all.2 (rw (if_neg (string_discrete j k) other) at e)
        ∙ Dict.lookup-insert (key kind lower r) k r m
        ∙ if_neg (string_discrete (key kind lower r) k) (λ n. other (sym all.0 ∙ n)) _ _
  ]

  present :
      (P : R → Type 0) (d m : Dict R) (k : String) (v : R)
      → Distinct d
      → Keyed P d
      → Dict.lookup k d ≡ some v
      → Dict.lookup k (take_each kind lower (values d) m) ≡ some v
  unfolding take_each Dict.lookup
  present P [] m k v apart all e = absurd (cc)
  present P ((j, r) ∷ d) m k v apart all e = elim (string_discrete j k) [
    | yes same ↦
        let found = rw (if_pos (string_discrete j k) same) at e in
        absent P d _ k apart.1 all.2 (subst (λ i. Dict.lookup i d ≡ none) same apart.0)
        ∙ Dict.lookup-insert (key kind lower r) k r m
        ∙ if_pos (string_discrete (key kind lower r) k) (all.0 ∙ same) _ _
        ∙ found
    | no other ↦ present P d _ k v apart.1 all.2 (rw (if_neg (string_discrete j k) other) at e)
  ]

  -- The records that are written, read in their order, are under their names again.
  pub reread :
      (P : R → Type 0) (d : Dict R)
      → Distinct d
      → Keyed P d
      → Agree (take_each kind lower (sort_named kind lower (values d)) []) d
  unfolding Dict.lookup
  reread P d apart all k =
      take_each-sort_named kind lower (values d) [] (values-Apart P d apart all) k
      ∙ elim (Option-cases (Dict.lookup k d)) [
        | inl gone ↦ absent P d [] k apart all gone ∙ sym gone
        | inr (v, found) ↦ present P d [] k v apart all found ∙ sym found
      ]

  pub take_each-Keyed :
      (P : R → Type 0) (l : List R) (m : Dict R)
      → All P l
      → Distinct m
      → Keyed P m
      → Distinct (take_each kind lower l m) × Keyed P (take_each kind lower l m)
  unfolding take_each
  take_each-Keyed P [] m good apart all = (apart, all)
  take_each-Keyed P (r ∷ l) m good apart all =
      take_each-Keyed P l _ good.1 (insert-Distinct (key kind lower r) r m apart)
        (insert-Keyed P r (key kind lower r) m refl good.0 all)
