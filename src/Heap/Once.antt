-- ===== src/Heap/Once.antt =====
-- An id stands in a well-formed heap once.
use mathlib.Core.Logic.{∥∥₁_elim}
use mathlib.Core.List.{Permᴰ}
use native.Mathlib.Nat.{ℕ_set}
use godelayq.Prelude.{
  ℕ, zero, suc, ◌+◌, ◌≤◌, ◌≡◌, ◌≢◌, refl, sym, ap, ◌∙◌, inl, inr, List, [], ◌∷◌, none, some, Perm,
  String, arith, get_elem?, string_discrete, ite, if_pos, if_neg, Option-cases,
}
use godelayq.Dict
use godelayq.Heap.{Item, QuaternaryHeap}
use godelayq.Heap.Array.{at-get_elem?, get_elem?-in, get_elem?-lt}
use godelayq.Heap.Order.{Indexed, WellFormed}
use godelayq.Heap.Remove.{Removed}
use godelayq.Heap.ById.{Absent, lookup-item}

module _ {ℓ} {A : Type ℓ} ⦃item : Item A⦄ (k : String) where
  -- How many items have the id.
  unfoldable pub count_id : List A → ℕ
  count_id [] = 0
  count_id (x ∷ xs) = ite (string_discrete (item.id x) k) 1 0 + count_id xs

  one : A → ℕ
  one x = ite (string_discrete (item.id x) k) 1 0

  Permᴰ-count_id : {xs ys : List A} → Permᴰ xs ys → count_id xs ≡ count_id ys
  unfolding count_id one
  Permᴰ-count_id (Permᴰ.swap {a} {b} p q) = omega (arith, ap one p, ap one q)
  Permᴰ-count_id (Permᴰ.trans first second) = Permᴰ-count_id first ∙ Permᴰ-count_id second
  Permᴰ-count_id (Permᴰ.cons {a} same rest) = omega (arith, Permᴰ-count_id rest, ap one same)
  Permᴰ-count_id Permᴰ.nil = refl

  pub count_id-perm : {xs ys : List A} → Perm xs ys → count_id xs ≡ count_id ys
  count_id-perm p = ∥∥₁_elim p (ℕ_set _ _) Permᴰ-count_id

  abbrev Once : List A → Type ℓ
  Once xs =
      (i j : ℕ) (x y : A)
      → get_elem? xs i ≡ some x
      → get_elem? xs j ≡ some y
      → item.id x ≡ k
      → item.id y ≡ k
      → i ≡ j

  pub count_none :
      (xs : List A) → ((i : ℕ) (x : A) → get_elem? xs i ≡ some x → item.id x ≢ k) → count_id xs ≡ 0
  unfolding count_id
  count_none [] h = refl
  count_none (x ∷ xs) h =
      rw (if_neg (string_discrete (item.id x) k) (h 0 x refl))
        (omega (arith, count_none xs (λ i y e. h (suc i) y e)))

  count-Once : (xs : List A) → Once xs → count_id xs ≤ 1
  unfolding count_id
  count-Once [] h = omega arith
  count-Once (x ∷ xs) h = elim (string_discrete (item.id x) k) [
    | yes same ↦ rw (if_pos (string_discrete (item.id x) k) same) (
        omega
          (arith, count_none xs λ i y e q. absurd (omega (arith, h 0 (suc i) x y refl e same q))))
    | no other ↦ rw (if_neg (string_discrete (item.id x) k) other) (
        omega
          (arith, count-Once xs λ i j y z e f p q. omega (arith, h (suc i) (suc j) y z e f p q)))
  ]

  pub count_some :
      (xs : List A) (i : ℕ) (x : A) → get_elem? xs i ≡ some x → item.id x ≡ k → 1 ≤ count_id xs
  unfolding count_id
  count_some [] i x e same = absurd (cc)
  count_some (y ∷ xs) zero x e same =
      let is : y ≡ x = cc in
      rw (if_pos (string_discrete (item.id y) k) (ap (λ (z : A). item.id z) is ∙ same))
        (omega arith)
  count_some (y ∷ xs) (suc i) x e same = omega (arith, count_some xs i x e same)

  Indexed-Once : (h : QuaternaryHeap A) → Indexed h → Once h.items
  Indexed-Once h v i j x y e f p q =
      let a = v.found i (get_elem?-lt h.items i e) in
      let b = v.found j (get_elem?-lt h.items j f) in
      let c = at-get_elem? item.id "" h.items i e in
      let d = at-get_elem? item.id "" h.items j f in
      let both : some i ≡ some j =
        sym a ∙ ap (λ n. Dict.lookup n h.index_map) (c ∙ p ∙ sym q ∙ sym d) ∙ b in
      cc

  -- An id stands in a well-formed heap at most once.
  pub count_id_le : (h : QuaternaryHeap A) → WellFormed h → count_id h.items ≤ 1
  count_id_le h v = count-Once h.items (Indexed-Once h v.indexed)

  pub Absent-lookup :
      (h : QuaternaryHeap A) → WellFormed h → Absent h k → Dict.lookup k h.index_map ≡ none
  Absent-lookup h v gone = elim (Option-cases (Dict.lookup k h.index_map)) [
    | inl e ↦ e
    | inr (i, e) ↦ let (x, at, same) = lookup-item h v k i e in absurd (gone i x at same)
  ]

  -- Once it is taken out, the id is not in the index.
  pub Removed-absent :
      (h : QuaternaryHeap A) (x : A) (r : A × QuaternaryHeap A)
      → WellFormed h
      → Removed h x r
      → item.id x ≡ k
      → Dict.lookup k r.1.index_map ≡ none
  unfolding count_id
  Removed-absent h x r v gone same = elim (Option-cases (Dict.lookup k r.1.index_map)) [
    | inl e ↦ e
    | inr (i, e) ↦
        let (inside, id_i) = gone.well_formed.indexed.inside k i e in
        let (y, at) = get_elem?-in r.1.items i inside in
        let y_id = sym (at-get_elem? item.id "" r.1.items i at) ∙ id_i in
        let many = count_some r.1.items i y at y_id in
        let once = count-Once h.items (Indexed-Once h v.indexed) in
        let same_count = count_id-perm gone.items in
        absurd (
          omega (
            arith,
            if_pos {C = ℕ} (string_discrete (item.id x) k) same 1 0,
            many,
            once,
            same_count,
          ))
  ]
