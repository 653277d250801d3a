-- ===== src/Heap/ById.antt =====
-- Get, Remove and Update: the calls that find an item by its id.
use mathlib.Core.List.Perm
use godelayq.Prelude.{
  subst, refl, ℕ, ◌<◌, ◌≡◌, ◌≢◌, ap, sym, ◌∙◌, inl, inr, ◌∷◌, Option, none, some, Perm, String,
  arith, Bool, true, false, ◌==◌, length, length-set, get_elem?, set, Returns, returns,
  Returns-bind, Bool-cases, Option-cases,
}
use godelayq.Dict
use godelayq.Heap.{Item, QuaternaryHeap, parent_index, get, remove, update}
use godelayq.Heap.Array.{at-get_elem?, get_elem?-in, get_elem?-lt, at-set, set-perm}
use godelayq.Heap.Order.{id_at, Indexed, WellFormed}
use godelayq.Heap.Down.{RangeInv, sift_range_lem}
use godelayq.Heap.Remove.{Removed, remove_at_lem}

module _ {ℓ} {A : Type ℓ} ⦃item : Item A⦄ where
  -- No item of the heap has the id.
  abbrev pub Absent : QuaternaryHeap A → String → Type ℓ
  Absent h k = (i : ℕ) (y : A) → get_elem? h.items i ≡ some y → item.id y ≢ k

  pub data Got (h : QuaternaryHeap A) (k : String) : Option A → Type ℓ where
    got_none : Absent h k → Got h k none
    got_some : (i : ℕ) (x : A) → get_elem? h.items i ≡ some x → item.id x ≡ k → Got h k (some x)

  pub data RemovedBy (h : QuaternaryHeap A) (k : String)
      : Option A × QuaternaryHeap A → Type ℓ where
    removed_none : Absent h k → RemovedBy h k (none, h)
    removed_some :
        (x : A) (r : A × QuaternaryHeap A)
        → Removed h x r
        → item.id x ≡ k
        → RemovedBy h k (some r.0, r.1)

  pub data Updated (h : QuaternaryHeap A) (x : A) : Bool × QuaternaryHeap A → Type ℓ where
    updated_none : Absent h (item.id x) → Updated h x (false, h)
    updated_some :
        (y : A) (h' : QuaternaryHeap A)
        → item.id y ≡ item.id x
        → WellFormed h'
        → Perm (y ∷ h'.items) (x ∷ h.items)
        → Updated h x (true, h')

module _ {ℓ} {A : Type ℓ} ⦃item : Item A⦄ where
  -- What Remove says of the item that it gives.
  pub Removed-inv :
      (k : String) (h h' : QuaternaryHeap A) (x : A)
      → (q : Option A × QuaternaryHeap A) → RemovedBy h k q
      → q ≡ (some x, h')
      → Removed h x (x, h') × (item.id x ≡ k)
  Removed-inv k h h' x _ (removed_none gone) e =
      let f = ap (λ (p : Option A × QuaternaryHeap A). p.0) e in absurd (cc)
  Removed-inv k h h' x _ (removed_some y r taken same) e =
      let first = ap (λ (p : Option A × QuaternaryHeap A). p.0) e in
      let is : r.0 ≡ x = cc in
      let y_is = sym taken.same ∙ is in
      let rest = ap (λ (p : Option A × QuaternaryHeap A). p.1) e in
      (
        record {
          same = refl;
          well_formed = subst WellFormed rest taken.well_formed;
          items =
              subst (λ (z : A). Perm (z ∷ h'.items) h.items) y_is
                (subst (λ (g : QuaternaryHeap A). Perm (y ∷ g.items) h.items) rest taken.items);
        },
        ap (λ (z : A). item.id z) (sym y_is) ∙ same,
      )

module _ {ℓ} {A : Type ℓ} ⦃item : Item A⦄ (h : QuaternaryHeap A) (v : WellFormed h) where
  lookup-Absent : (k : String) → Dict.lookup k h.index_map ≡ none → Absent h k
  lookup-Absent k e i y ey same =
      let found = v.indexed.found i (get_elem?-lt h.items i ey) in
      let id_y = at-get_elem? item.id "" h.items i ey in cc

  pub lookup-item :
      (k : String) (i : ℕ)
      → Dict.lookup k h.index_map ≡ some i
      → (x : A) × (get_elem? h.items i ≡ some x) × (item.id x ≡ k)
  lookup-item k i e =
      let (p, id_i) = v.indexed.inside k i e in
      let (x, ex) = get_elem?-in h.items i p in
      (x, ex, sym (at-get_elem? item.id "" h.items i ex) ∙ id_i)

  -- On a well-formed heap Get returns, without a panic, the item with the id, and nothing if there
  -- is none.
  pub get_lem : (k : String) → Returns (Got h k) (get h k)
  unfolding get
  get_lem k = elim (Option-cases (Dict.lookup k h.index_map)) [
    | inl e ↦ rw (e, get) (returns (got_none (lookup-Absent k e)))
    | inr (i, e) ↦
        let (x, ex, same) = lookup-item k i e in
        rw (e, get) (rw ex (returns (got_some i x ex same)))
  ]

  -- On a well-formed heap Remove takes the item with the id out of the heap and leaves a well-formed
  -- heap of the others; it changes nothing if there is none.
  pub remove_lem : (k : String) → Returns (RemovedBy h k) (remove h k)
  unfolding remove
  remove_lem k = elim (Option-cases (Dict.lookup k h.index_map)) [
    | inl e ↦ rw (e, remove) (returns (removed_none (lookup-Absent k e)))
    | inr (i, e) ↦
        let (x, ex, same) = lookup-item k i e in
        rw (e, remove)
          (Returns-bind (remove_at_lem h v i x ex) λ r s. returns (removed_some x r s same))
  ]

  -- Update before it sifts.
  abbrev written : ℕ → A → QuaternaryHeap A
  written i x = record h { items = set h.items i x }

  written-Indexed :
      (i : ℕ) (x y : A)
      → get_elem? h.items i ≡ some y
      → item.id y ≡ item.id x
      → Indexed (written i x)
  written-Indexed i x y ey same = record {
    found = λ j p. rw (ids j) (v.indexed.found j (rw (length-set h.items i x) at p));
    inside = λ k j e.
        let (p, id_j) = v.indexed.inside k j e in (rw (length-set h.items i x) p, ids j ∙ id_j);
  }
    where
      ids : (j : ℕ) → id_at (set h.items i x) j ≡ id_at h.items j
      ids j = elim (Bool-cases (i == j)) [
        | inl e ↦
            let ij : i ≡ j = ground arith in
            rw (at-set item.id "" h.items i j x (get_elem?-lt h.items i ey), e)
              (sym same ∙ sym (at-get_elem? item.id "" h.items i ey) ∙ ap (id_at h.items) ij)
        | inr n ↦ rw (at-set item.id "" h.items i j x (get_elem?-lt h.items i ey), n)
      ]

  written-RangeInv : (i : ℕ) (x : A) → i < length h.items → RangeInv (set h.items i x) i
  written-RangeInv i x p = record {
    in_range = rw (length-set h.items i x) p;
    edges = λ c q r s t. ground (
      arith,
      length-set h.items i x,
      v.ordered c,
      at-set item.trigger_time 0 h.items i c x p,
      at-set item.trigger_time 0 h.items i (parent_index c) x p,
    );
    bridged = λ c q r s t. ground (
      arith,
      length-set h.items i x,
      v.ordered c,
      v.ordered i,
      at-set item.trigger_time 0 h.items i c x p,
      at-set item.trigger_time 0 h.items i (parent_index i) x p,
    );
  }

  -- On a well-formed heap Update replaces the item with the same id and leaves a well-formed heap
  -- with the other items; it reports false and changes nothing if there is none.
  pub update_lem : (x : A) → Returns (Updated h x) (update h x)
  unfolding update
  update_lem x = elim (Option-cases (Dict.lookup (item.id x) h.index_map)) [
    | inl e ↦ rw (e, update) (returns (updated_none (lookup-Absent (item.id x) e)))
    | inr (i, e) ↦
        let (y, ey, same) = lookup-item (item.id x) i e in
        let p = get_elem?-lt h.items i ey in
        rw (e, update)
          (rw ey (
            Returns-bind (sift_range_lem (written i x) i (written-RangeInv i x p)) λ h' s. returns (
              updated_some y h' same
                (record { ordered = s.0; indexed = s.1.index (written-Indexed i x y ey same) })
                (Perm.trans (Perm.cons y s.1.items) (set-perm h.items i x ey)))))
  ]
