-- ===== src/Heap/Remove.antt =====
-- removeAt, popRoot, PopIfDue, Remove and Update.
use mathlib.Core.List.Perm
use godelayq.Prelude.{
  ℕ, suc, ◌-◌, ◌<◌, ◌≡◌, refl, ap, sym, ◌∙◌, inl, inr, ◌∷◌, some, Perm, arith, length, ◌==◌, take,
  get_elem?, length-take, Returns, returns, Returns-bind, Bool-cases, ◌>>=◌,
}
use godelayq.Dict
use godelayq.Heap.{Item, QuaternaryHeap, parent_index, remove_at, swap, sift_range}
use godelayq.Heap.Array.{at-take, at-get_elem?, get_elem?-lt, take-perm}
use godelayq.Heap.Order.{id_at, IsHeap, Indexed, WellFormed, Swapped, swap_lem}
use godelayq.Heap.Down.{RangeInv, sift_range_lem}

module _ {ℓ} {A : Type ℓ} ⦃item : Item A⦄ where
  -- The item that is returned, and a well-formed heap of the others.
  pub record Removed (h : QuaternaryHeap A) (x : A) (r : A × QuaternaryHeap A) : Type ℓ where
    pub same : r.0 ≡ x
    pub well_formed : WellFormed r.1
    pub items : Perm (x ∷ r.1.items) h.items

  -- The heap with its last item cut off.
  abbrev cut_last : QuaternaryHeap A → ℕ → A → QuaternaryHeap A
  cut_last h last x = record {
    items = take last h.items;
    index_map = Dict.delete (item.id x) h.index_map;
  }

module _ {ℓ} {A : Type ℓ} ⦃item : Item A⦄ (h : QuaternaryHeap A) (last : ℕ) (x : A)
    (size : length h.items ≡ suc last) (at_last : get_elem? h.items last ≡ some x) where
  abbrev cut : QuaternaryHeap A
  cut = cut_last h last x

  cut_size : length cut.items ≡ last
  cut_size = length-take last h.items (omega arith)

  id_cut : (i : ℕ) → i < last → id_at cut.items i ≡ id_at h.items i
  id_cut = at-take item.id "" last h.items

  cut-Indexed : Indexed h → Indexed cut
  cut-Indexed v = record {
    found = λ i p. ground (
      arith,
      cut_size,
      id_cut i,
      v.found i,
      v.found last,
      at-get_elem? item.id "" h.items last at_last,
      Dict.delete_cases (item.id x) (id_at cut.items i) h.index_map,
    );
    inside = λ k i e. ground (
      arith,
      cut_size,
      id_cut i,
      v.inside k i,
      at-get_elem? item.id "" h.items last at_last,
      Dict.delete_cases (item.id x) k h.index_map,
    );
  }

  cut-perm : Perm (x ∷ cut.items) h.items
  cut-perm = take-perm last h.items size at_last

  cut-IsHeap : IsHeap h.items → IsHeap cut.items
  cut-IsHeap v c p q = ground (
    arith,
    cut_size,
    v c,
    at-take item.trigger_time 0 last h.items c,
    at-take item.trigger_time 0 last h.items (parent_index c),
  )

  -- The last item cut off after it was swapped with the one at `i`.
  cut-RangeInv :
      (h0 : QuaternaryHeap A) (i : ℕ)
      → IsHeap h0.items
      → Swapped h0 i last h
      → i < last
      → RangeInv cut.items i
  cut-RangeInv h0 i v s p = record {
    in_range = omega (arith, cut_size);
    edges = λ c q r t u. ground (
      arith,
      cut_size,
      s.size,
      v c,
      s.keys c,
      s.keys (parent_index c),
      at-take item.trigger_time 0 last h.items c,
      at-take item.trigger_time 0 last h.items (parent_index c),
    );
    bridged = λ c q r t u. ground (
      arith,
      cut_size,
      s.size,
      v c,
      v i,
      s.keys c,
      s.keys (parent_index i),
      at-take item.trigger_time 0 last h.items c,
      at-take item.trigger_time 0 last h.items (parent_index i),
    );
  }

module _ {ℓ} {A : Type ℓ} ⦃item : Item A⦄ (h : QuaternaryHeap A) (v : WellFormed h) where
  remove_last :
      (last : ℕ) (x : A)
      → length h.items ≡ suc last
      → get_elem? h.items last ≡ some x
      → Removed h x (x, cut_last h last x)
  remove_last last x size e = record {
    same = refl;
    well_formed = record {
      ordered = cut-IsHeap h last x size e v.ordered;
      indexed = cut-Indexed h last x size e v.indexed;
    };
    items = cut-perm h last x size e;
  }

  remove_inner :
      (last i : ℕ) (x : A)
      → length h.items ≡ suc last
      → i < last
      → get_elem? h.items i ≡ some x
      → Returns (Removed h x) (do
        h1 ← swap h i last
        y ← get_elem? h1.items last
        h3 ← sift_range (cut_last h1 last y) i
        some (y, h3))
  remove_inner last i x size p e =
      Returns-bind (swap_lem h i last (omega arith) (omega arith)) λ h1 s. rw (s.moved ∙ e) (
        Returns-bind
          (sift_range_lem (cut_last h1 last x) i
            (cut-RangeInv h1 last x (s.size ∙ size) (s.moved ∙ e) h i v.ordered s p))
          λ h3 t. returns (record {
            same = refl;
            well_formed = record {
              ordered = t.0;
              indexed =
                  t.1.index
                    (cut-Indexed h1 last x (s.size ∙ size) (s.moved ∙ e) (s.same.index v.indexed));
            };
            items =
                Perm.trans (Perm.cons x t.1.items)
                  (Perm.trans (cut-perm h1 last x (s.size ∙ size) (s.moved ∙ e)) s.same.items);
          }))

  -- removeAt of an index in range returns the item that stands there, and leaves a well-formed
  -- heap of the others.
  pub remove_at_lem :
      (i : ℕ) (x : A) → get_elem? h.items i ≡ some x → Returns (Removed h x) (remove_at h i)
  unfolding remove_at
  remove_at_lem i x e =
      let last = length h.items - 1 in
      let p = get_elem?-lt h.items i e in
      let size : length h.items ≡ suc last = omega arith in
      elim (Bool-cases (i == last)) [
        | inl f ↦
            let same : i ≡ last = ground arith in
            let at_last = ap (get_elem? h.items) (sym same) ∙ e in
            rw (f, at_last) (returns (remove_last last x size at_last))
        | inr n ↦ rw n (remove_inner last i x size (ground arith) e)
      ]
