-- ===== src/Heap/Insert.antt =====
-- NewQuaternaryHeap and PushItem.
use mathlib.Core.List.Perm
use godelayq.Prelude.{
  ℕ, ◌+◌, ◌<◌, ◌≡◌, ◌⊎◌, inl, inr, [], ◌∷◌, ◌++◌, none, Perm, arith, length, length-append,
  perm-snoc, Bool-cases, ltb, ltb→lt, ap, ◌∙◌, Returns, Returns-map,
}
use godelayq.Dict
use godelayq.Heap.{Item, QuaternaryHeap, parent_index, new, push_item}
use godelayq.Heap.Array.{at-append, at-append_end}
use godelayq.Heap.Order.{id_at, IsHeap, Indexed, WellFormed}
use godelayq.Heap.Up.{UpInv, sift_up_lem}

module _ {ℓ} {A : Type ℓ} ⦃item : Item A⦄ where
  -- A new heap is well formed.
  pub new-WellFormed : WellFormed (new {A = A})
  unfolding new Dict.lookup
  new-WellFormed = record {
    ordered = λ c p q. absurd (omega arith);
    indexed = record { found = λ i p. absurd (omega arith); inside = λ k i e. absurd (cc) };
  }

  -- `h'` is well formed and holds the items of `h` and `x`.
  pub record Pushed (h : QuaternaryHeap A) (x : A) (h' : QuaternaryHeap A) : Type ℓ where
    pub well_formed : WellFormed h'
    pub items : Perm h'.items (x ∷ h.items)

module _ {ℓ} {A : Type ℓ} ⦃item : Item A⦄ (h : QuaternaryHeap A) (x : A) where
  -- PushItem before it sifts.
  abbrev appended : QuaternaryHeap A
  appended = record {
    items = h.items ++ x ∷ [];
    index_map = Dict.insert (item.id x) (length h.items) h.index_map;
  }

  size : length appended.items ≡ length h.items + 1
  size = length-append h.items (x ∷ [])

  id_appended :
      (i : ℕ)
      → i < length appended.items
      → ((i < length h.items) × (id_at appended.items i ≡ id_at h.items i))
        ⊎ ((i ≡ length h.items) × (id_at appended.items i ≡ item.id x))
  id_appended i p = elim (Bool-cases (ltb i (length h.items))) [
    | inl e ↦ inl (ltb→lt _ _ e, at-append item.id "" h.items (x ∷ []) i (ltb→lt _ _ e))
    | inr n ↦
        let e : i ≡ length h.items = ground (arith, size) in
        inr (e, ap (id_at appended.items) e ∙ at-append_end item.id "" h.items x)
  ]

  appended-Indexed : Dict.lookup (item.id x) h.index_map ≡ none → Indexed h → Indexed appended
  appended-Indexed fresh v = record {
    found = λ i p. ground (
      arith,
      size,
      id_appended i p,
      v.found i,
      Dict.insert_cases (item.id x) (id_at appended.items i) (length h.items) h.index_map,
    );
    inside = λ k i e. ground (
      arith,
      size,
      id_appended i,
      v.inside k i,
      Dict.insert_cases (item.id x) k (length h.items) h.index_map,
    );
  }

  appended-UpInv : IsHeap h.items → UpInv appended.items (length h.items)
  appended-UpInv v = record {
    in_range = omega (arith, size);
    edges = λ c p q r. ground (
      arith,
      size,
      v c,
      at-append item.trigger_time 0 h.items (x ∷ []) c,
      at-append item.trigger_time 0 h.items (x ∷ []) (parent_index c),
    );
    bridged = λ c p q r s. absurd (omega (arith, size));
  }

  -- PushItem of an item whose id is not in the heap returns a well-formed heap that holds it and
  -- the items of before.
  pub push_item_lem :
      WellFormed h
      → Dict.lookup (item.id x) h.index_map ≡ none
      → Returns (Pushed h x) (push_item h x)
  unfolding push_item
  push_item_lem v fresh =
      Returns-map (sift_up_lem appended (length h.items) (appended-UpInv v.ordered)) λ h' s.
        record {
          well_formed = record {
            ordered = s.0;
            indexed = s.1.index (appended-Indexed fresh v.indexed);
          };
          items = Perm.trans s.1.items (perm-snoc h.items x);
        }
