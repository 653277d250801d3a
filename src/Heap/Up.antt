-- ===== src/Heap/Up.antt =====
-- siftUp: one item too low in the tree moves up to its place.
use godelayq.Prelude.{
  ℕ, zero, suc, ◌+◌, ◌≤◌, ◌<◌, ◌≡◌, ◌≢◌, List, arith, ltb, length, Returns, returns, Returns-bind,
  Returns-if,
}
use godelayq.Heap.{Item, QuaternaryHeap, parent_index, sift_up_loop, sift_up}
use godelayq.Heap.Order.{key, Same-refl, Sifted, Sifted-swap, Swapped, less_lem, swap_lem}

module _ {ℓ} {A : Type ℓ} ⦃item : Item A⦄ where
  -- The edges past `i`, from its parent to its children, are in order.
  abbrev pub IsBridged : List A → ℕ → Type 0
  IsBridged a i =
      (c : ℕ) → 0 < c → c < length a → parent_index c ≡ i → 0 < i → key a (parent_index i) ≤ key a c

  -- Only the edge above `i` may be out of order.
  pub record UpInv (a : List A) (i : ℕ) : Type 0 where
    pub in_range : i < length a
    pub edges : (c : ℕ) → 0 < c → c < length a → c ≢ i → key a (parent_index c) ≤ key a c
    pub bridged : IsBridged a i

  swap-UpInv :
      (h h' : QuaternaryHeap A) (i : ℕ)
      → UpInv h.items i
      → 0 < i
      → key h.items i < key h.items (parent_index i)
      → Swapped h i (parent_index i) h'
      → UpInv h'.items (parent_index i)
  swap-UpInv h h' i v pos below s = record {
    in_range = omega (arith, s.size, v.in_range);
    edges = λ c p q r.
        ground (arith, s.size, s.keys c, s.keys (parent_index c), v.edges c, v.bridged c);
    bridged = λ c p q r t. ground (
      arith,
      s.size,
      s.keys c,
      s.keys (parent_index (parent_index i)),
      v.edges c,
      v.edges (parent_index i),
    );
  }

  sift_up_loop_lem :
      (k : ℕ) (h : QuaternaryHeap A) (i : ℕ)
      → i < k
      → UpInv h.items i
      → Returns (Sifted h) (sift_up_loop k h i)
  unfolding sift_up_loop
  sift_up_loop_lem zero h i f v = absurd (omega arith)
  sift_up_loop_lem (suc k) h i f v =
      let above : parent_index i < length h.items = omega (arith, v.in_range) in
      rw (less_lem h i (parent_index i) v.in_range above) (
        Returns-if (ltb 0 i)
          (λ pos.
            Returns-if (ltb (key h.items i) (key h.items (parent_index i)))
              (λ below. Returns-bind (swap_lem h i (parent_index i) v.in_range above) λ h' s.
                Sifted-swap h' s.same (
                  sift_up_loop_lem k h' (parent_index i) (ground arith)
                    (swap-UpInv h h' i v (ground arith) (ground arith) s)))
              (λ settled. returns (λ c p q. ground (arith, v.edges c), Same-refl h)))
          (λ root. returns (λ c p q. v.edges c p q (ground arith), Same-refl h)))

  -- siftUp returns and puts the one item out of order in its place.
  pub sift_up_lem :
      (h : QuaternaryHeap A) (i : ℕ) → UpInv h.items i → Returns (Sifted h) (sift_up h i)
  unfolding sift_up
  sift_up_lem h i v = sift_up_loop_lem (i + 1) h i (omega arith) v
