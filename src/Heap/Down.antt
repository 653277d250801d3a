-- ===== src/Heap/Down.antt =====
-- siftDown: one item too high in the tree moves down to its place.
use godelayq.Prelude.{
  ℕ, zero, suc, ◌+◌, ◌-◌, ◌*◌, ◌≤◌, ◌<◌, ◌≡◌, refl, subst, ◌≢◌, ◌⊎◌, List, arith, ltb, leb, ◌==◌,
  if◌then◌else◌, length, Returns, returns, Returns-bind, Returns-map, Returns-if,
}
use godelayq.Heap.{
  Item, QuaternaryHeap, branch_factor, parent_index, min_child, sift_down_loop, sift_down,
  sift_range,
}
use godelayq.Heap.Order.{key, IsHeap, Same-refl, Sifted, Sifted-swap, Swapped, less_lem, swap_lem}
use godelayq.Heap.Up.{IsBridged, UpInv, sift_up_lem}

-- Where the children of `i` end in a heap of `n` items.
abbrev last_child : ℕ → ℕ → ℕ
last_child n i =
    if ltb n (branch_factor * i + 1 + branch_factor)
    then n
    else branch_factor * i + 1 + branch_factor

module _ {ℓ} {A : Type ℓ} ⦃item : Item A⦄ where
  -- Only the edges below `i` may be out of order.
  pub record DownInv (a : List A) (i : ℕ) : Type 0 where
    pub in_range : i < length a
    pub edges :
        (c : ℕ) → 0 < c → c < length a → parent_index c ≢ i → key a (parent_index c) ≤ key a c
    pub bridged : IsBridged a i

  -- `m` is `best` or one of the indices from `child` on, and none of these is below it.
  pub record Least (a : List A) (best child stop m : ℕ) : Type 0 where
    pub in_range : m < length a
    pub place : (m ≡ best) ⊎ ((child ≤ m) × (m < stop))
    pub below_best : key a m ≤ key a best
    pub strictly : m ≢ best → key a m < key a best
    pub below_all : (c : ℕ) → child ≤ c → c < stop → key a m ≤ key a c

  min_child_lem :
      (rounds : ℕ) (h : QuaternaryHeap A) (child best : ℕ)
      → child + rounds ≤ length h.items
      → best < length h.items
      → Returns (Least h.items best child (child + rounds)) (min_child rounds h child best)
  unfolding min_child
  min_child_lem zero h child best p q = returns (record {
    in_range = q;
    place = omega arith;
    below_best = omega arith;
    strictly = λ n. absurd (omega arith);
    below_all = λ c r s. absurd (omega arith);
  })
  min_child_lem (suc rounds) h child best p q = rw (less_lem h child best (omega arith) q) (
      Returns-map
        (min_child_lem rounds h (child + 1)
          (if ltb (key h.items child) (key h.items best) then child else best) (omega arith)
          (ground arith))
        λ m v. record {
          in_range = v.in_range;
          place = ground (arith, v.place);
          below_best = ground (arith, v.below_best);
          strictly = λ n. ground (arith, v.below_best, v.strictly);
          below_all = λ c r s. ground (arith, v.below_best, v.below_all c);
        })

  swap-DownInv :
      (h h' : QuaternaryHeap A) (i m : ℕ)
      → DownInv h.items i
      → 0 < m
      → m < length h.items
      → parent_index m ≡ i
      → key h.items m < key h.items i
      → ((c : ℕ) → 0 < c → c < length h.items → parent_index c ≡ i → key h.items m ≤ key h.items c)
      → Swapped h i m h'
      → DownInv h'.items m
  swap-DownInv h h' i m v pos inm child below least s = record {
    in_range = omega (arith, s.size);
    edges = λ c p q r.
        ground (arith, s.size, s.keys c, s.keys (parent_index c), v.edges c, v.bridged m, least c);
    bridged = λ c p q r t. ground (arith, s.size, s.keys c, s.keys (parent_index m), v.edges c);
  }

  descend :
      (h h' : QuaternaryHeap A) (i m : ℕ)
      → DownInv h.items i
      → Least h.items i (branch_factor * i + 1) (last_child (length h.items) i) m
      → m ≢ i
      → Swapped h i m h'
      → DownInv h'.items m × (i < m)
  descend h h' i m v t moved s = (
    swap-DownInv h h' i m v (ground (arith, t.place)) t.in_range (ground (arith, t.place))
        (t.strictly moved) (λ c p q r. t.below_all c (ground arith) (ground arith)) s,
    ground (arith, t.place),
  )

  settle :
      (a : List A) (i : ℕ)
      → DownInv a i
      → ((c : ℕ) → branch_factor * i + 1 ≤ c → c < last_child (length a) i → key a i ≤ key a c)
      → IsHeap a
  settle a i v least c p q = ground (arith, v.edges c p q, least c)

  min_child_all :
      (n : ℕ) (h : QuaternaryHeap A) (i : ℕ)
      → n ≡ length h.items
      → i < length h.items
      → branch_factor * i + 1 < n
      → Returns
          (Least h.items i (branch_factor * i + 1) (last_child (length h.items) i))
          (min_child (last_child n i - (branch_factor * i + 1)) h (branch_factor * i + 1) i)
  min_child_all n h i e p q =
      subst
        (λ stop.
          Returns (Least h.items i (branch_factor * i + 1) stop)
            (min_child (last_child n i - (branch_factor * i + 1)) h (branch_factor * i + 1) i))
        (ground arith)
        (min_child_lem (last_child n i - (branch_factor * i + 1)) h (branch_factor * i + 1) i
          (ground arith) p)

  sift_down_loop_lem :
      (k n : ℕ) (h : QuaternaryHeap A) (i : ℕ)
      → n ≡ length h.items
      → n - i < k
      → DownInv h.items i
      → Returns (Sifted h) (sift_down_loop k n h i)
  unfolding sift_down_loop
  sift_down_loop_lem zero n h i e f v = absurd (omega arith)
  sift_down_loop_lem (suc k) n h i e f v =
      Returns-if (leb n (branch_factor * i + 1))
        (λ leaf. returns (settle h.items i v (λ c p q. absurd (ground arith)), Same-refl h))
        (λ inner. Returns-bind (min_child_all n h i e v.in_range (ground arith)) λ m t.
          Returns-if (m == i)
            (λ settled.
              returns
                (settle h.items i v (λ c p q. ground (arith, t.below_all c p q)), Same-refl h))
            (λ moved. Returns-bind (swap_lem h i m v.in_range t.in_range) λ h' s.
              let (v', further) = descend h h' i m v t (ground arith) s in
              Sifted-swap h' s.same
                (sift_down_loop_lem k n h' m (omega (arith, s.size)) (omega arith) v')))

  -- siftDown returns and puts the one item out of order in its place.
  pub sift_down_lem :
      (h : QuaternaryHeap A) (i : ℕ) → DownInv h.items i → Returns (Sifted h) (sift_down h i)
  unfolding sift_down
  sift_down_lem h i v =
      sift_down_loop_lem (length h.items + 1) (length h.items) h i refl (omega arith) v

  -- Only the edges at `i` may be out of order.
  pub record RangeInv (a : List A) (i : ℕ) : Type 0 where
    pub in_range : i < length a
    pub edges :
        (c : ℕ)
        → 0 < c
        → c < length a
        → c ≢ i
        → parent_index c ≢ i
        → key a (parent_index c) ≤ key a c
    pub bridged : IsBridged a i

  range-UpInv :
      (a : List A) (i : ℕ) → RangeInv a i → 0 < i → key a i < key a (parent_index i) → UpInv a i
  range-UpInv a i v pos below = record {
    in_range = v.in_range;
    edges = λ c p q r. ground (arith, v.edges c p q r, v.bridged c p q);
    bridged = v.bridged;
  }

  range-DownInv :
      (a : List A) (i : ℕ) → RangeInv a i → (0 < i → key a (parent_index i) ≤ key a i) → DownInv a i
  range-DownInv a i v above = record {
    in_range = v.in_range;
    edges = λ c p q r. ground (arith, v.edges c p q);
    bridged = v.bridged;
  }

  -- siftRange returns and puts the one item out of order in its place, above or below.
  pub sift_range_lem :
      (h : QuaternaryHeap A) (i : ℕ) → RangeInv h.items i → Returns (Sifted h) (sift_range h i)
  unfolding sift_range
  sift_range_lem h i v = rw (less_lem h i (parent_index i) v.in_range (omega (arith, v.in_range))) (
      Returns-if (ltb 0 i)
        (λ pos.
          Returns-if (ltb (key h.items i) (key h.items (parent_index i)))
            (λ below. sift_up_lem h i (range-UpInv h.items i v (ground arith) (ground arith)))
            (λ level. sift_down_lem h i (range-DownInv h.items i v (λ _. ground arith))))
        (λ root. sift_down_lem h i (range-DownInv h.items i v (λ p. absurd (ground arith)))))
