-- ===== src/Heap/Order.antt =====
-- The order of the heap and its index, and what a comparison and a swap do to them.
use godelayq.Prelude.{
  ℕ, ◌≤◌, ◌<◌, ◌≡◌, ◌≢◌, ◌⊎◌, inl, inr, Bool-cases, sym, ◌∙◌, List, Option, some, Perm, arith,
  String, ltb, ◌==◌, if◌then◌else◌, length, get_elem?, set, Returns, returns, Returns-map,
  length-set,
}
use mathlib.Core.List.Perm
use godelayq.Dict
use godelayq.Heap.{Item, QuaternaryHeap, parent_index, less, swap}
use godelayq.Heap.Array.{
  at, get_elem?-in, get_elem?-lt, get_elem?-set, swap-perm, at-get_elem?, at-set,
}

module _ {ℓ} {A : Type ℓ} ⦃item : Item A⦄ where
  -- The trigger time and the id of the item at an index.
  abbrev pub key : List A → ℕ → ℕ
  key = at item.trigger_time 0

  abbrev pub id_at : List A → ℕ → String
  id_at = at item.id ""

  abbrev pub IsHeap : List A → Type 0
  IsHeap a = (c : ℕ) → 0 < c → c < length a → key a (parent_index c) ≤ key a c

  -- The index holds exactly the positions of the items.
  pub record Indexed (h : QuaternaryHeap A) : Type 0 where
    pub found : (i : ℕ) → i < length h.items → Dict.lookup (id_at h.items i) h.index_map ≡ some i
    pub inside :
        (k : String) (i : ℕ)
        → Dict.lookup k h.index_map ≡ some i
        → (i < length h.items) × (id_at h.items i ≡ k)

  -- What holds of a heap between two calls.
  pub record WellFormed (h : QuaternaryHeap A) : Type 0 where
    pub ordered : IsHeap h.items
    pub indexed : Indexed h

  -- `h'` holds the items of `h` and is indexed if `h` is.
  pub record Same (h h' : QuaternaryHeap A) : Type ℓ where
    pub items : Perm h'.items h.items
    pub index : Indexed h → Indexed h'

  -- `h'` is in heap order and holds the items of `h`.
  abbrev pub Sifted : QuaternaryHeap A → QuaternaryHeap A → Type ℓ
  Sifted h h' = IsHeap h'.items × Same h h'

  pub Same-refl : (h : QuaternaryHeap A) → Same h h
  Same-refl h = record { items = Perm.refl h.items; index = λ v. v }

  pub Sifted-swap :
      {h : QuaternaryHeap A} {r : Option (QuaternaryHeap A)} (h1 : QuaternaryHeap A)
      → Same h h1
      → Returns (Sifted h1) r
      → Returns (Sifted h) r
  Sifted-swap h1 s run = Returns-map run λ h2 t.
      (t.0, record { items = Perm.trans t.1.items s.items; index = λ v. t.1.index (s.index v) })

  pub record Swapped (h : QuaternaryHeap A) (i j : ℕ) (h' : QuaternaryHeap A) : Type ℓ where
    pub same : Same h h'
    pub size : length h'.items ≡ length h.items
    pub moved : get_elem? h'.items j ≡ get_elem? h.items i
    pub keys :
        (k : ℕ)
        → key h'.items k
          ≡ (if k == i then key h.items j else if k == j then key h.items i else key h.items k)

  pub less_lem :
      (h : QuaternaryHeap A) (i j : ℕ)
      → i < length h.items
      → j < length h.items
      → less h i j ≡ some (ltb (key h.items i) (key h.items j))
  unfolding less
  less_lem h i j p q =
      let (x, ex) = get_elem?-in h.items i p in
      let (y, ey) = get_elem?-in h.items j q in
      rw (
        ex,
        ey,
        at-get_elem? item.trigger_time 0 h.items i ex,
        at-get_elem? item.trigger_time 0 h.items j ey,
      )

module _ {ℓ} {A : Type ℓ} ⦃item : Item A⦄ (h : QuaternaryHeap A) (i j : ℕ) (x y : A)
    (at_i : get_elem? h.items i ≡ some x) (at_j : get_elem? h.items j ≡ some y) where
  -- What Swap leaves, with the two items named.
  abbrev swapped : QuaternaryHeap A
  swapped = record {
    items = set (set h.items i y) j x;
    index_map = Dict.insert (item.id x) j (Dict.insert (item.id y) i h.index_map);
  }

  in_i : i < length h.items
  in_i = get_elem?-lt h.items i at_i

  in_j : j < length (set h.items i y)
  in_j = rw (length-set h.items i y) (get_elem?-lt h.items j at_j)

  swapped_at {κ} :
      {B : Type κ} (f : A → B) (d : B) (k : ℕ)
      → at f d swapped.items k ≡ (
          if k == i
          then at f d h.items j
          else if k == j
          then at f d h.items i
          else at f d h.items k)
  swapped_at f d k = ground (
    arith,
    at-set f d h.items i k y in_i,
    at-set f d (set h.items i y) j k x in_j,
    at-get_elem? f d h.items i at_i,
    at-get_elem? f d h.items j at_j,
  )

  size : length swapped.items ≡ length h.items
  size = omega (arith, length-set (set h.items i y) j x, length-set h.items i y)

  id_swapped :
      (k : ℕ)
      → ((k ≡ i) × (id_at swapped.items k ≡ item.id y))
        ⊎ ((k ≢ i) × (k ≡ j) × (id_at swapped.items k ≡ item.id x))
        ⊎ ((k ≢ i) × (k ≢ j) × (id_at swapped.items k ≡ id_at h.items k))
  id_swapped k = elim (Bool-cases (k == i)) [
    | inl e ↦
        inl (ground arith, rw (swapped_at item.id "" k, e) (at-get_elem? item.id "" h.items j at_j))
    | inr n ↦ elim (Bool-cases (k == j)) [
      | inl e ↦ inr (
          inl (
            ground arith,
            ground arith,
            rw (swapped_at item.id "" k, n, e) (at-get_elem? item.id "" h.items i at_i),
          ))
      | inr m ↦ inr (inr (ground arith, ground arith, rw (swapped_at item.id "" k, n, m)))
    ]
  ]

  swapped-get_i : get_elem? swapped.items i ≡ some y
  swapped-get_i =
      ground (arith, get_elem?-set h.items i i y in_i, get_elem?-set (set h.items i y) j i x in_j)

  swapped-get_j : get_elem? swapped.items j ≡ some x
  swapped-get_j = ground (arith, get_elem?-set (set h.items i y) j j x in_j)

  swapped-Indexed : Indexed h → Indexed swapped
  swapped-Indexed v = record {
    found = λ k p. ground (
      arith,
      size,
      id_swapped k,
      v.found k (rw (← size) p),
      v.found i in_i,
      v.found j (get_elem?-lt h.items j at_j),
      at-get_elem? item.id "" h.items i at_i,
      at-get_elem? item.id "" h.items j at_j,
      Dict.insert_cases (item.id y) (id_at swapped.items k) i h.index_map,
      Dict.insert_cases (item.id x) (id_at swapped.items k) j
          (Dict.insert (item.id y) i h.index_map),
    );
    inside = λ k n p. ground (
      arith,
      size,
      id_swapped n,
      in_i,
      get_elem?-lt h.items j at_j,
      v.inside k n,
      v.found i in_i,
      v.found j (get_elem?-lt h.items j at_j),
      at-get_elem? item.id "" h.items i at_i,
      at-get_elem? item.id "" h.items j at_j,
      Dict.insert_cases (item.id y) k i h.index_map,
      Dict.insert_cases (item.id x) k j (Dict.insert (item.id y) i h.index_map),
    );
  }

  pub swapped-Swapped : Swapped h i j swapped
  swapped-Swapped = record {
    same = record { items = swap-perm h.items i j at_i at_j; index = swapped-Indexed };
    size = size;
    moved = swapped-get_j ∙ sym at_i;
    keys = swapped_at item.trigger_time 0;
  }

module _ {ℓ} {A : Type ℓ} ⦃item : Item A⦄ where
  pub swap_lem :
      (h : QuaternaryHeap A) (i j : ℕ)
      → i < length h.items
      → j < length h.items
      → Returns (Swapped h i j) (swap h i j)
  unfolding swap
  swap_lem h i j p q =
      let (x, ex) = get_elem?-in h.items i p in
      let (y, ey) = get_elem?-in h.items j q in
      rw (ex, ey, swapped-get_i h i j x y ex ey, swapped-get_j h i j x y ex ey)
        (returns (swapped-Swapped h i j x y ex ey))
