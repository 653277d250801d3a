-- ===== src/Heap/Calls.antt =====
-- The calls of the heap that take items out or look items up.
use mathlib.Core.List.Memᴰ
use godelayq.Prelude.{
  ℕ, ◌+◌, ◌≤◌, ◌<◌, ◌≡◌, refl, ◌⊎◌, inl, inr, List, [], ◌∷◌, Option, none, some, Memᴰ, arith, Bool,
  true, false, ◌&&◌, ltb, leb, ◌==◌, length, get_elem?, ltb→lt, Returns, returns, Returns-if,
  Returns-bind,
}
use godelayq.Heap.{
  Item, QuaternaryHeap, has_due, visit_best, pop_best, pop_root, pop_if_due, pop_if_due_where,
}
use godelayq.Heap.Array.{at-get_elem?, get_elem?-in, get_elem?-lt}
use godelayq.Heap.Order.{key, IsHeap, WellFormed}
use godelayq.Heap.Remove.{Removed, remove_at_lem}
use godelayq.Heap.Due.{
  Sub-root, Sub-le, fold_visits, due_list, each_due_lem, due_list_sound, due_list_complete,
}
use godelayq.Heap.Best.{Best, fold_Best, fold_found}

earliest :
    {j : ℕ} (t tx ty : ℕ)
    → tx ≡ t
    → ((j' : ℕ) × (u : ℕ) × (◌≡◌ {A = Option (ℕ × ℕ)} (some (j, t)) (some (j', u))) × (u ≤ ty))
    → tx ≤ ty
earliest t tx ty e (j', u, same, p) = ground arith

module _ {ℓ} {A : Type ℓ} ⦃item : Item A⦄ where
  -- What PopIfDueWhere returns: nothing, when no allowed item is due, and the heap as it was; or
  -- an allowed due item that no other allowed item precedes, and a well-formed heap of the others.
  pub data Popped (h : QuaternaryHeap A) (now : ℕ) (allow : A → Bool)
      : Option A × QuaternaryHeap A → Type ℓ where
    kept :
        ((i : ℕ) (y : A)
          → get_elem? h.items i ≡ some y
          → allow y ≡ true
          → now < item.trigger_time y)
        → Popped h now allow (none, h)
    took :
        (x : A) (r : A × QuaternaryHeap A)
        → Removed h x r
        → allow x ≡ true
        → item.trigger_time x ≤ now
        → ((i : ℕ) (y : A)
            → get_elem? h.items i ≡ some y
            → allow y ≡ true
            → item.trigger_time x ≤ item.trigger_time y)
        → Popped h now allow (some r.0, r.1)

  -- The root has the earliest time.
  pub root_least :
      (a : List A) (i : ℕ) {x y : A}
      → IsHeap a
      → get_elem? a 0 ≡ some x
      → get_elem? a i ≡ some y
      → item.trigger_time x ≤ item.trigger_time y
  root_least a i {x} {y} v ex ey = omega (
    arith,
    Sub-le a v (Sub-root i) (get_elem?-lt a i ey),
    at-get_elem? item.trigger_time 0 a 0 ex,
    at-get_elem? item.trigger_time 0 a i ey,
  )

  pop_root_lem :
      (h : QuaternaryHeap A) (now : ℕ) (allow : A → Bool) (x : A)
      → WellFormed h
      → get_elem? h.items 0 ≡ some x
      → allow x ≡ true
      → item.trigger_time x ≤ now
      → Returns (Popped h now allow) (pop_root h)
  unfolding pop_root
  pop_root_lem h now allow x v ex on due =
      Returns-if (length h.items == 0) (λ e. absurd (ground (arith, get_elem?-lt h.items 0 ex)))
        λ _.
          Returns-bind (remove_at_lem h v 0 x ex)
            λ r s. returns (took x r s on due (λ i y ey _. root_least h.items i v.ordered ex ey))

  none_due :
      (h : QuaternaryHeap A) (now : ℕ) (allow : A → Bool)
      → length h.items ≡ 0
      → Returns (Popped h now allow) (some (none, h))
  none_due h now allow e =
      returns (kept (λ i y ey _. absurd (omega (arith, get_elem?-lt h.items i ey))))

  -- PopIfDue on a well-formed heap returns: with the item of the earliest time if that is due, and
  -- with nothing if no item is due.
  pub pop_if_due_lem :
      (h : QuaternaryHeap A) (now : ℕ)
      → WellFormed h
      → Returns (Popped h now (λ _. true)) (pop_if_due h now)
  unfolding pop_if_due
  pop_if_due_lem h now v =
      Returns-if (length h.items == 0) (λ e. none_due h now _ (ground arith))
        λ e.
          let (x, ex) = get_elem?-in h.items 0 (ground arith) in
          rw ex (
            Returns-if (ltb now (item.trigger_time x))
              (λ later. returns (
                kept (λ i y ey _.
                  omega (arith, root_least h.items i v.ordered ex ey, ltb→lt _ _ later))))
              λ due. pop_root_lem h now _ x v ex refl (ground arith))

  abbrev due_of : QuaternaryHeap A → ℕ → List ℕ
  due_of h now = due_list (length h.items + 1) h.items now 0

  due_of-in :
      (h : QuaternaryHeap A) (now i : ℕ) (y : A)
      → IsHeap h.items
      → get_elem? h.items i ≡ some y
      → item.trigger_time y ≤ now
      → Memᴰ i (due_of h now)
  due_of-in h now i y v ey due =
      due_list_complete (length h.items + 1) h.items now 0 i v (Sub-root i)
        (get_elem?-lt h.items i ey) (omega (arith, at-get_elem? item.trigger_time 0 h.items i ey))
        (omega arith)

  -- An item is due or later.
  due_or_later : (y : A) (now : ℕ) → (item.trigger_time y ≤ now) ⊎ (now < item.trigger_time y)
  due_or_later y now = omega arith

  abbrev pub Finds : List A → ℕ → Bool → Type ℓ
  Finds a now b =
      ((b ≡ true) × ((i : ℕ) × (y : A) × (get_elem? a i ≡ some y) × (item.trigger_time y ≤ now)))
      ⊎ ((b ≡ false) × ((i : ℕ) (y : A) → get_elem? a i ≡ some y → now < item.trigger_time y))

  found_lem :
      (a : List A) (now : ℕ) (l : List ℕ)
      → ((i : ℕ) → Memᴰ i l → (i < length a) × (key a i ≤ now))
      → ((i : ℕ) (y : A) → get_elem? a i ≡ some y → item.trigger_time y ≤ now → Memᴰ i l)
      → Returns (Finds a now) (fold_visits (λ _ _. some true) l false)
  found_lem a now [] sound complete = returns (
      inr (
        refl,
        λ i y ey. elim (due_or_later y now) [
          | inl due ↦ absurd (Memᴰ.not-nil (complete i y ey due))
          | inr later ↦ later
        ],
      ))
  found_lem a now (i ∷ l) sound complete =
      let (p, q) = sound i (Memᴰ.head refl) in
      let (y, ey) = get_elem?-in a i p in
      rw (fold_found i l false)
        (returns (inl (refl, (i, y, ey, omega (arith, at-get_elem? item.trigger_time 0 a i ey)))))

  -- HasDue on a well-formed heap tells whether any item is due.
  pub has_due_lem :
      (h : QuaternaryHeap A) (now : ℕ) → WellFormed h → Returns (Finds h.items now) (has_due h now)
  unfolding has_due
  has_due_lem h now v =
      rw (each_due_lem (λ _ _. some true) (length h.items + 1) h.items now 0 false (omega arith)) (
        found_lem h.items now (due_of h now) (due_list_sound (length h.items + 1) h.items now 0)
          (λ i y ey due. due_of-in h now i y v.ordered ey due))

  pop_best_lem :
      (h : QuaternaryHeap A) (now : ℕ) (allow : A → Bool) (out : Option (ℕ × ℕ))
      → WellFormed h
      → Best h.items allow (due_of h now) none out
      → Returns (Popped h now allow) (pop_best h out)
  unfolding pop_best
  pop_best_lem h now allow none v b = returns (
      kept (λ i y ey on. elim (due_or_later y now) [
        | inl due ↦
            let (j, u, e, _) =
              b.beats i (item.trigger_time y) (due_of-in h now i y v.ordered ey due)
                (y, ey, on, refl) in
            absurd (cc)
        | inr later ↦ later
      ]))
  pop_best_lem h now allow (some (j, t)) v b = elim (b.from j t refl) [
    | inl e ↦ absurd (cc)
    | inr (m, (x, ex, on, tx)) ↦
        let due : item.trigger_time x ≤ now = omega (
          arith,
          due_list_sound (length h.items + 1) h.items now 0 j m,
          at-get_elem? item.trigger_time 0 h.items j ex,
        ) in
        Returns-bind (remove_at_lem h v j x ex) λ r s. returns (
          took x r s on due (λ i y ey on'. elim (due_or_later y now) [
            | inl due' ↦ earliest t (item.trigger_time x) (item.trigger_time y) tx (
                b.beats i (item.trigger_time y) (due_of-in h now i y v.ordered ey due')
                  (y, ey, on', refl))
            | inr later ↦ omega arith
          ]))
  ]

  -- PopIfDueWhere on a well-formed heap returns: with the earliest of the allowed due items, and
  -- with nothing if no allowed item is due.
  pub pop_if_due_where_lem :
      (h : QuaternaryHeap A) (now : ℕ) (allow : A → Bool)
      → WellFormed h
      → Returns (Popped h now allow) (pop_if_due_where h now allow)
  unfolding pop_if_due_where
  pop_if_due_where_lem h now allow v =
      Returns-if (length h.items == 0) (λ e. none_due h now allow (ground arith))
        λ e.
          let (x, ex) = get_elem?-in h.items 0 (ground arith) in
          rw ex (
            Returns-if (allow x && leb (item.trigger_time x) now)
              (λ fast. pop_root_lem h now allow x v ex (ground arith) (ground arith))
              λ blocked.
                Returns-if (ltb now (item.trigger_time x))
                  (λ later. returns (
                    kept (λ i y ey _.
                      omega (arith, root_least h.items i v.ordered ex ey, ltb→lt _ _ later))))
                  λ due.
                    rw
                      (each_due_lem (visit_best h.items allow) (length h.items + 1) h.items now 0
                        none (omega arith))
                      (Returns-bind
                        (fold_Best h.items allow (due_of h now) none
                          λ i m. (due_list_sound (length h.items + 1) h.items now 0 i m).0)
                        λ out w. pop_best_lem h now allow out v w))
