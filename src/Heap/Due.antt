-- ===== src/Heap/Due.antt =====
-- eachDue: the indices that the walk over the due part of the tree visits.
use mathlib.Core.List.{Memᴰ}
use mathlib.Core.List.Memᴰ
use godelayq.Prelude.{
  ℕ, zero, suc, ◌+◌, ◌-◌, ◌*◌, ◌%◌, ◌≤◌, ◌<◌, ◌≡◌, refl, sym, ◌∙◌, inl, inr, List, [], ◌∷◌, ◌++◌,
  Option, some, arith, ltb, leb, if◌then◌else◌, length, get_elem?, ◌>>=◌, Bool-cases, subst, ◌==◌,
  >>=-cong, >>=_assoc, ◌||◌, true, false,
}
use godelayq.Heap.{Item, branch_factor, parent_index, each_child, each_due}
use godelayq.Heap.Array.{at-get_elem?, get_elem?-in}
use godelayq.Heap.Order.{key, IsHeap}

-- `i` stands in the subtree of `r`.
pub data Sub : ℕ → ℕ → Type 0 where
  here : {r : ℕ} → Sub r r
  child : {r i : ℕ} (c : ℕ) → c < branch_factor → Sub (branch_factor * r + 1 + c) i → Sub r i

Sub-child : {r p : ℕ} (i : ℕ) → Sub r p → 0 < i → parent_index i ≡ p → Sub r i
Sub-child {r} i here pos e =
    let offset = (i - 1) % branch_factor in
    child offset (omega arith) (subst (λ k. Sub k i) (omega arith) (here {r = i}))
Sub-child i (child c p s) pos e = child c p (Sub-child i s pos e)

Sub-below : (k i : ℕ) → i < k → Sub 0 i
Sub-below zero i h = absurd (omega arith)
Sub-below (suc k) i h = elim (Bool-cases (ltb 0 i)) [
  | inl e ↦ Sub-child i (Sub-below k (parent_index i) (ground arith)) (ground arith) refl
  | inr n ↦ subst (Sub 0) (ground arith) (here {r = 0})
]

-- Every index stands in the subtree of the root.
pub Sub-root : (i : ℕ) → Sub 0 i
Sub-root i = Sub-below (suc i) i (omega arith)

-- The visits of a list of indices, one after the other.
abbrev pub fold_visits {κ} : {S : Type κ} → (ℕ → S → Option S) → List ℕ → S → Option S
fold_visits visit [] s = some s
fold_visits visit (i ∷ l) s = visit i s >>= fold_visits visit l

fold_visits-append {κ} :
    {S : Type κ} (visit : ℕ → S → Option S) (l k : List ℕ) (s : S)
    → fold_visits visit (l ++ k) s ≡ (fold_visits visit l s >>= fold_visits visit k)
fold_visits-append visit [] k s = refl
fold_visits-append visit (i ∷ l) k s =
    >>=-cong (visit i s) (λ t. fold_visits-append visit l k t)
    ∙ sym (>>=_assoc (visit i s) (fold_visits visit l) (fold_visits visit k))

-- The indices that the loop over the children visits, in order.
children_list : ℕ → (ℕ → List ℕ) → ℕ → ℕ → List ℕ
children_list zero walk idx c = []
children_list (suc rounds) walk idx c =
    walk (branch_factor * idx + 1 + c) ++ children_list rounds walk idx (c + 1)

children_list-in :
    {i : ℕ} (rounds : ℕ) (walk : ℕ → List ℕ) (idx first c : ℕ)
    → first ≤ c
    → c < first + rounds
    → Memᴰ i (walk (branch_factor * idx + 1 + c))
    → Memᴰ i (children_list rounds walk idx first)
unfolding children_list
children_list-in zero walk idx first c p q m = absurd (omega arith)
children_list-in {i} (suc rounds) walk idx first c p q m = elim (Bool-cases (first == c)) [
  | inl e ↦
      let same : c ≡ first = ground arith in
      Memᴰ.append_left _ (subst (λ k. Memᴰ i (walk (branch_factor * idx + 1 + k))) same m)
  | inr n ↦
      Memᴰ.append_right (walk (branch_factor * idx + 1 + first))
        (children_list-in rounds walk idx (first + 1) c (ground arith) (omega arith) m)
]

children_list-cases :
    {i : ℕ} (rounds : ℕ) (walk : ℕ → List ℕ) (idx first : ℕ)
    → Memᴰ i (children_list rounds walk idx first)
    → (c : ℕ) × Memᴰ i (walk (branch_factor * idx + 1 + c))
unfolding children_list
children_list-cases zero walk idx first m = absurd (Memᴰ.not-nil m)
children_list-cases (suc rounds) walk idx first m =
    elim (Memᴰ.append_cases (walk (branch_factor * idx + 1 + first)) m) [
      | inl l ↦ (first, l)
      | inr r ↦ children_list-cases rounds walk idx (first + 1) r
    ]

each_child_lem {κ} :
    {S : Type κ} (visit : ℕ → S → Option S) (rounds : ℕ) (run : ℕ → S → Option S)
    (walk : ℕ → List ℕ) (idx first : ℕ)
    → ((c : ℕ) (s : S)
        → run (branch_factor * idx + 1 + c) s
          ≡ fold_visits visit (walk (branch_factor * idx + 1 + c)) s)
    → (s : S)
    → each_child rounds run idx first s ≡ fold_visits visit (children_list rounds walk idx first) s
unfolding children_list each_child
each_child_lem visit zero run walk idx first h s = refl
each_child_lem visit (suc rounds) run walk idx first h s = rw (h first s) (
    >>=-cong (fold_visits visit (walk (branch_factor * idx + 1 + first)) s)
      (λ t. each_child_lem visit rounds run walk idx (first + 1) h t)
    ∙ sym (
        fold_visits-append visit (walk (branch_factor * idx + 1 + first))
          (children_list rounds walk idx (first + 1)) s))

module _ {ℓ} {A : Type ℓ} ⦃item : Item A⦄ where
  -- The indices that eachDue visits, in order.
  pub due_list : ℕ → List A → ℕ → ℕ → List ℕ
  due_list zero a now idx = []
  due_list (suc fuel) a now idx =
      if leb (length a) idx || ltb now (key a idx)
      then []
      else idx ∷ children_list branch_factor (due_list fuel a now) idx 0

  each_due-out {κ} :
      {S : Type κ} (visit : ℕ → S → Option S) (fuel : ℕ) (a : List A) (now idx : ℕ) (s : S)
      → leb (length a) idx ≡ true
      → each_due (suc fuel) a now visit idx s ≡ some s
  unfolding each_due
  each_due-out visit fuel a now idx s p = rw p

  each_due-later {κ} :
      {S : Type κ} (visit : ℕ → S → Option S) (fuel : ℕ) (a : List A) (now idx : ℕ) (s : S) (x : A)
      → leb (length a) idx ≡ false
      → get_elem? a idx ≡ some x
      → ltb now (item.trigger_time x) ≡ true
      → each_due (suc fuel) a now visit idx s ≡ some s
  unfolding each_due
  each_due-later visit fuel a now idx s x p q r = rw (p, q, r)

  each_due-visit {κ} :
      {S : Type κ} (visit : ℕ → S → Option S) (fuel : ℕ) (a : List A) (now idx : ℕ) (s : S) (x : A)
      → leb (length a) idx ≡ false
      → get_elem? a idx ≡ some x
      → ltb now (item.trigger_time x) ≡ false
      → each_due (suc fuel) a now visit idx s
        ≡ (visit idx s >>= each_child branch_factor (each_due fuel a now visit) idx 0)
  unfolding each_due
  each_due-visit visit fuel a now idx s x p q r = rw (p, q, r)

  -- eachDue makes exactly the visits of `due_list`, and does not run out of fuel.
  pub each_due_lem {κ} :
      {S : Type κ} (visit : ℕ → S → Option S) (fuel : ℕ) (a : List A) (now idx : ℕ) (s : S)
      → length a - idx < fuel
      → each_due fuel a now visit idx s ≡ fold_visits visit (due_list fuel a now idx) s
  unfolding due_list
  each_due_lem visit zero a now idx s f = absurd (omega arith)
  each_due_lem visit (suc fuel) a now idx s f = elim (Bool-cases (leb (length a) idx)) [
    | inl out ↦ each_due-out visit fuel a now idx s out ∙ rw out
    | inr inside ↦
        let (x, ex) = get_elem?-in a idx (ground arith) in
        let kx = at-get_elem? item.trigger_time 0 a idx ex in
        elim (Bool-cases (ltb now (item.trigger_time x))) [
          | inl later ↦
              each_due-later visit fuel a now idx s x inside ex later ∙ rw (inside, kx, later)
          | inr due ↦
              each_due-visit visit fuel a now idx s x inside ex due
              ∙ rw (inside, kx, due)
                  (>>=-cong (visit idx s) (
                    each_child_lem visit branch_factor (each_due fuel a now visit)
                      (due_list fuel a now) idx 0
                      (λ c t.
                        each_due_lem visit fuel a now (branch_factor * idx + 1 + c) t
                          (ground arith))))
        ]
  ]

  pub due_list_sound :
      (fuel : ℕ) (a : List A) (now idx i : ℕ)
      → Memᴰ i (due_list fuel a now idx)
      → (i < length a) × (key a i ≤ now)
  unfolding due_list
  due_list_sound zero a now idx i m = absurd (Memᴰ.not-nil m)
  due_list_sound (suc fuel) a now idx i m =
      elim (Bool-cases (leb (length a) idx || ltb now (key a idx))) [
        | inl stop ↦ absurd (Memᴰ.not-nil (rw stop at m))
        | inr go ↦ elim (Memᴰ.cases_cons (rw go at m)) [
          | inl e ↦ ground arith
          | inr l ↦
              let (c, below) = children_list-cases branch_factor (due_list fuel a now) idx 0 l in
              due_list_sound fuel a now (branch_factor * idx + 1 + c) i below
        ]
      ]

  pub Sub-le :
      (a : List A) {r i : ℕ} → IsHeap a → Sub r i → i < length a → (r ≤ i) × (key a r ≤ key a i)
  Sub-le a v here p = (omega arith, omega arith)
  Sub-le a {r} {i} v (child c q s) p =
      let below = Sub-le a v s p in ground (arith, v (branch_factor * r + 1 + c), below)

  pub due_list_complete :
      (fuel : ℕ) (a : List A) (now idx i : ℕ)
      → IsHeap a
      → Sub idx i
      → i < length a
      → key a i ≤ now
      → length a - idx < fuel
      → Memᴰ i (due_list fuel a now idx)
  unfolding due_list
  due_list_complete zero a now idx i v s p d f = absurd (omega arith)
  due_list_complete (suc fuel) a now idx i v here p d f =
      let go : (leb (length a) i || ltb now (key a i)) ≡ false = ground arith in
      rw go (Memᴰ.head refl)
  due_list_complete (suc fuel) a now idx i v (child c q s) p d f =
      let below = Sub-le a v s p in
      let above = Sub-le a v (child c q s) p in
      let go : (leb (length a) idx || ltb now (key a idx)) ≡ false = ground arith in
      rw go (
        Memᴰ.tail (
          children_list-in branch_factor (due_list fuel a now) idx 0 c (omega arith) (omega arith)
            (due_list_complete fuel a now (branch_factor * idx + 1 + c) i v s p d (omega arith))))
