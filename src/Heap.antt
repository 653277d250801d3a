-- ===== src/Heap.antt =====
-- core/heap.go: the 4-ary heap with its index from item ids to positions.
-- An operation that changes the receiver returns the new heap. `none` stands for a run-time panic
-- (an index out of range) or for a loop whose fuel ran out. The mutex makes each call one step.
pub mod Array
pub mod Order
pub mod Up
pub mod Down
pub mod Insert
pub mod Remove
pub mod Due
pub mod Best
pub mod Calls
pub mod ById
pub mod Once
mod Tests
use godelayq.Prelude.{
  ℕ, zero, suc, ◌+◌, ◌-◌, ◌*◌, ◌/◌, ◌≤◌, List, [], ◌∷◌, ◌++◌, Bool, true, false, ◌&&◌, Option, none,
  some, String, ltb, leb, ◌==◌, if◌then◌else◌, not, length, get_elem?, set, take, ◌>>=◌,
}
use godelayq.Dict
use godelayq.Dict.{Dict}

-- A time is a number of nanoseconds.
pub record Item {ℓ} (A : Type ℓ) : Type ℓ where
  pub trigger_time : A → ℕ
  pub id : A → String

abbrev pub branch_factor : ℕ
branch_factor = 4

pub record QuaternaryHeap {ℓ} (A : Type ℓ) : Type ℓ where
  pub items : List A
  pub index_map : Dict ℕ

abbrev pub parent_index : ℕ → ℕ
parent_index i = (i - 1) / branch_factor

-- The variables best and bestTime of PopIfDueWhere; `none` is best == -1.
unfoldable pub earlier : ℕ → ℕ → Option (ℕ × ℕ) → Option (ℕ × ℕ)
earlier idx due none = some (idx, due)
earlier idx due (some (b, t)) = if ltb due t then some (idx, due) else some (b, t)

-- The loop over the children of `idx` in eachDue.
unfoldable pub each_child {κ} : {S : Type κ} → ℕ → (ℕ → S → Option S) → ℕ → ℕ → S → Option S
each_child zero walk idx child s = some s
each_child (suc rounds) walk idx child s =
    walk (branch_factor * idx + 1 + child) s >>= each_child rounds walk idx (child + 1)

module _ {ℓ} {A : Type ℓ} ⦃item : Item A⦄ where
  unfoldable pub new : QuaternaryHeap A
  new = record { items = []; index_map = [] }

  unfoldable pub len : QuaternaryHeap A → ℕ
  len h = length h.items

  unfoldable pub less : QuaternaryHeap A → ℕ → ℕ → Option Bool
  less h i j = do
    x ← get_elem? h.items i
    y ← get_elem? h.items j
    some (ltb (item.trigger_time x) (item.trigger_time y))

  unfoldable pub swap : QuaternaryHeap A → ℕ → ℕ → Option (QuaternaryHeap A)
  swap h i j = do
    x ← get_elem? h.items i
    y ← get_elem? h.items j
    let items = set (set h.items i y) j x
    new_i ← get_elem? items i
    new_j ← get_elem? items j
    some (record {
      items = items;
      index_map = Dict.insert (item.id new_j) j (Dict.insert (item.id new_i) i h.index_map);
    })

  -- Each round at least divides the index by 4, so `idx + 1` rounds are enough.
  unfoldable pub sift_up_loop : ℕ → QuaternaryHeap A → ℕ → Option (QuaternaryHeap A)
  sift_up_loop zero h idx = none
  sift_up_loop (suc fuel) h idx =
      if ltb 0 idx
      then (less h idx (parent_index idx) >>= λ below.
          if below
          then (swap h idx (parent_index idx) >>= λ h'. sift_up_loop fuel h' (parent_index idx))
          else some h)
      else some h

  unfoldable pub sift_up : QuaternaryHeap A → ℕ → Option (QuaternaryHeap A)
  sift_up h idx = sift_up_loop (idx + 1) h idx

  -- The loop over the children, with the number of children that are left.
  unfoldable pub min_child : ℕ → QuaternaryHeap A → ℕ → ℕ → Option ℕ
  min_child zero h child min_idx = some min_idx
  min_child (suc rounds) h child min_idx = less h child min_idx >>= λ below.
      min_child rounds h (child + 1) (if below then child else min_idx)

  -- Each round moves to a child, whose index is larger, so `n + 1` rounds are enough.
  unfoldable pub sift_down_loop : ℕ → ℕ → QuaternaryHeap A → ℕ → Option (QuaternaryHeap A)
  sift_down_loop zero n h idx = none
  sift_down_loop (suc fuel) n h idx =
      let first_child = branch_factor * idx + 1 in
      let last = if ltb n (first_child + branch_factor) then n else first_child + branch_factor in
      if leb n first_child
      then some h
      else (min_child (last - first_child) h first_child idx >>= λ min_idx.
          if min_idx == idx
          then some h
          else (swap h idx min_idx >>= λ h'. sift_down_loop fuel n h' min_idx))

  unfoldable pub sift_down : QuaternaryHeap A → ℕ → Option (QuaternaryHeap A)
  sift_down h idx = sift_down_loop (length h.items + 1) (length h.items) h idx

  unfoldable pub sift_range : QuaternaryHeap A → ℕ → Option (QuaternaryHeap A)
  sift_range h idx =
      if ltb 0 idx
      then (less h idx (parent_index idx) >>= λ below.
          if below then sift_up h idx else sift_down h idx)
      else sift_down h idx

  unfoldable pub push_item : QuaternaryHeap A → A → Option (QuaternaryHeap A)
  push_item h x =
      let n = length h.items in
      sift_up
        (record { items = h.items ++ x ∷ []; index_map = Dict.insert (item.id x) n h.index_map }) n

  -- The callers pass an index in range, so `length - 1` is exact.
  unfoldable pub remove_at : QuaternaryHeap A → ℕ → Option (A × QuaternaryHeap A)
  remove_at h idx =
      let last = length h.items - 1 in
      do
        h1 ← (if idx == last then some h else swap h idx last)
        x ← get_elem? h1.items last
        let h2 : QuaternaryHeap A = record {
          items = take last h1.items;
          index_map = Dict.delete (item.id x) h1.index_map;
        }
        h3 ← (if idx == last then some h2 else sift_range h2 idx)
        some (x, h3)

  unfoldable pub pop_root : QuaternaryHeap A → Option (Option A × QuaternaryHeap A)
  pop_root h =
      if length h.items == 0
      then some (none, h)
      else (remove_at h 0 >>= λ (x, h'). some (some x, h'))

  unfoldable pub pop_if_due : QuaternaryHeap A → ℕ → Option (Option A × QuaternaryHeap A)
  pop_if_due h now =
      if length h.items == 0
      then some (none, h)
      else (get_elem? h.items 0 >>= λ x.
          if ltb now (item.trigger_time x) then some (none, h) else pop_root h)

  -- The visitor may change the variables that it closes over, `S`.
  unfoldable pub each_due {κ} :
      {S : Type κ} → ℕ → List A → ℕ → (ℕ → S → Option S) → ℕ → S → Option S
  each_due zero a now visit idx s = none
  each_due (suc fuel) a now visit idx s =
      let rest = visit idx s >>= each_child branch_factor (each_due fuel a now visit) idx 0 in
      if leb (length a) idx
      then some s
      else (get_elem? a idx >>= λ x. if ltb now (item.trigger_time x) then some s else rest)

  unfoldable pub has_due : QuaternaryHeap A → ℕ → Option Bool
  has_due h now = each_due (length h.items + 1) h.items now (λ _ _. some true) 0 false

  unfoldable pub visit_best : List A → (A → Bool) → ℕ → Option (ℕ × ℕ) → Option (Option (ℕ × ℕ))
  visit_best a allow idx best = get_elem? a idx >>= λ x.
      if not (allow x) then some best else some (earlier idx (item.trigger_time x) best)

  unfoldable pub pop_best : QuaternaryHeap A → Option (ℕ × ℕ) → Option (Option A × QuaternaryHeap A)
  pop_best h none = some (none, h)
  pop_best h (some (b, t)) = remove_at h b >>= λ (x, h'). some (some x, h')

  -- A nil `allow` is the function that allows every item.
  unfoldable pub pop_if_due_where :
      QuaternaryHeap A → ℕ → (A → Bool) → Option (Option A × QuaternaryHeap A)
  pop_if_due_where h now allow =
      if length h.items == 0
      then some (none, h)
      else (get_elem? h.items 0 >>= λ root.
          if allow root && leb (item.trigger_time root) now
          then pop_root h
          else if ltb now (item.trigger_time root)
          then some (none, h)
          else (each_due (length h.items + 1) h.items now (visit_best h.items allow) 0 none
              >>= pop_best h))

  unfoldable pub peek : QuaternaryHeap A → Option A
  peek h = get_elem? h.items 0

  -- The outer option is the run, the inner one is Go's nil.
  unfoldable pub get : QuaternaryHeap A → String → Option (Option A)
  get h id = elim (Dict.lookup id h.index_map) [
    | none ↦ some none
    | some idx ↦ get_elem? h.items idx >>= λ x. some (some x)
  ]

  unfoldable pub remove : QuaternaryHeap A → String → Option (Option A × QuaternaryHeap A)
  remove h id = elim (Dict.lookup id h.index_map) [
    | none ↦ some (none, h)
    | some idx ↦ remove_at h idx >>= λ (x, h'). some (some x, h')
  ]

  unfoldable pub update : QuaternaryHeap A → A → Option (Bool × QuaternaryHeap A)
  update h x = elim (Dict.lookup (item.id x) h.index_map) [
    | none ↦ some (false, h)
    | some idx ↦ get_elem? h.items idx >>= λ _.
        sift_range (record h { items = set h.items idx x }) idx >>= λ h'. some (true, h')
  ]
