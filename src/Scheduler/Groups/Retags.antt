-- ===== src/Scheduler/Groups/Retags.antt =====
-- What SetGroup and RetagGroup change.
use godelayq.Prelude.{
  ℕ, ◌+◌, ◌≤◌, ◌≡◌, ◌≢◌, ◌⊎◌, refl, sym, ap, ◌∙◌, inl, inr, List, [], ◌∷◌, Bool, true, false, not,
  Option, none, some, String, arith, ◌==◌, Perm, get_elem?, if◌then◌else◌, ite, if_pos, if_neg,
  string_discrete, subst, Returns, returns, Returns-bind, Returns-map, Returns-if, Bool-cases,
}
use godelayq.Text.{codes, equal_fold}
use godelayq.Heap.{QuaternaryHeap}
use godelayq.Heap.Order.{WellFormed}
use godelayq.Heap.ById.{
  Absent, Got, got_none, got_some, get_lem, Updated, updated_none, updated_some, update_lem,
}
use godelayq.Heap.Once.{count_id, count_id-perm}
use godelayq.Job.{Job, JobSnapshot, job_item, status_running, to_snapshot}
use godelayq.Scheduler.{Env, Scheduler, Result, ok, err, on_store}
use godelayq.Scheduler.Groups.{
  same_text, written, store_group, apply_group_to_item, apply_group_to_stored,
  apply_group_to_snapshot, retag_all, counted,
}

abbrev pub regrouped : Job → String → ℕ → Job
regrouped j group now = record j { group = group; updated_at = now }

-- How many snapshots are of the group, up to case.
abbrev pub hits : String → List JobSnapshot → ℕ
hits from_group [] = 0
hits from_group (snap ∷ l) =
    (if not (equal_fold (codes snap.group) (codes from_group)) then 0 else 1) + hits from_group l

module _ {S : Type 0} (env : Env S) where
  -- A waiting job is replaced in the heap and in the store; a job that is stored and does not run is
  -- changed in the store; where it runs, or has the group already, nothing changes.
  pub data Applied (s : Scheduler S) (snap : JobSnapshot) (group : String) (now : ℕ)
      : Scheduler S × Result Bool → Type 0 where
    waiting :
        (i : ℕ) (j y : Job) (s' : Scheduler S) (a : Result Bool)
        → get_elem? s.heap.items i ≡ some j
        → j.id ≡ snap.id
        → j.group ≢ group
        → WellFormed s'.heap
        → y.id ≡ snap.id
        → Perm (y ∷ s'.heap.items) (regrouped j group now ∷ s.heap.items)
        → s'.store
          ≡ on_store (env.store_ops.update now (to_snapshot (regrouped j group now))) s.store
        → s'.cancel_map ≡ s.cancel_map
        → Applied s snap group now (s', a)
    stored :
        (s' : Scheduler S) (a : Result Bool)
        → Absent s.heap snap.id
        → (snap.status == status_running) ≡ false
        → snap.group ≢ group
        → s'.heap ≡ s.heap
        → s'.store
          ≡ on_store
              (env.store_ops.update now (record snap { group = group; updated_at = now }))
              s.store
        → s'.cancel_map ≡ s.cancel_map
        → Applied s snap group now (s', a)
    left_alone :
        ((i : ℕ) × (j : Job) × (get_elem? s.heap.items i ≡ some j)
            × (j.id ≡ snap.id)
            × (j.group ≡ group))
          ⊎ (Absent s.heap snap.id
              × (((snap.status == status_running) ≡ true)
                  ⊎ (s.store ≡ none)
                  ⊎ (snap.group ≡ group)))
        → Applied s snap group now (s, ok false)

  same_group : (a b : String) → same_text a b ≡ true → a ≡ b
  same_group a b e = elim (string_discrete a b) [
    | yes same ↦ same
    | no other ↦ let f = if_neg {C = Bool} (string_discrete a b) other true false in absurd (cc)
  ]

  other_group : (a b : String) → same_text a b ≡ false → a ≢ b
  other_group a b e same = let f = if_pos {C = Bool} (string_discrete a b) same true false in cc

  Wrote : Scheduler S → Option S → Scheduler S → Type 0
  Wrote s store s' = (s'.heap ≡ s.heap) × (s'.store ≡ store) × (s'.cancel_map ≡ s.cancel_map)

  write_lem :
      (s : Scheduler S) (snap : JobSnapshot) (now : ℕ) (o : Option S)
      → s.store ≡ o
      → Wrote s (on_store (env.store_ops.update now snap) o) (written env s snap now o).0
  unfolding Wrote written
  write_lem s snap now none e = (refl, e, refl)
  write_lem s snap now (some st) e = (refl, refl, refl)

  store_group_lem :
      (s : Scheduler S) (snap : JobSnapshot) (now : ℕ)
      → Wrote s (on_store (env.store_ops.update now snap) s.store) (store_group env s snap now).0
  unfolding store_group
  store_group_lem s snap now = write_lem s snap now s.store refl

  item_lem :
      (s : Scheduler S) (snap : JobSnapshot) (group : String) (now i : ℕ) (j : Job)
      → WellFormed s.heap
      → get_elem? s.heap.items i ≡ some j
      → j.id ≡ snap.id
      → j.group ≢ group
      → (r : Bool × QuaternaryHeap Job) → Updated s.heap (regrouped j group now) r
      → Returns (Applied s snap group now) (
          if r.0
          then some
              (store_group env (record s { heap = r.1 }) (to_snapshot (regrouped j group now)) now)
          else some (record s { heap = r.1 }, ok false))
  unfolding Wrote
  item_lem s snap group now i j v at same other _ (updated_none gone) = absurd (gone i j at refl)
  item_lem s snap group now i j v at same other _ (updated_some y h id_y w items) =
      let s1 : Scheduler S = record s { heap = h } in
      let done = store_group_lem s1 (to_snapshot (regrouped j group now)) now in
      returns (
        waiting i j y _ _ at same other
          (subst (λ (g : QuaternaryHeap Job). WellFormed g) (sym done.0) w) (id_y ∙ same)
          (subst
            (λ (g : QuaternaryHeap Job). Perm (y ∷ g.items) (regrouped j group now ∷ s.heap.items))
            (sym done.0) items)
          done.1 done.2)

  grouped :
      (s : Scheduler S) (snap : JobSnapshot) (group : String) (now : ℕ)
      → Absent s.heap snap.id
      → (snap.status == status_running) ≡ false
      → snap.group ≢ group
      → Applied s snap group now
          (store_group env s (record snap { group = group; updated_at = now }) now)
  unfolding Wrote
  grouped s snap group now gone idle other =
      let done = store_group_lem s (record snap { group = group; updated_at = now }) now in
      stored _ _ gone idle other done.0 done.1 done.2

  from_store :
      (s : Scheduler S) (snap : JobSnapshot) (group : String) (now : ℕ) (o : Option S)
      → s.store ≡ o
      → Absent s.heap snap.id
      → (snap.status == status_running) ≡ false
      → Applied s snap group now (elim o [
        | none ↦ (s, ok false)
        | some _ ↦
            if same_text snap.group group
            then (s, ok false)
            else store_group env s (record snap { group = group; updated_at = now }) now
      ])
  from_store s snap group now none e gone idle = left_alone (inr (gone, inr (inl e)))
  from_store s snap group now (some st) e gone idle =
      elim (Bool-cases (same_text snap.group group)) [
        | inl is ↦
            subst
              (λ b. Applied s snap group now (
                if b
                then (s, ok false)
                else store_group env s (record snap { group = group; updated_at = now }) now))
              (sym is) (left_alone (inr (gone, inr (inr (same_group snap.group group is)))))
        | inr other ↦
            subst
              (λ b. Applied s snap group now (
                if b
                then (s, ok false)
                else store_group env s (record snap { group = group; updated_at = now }) now))
              (sym other) (grouped s snap group now gone idle (other_group snap.group group other))
      ]

  stored_lem :
      (s : Scheduler S) (snap : JobSnapshot) (group : String) (now : ℕ)
      → Absent s.heap snap.id
      → Applied s snap group now (apply_group_to_stored env s snap group now)
  unfolding apply_group_to_stored Wrote
  stored_lem s snap group now gone = elim (Bool-cases (snap.status == status_running)) [
    | inl runs ↦ rw runs (left_alone (inr (gone, inl runs)))
    | inr idle ↦ rw idle (from_store s snap group now s.store refl gone idle)
  ]

  found_lem :
      (s : Scheduler S) (snap : JobSnapshot) (group : String) (now : ℕ)
      → WellFormed s.heap
      → (o : Option Job) → Got s.heap snap.id o
      → Returns (Applied s snap group now) (elim o [
        | some j ↦ apply_group_to_item env s j group now
        | none ↦ some (apply_group_to_stored env s snap group now)
      ])
  unfolding apply_group_to_item
  found_lem s snap group now v _ (got_none gone) = returns (stored_lem s snap group now gone)
  found_lem s snap group now v _ (got_some i j at same) =
      Returns-if (same_text j.group group)
        (λ is. returns (left_alone (inl (i, j, at, same, same_group j.group group is))))
        (λ other.
          Returns-bind (update_lem s.heap v (regrouped j group now))
            λ r p. item_lem s snap group now i j v at same (other_group j.group group other) r p)

  -- applyGroupToSnapshot from a well-formed heap returns. A waiting job of another group is replaced
  -- by one of the new group, in the heap, which stays well formed with the other jobs, and in the
  -- store; a stored job of another group that neither waits nor runs is changed in the store; in every
  -- other case nothing changes, and false is given.
  pub apply_group_lem :
      (s : Scheduler S) (snap : JobSnapshot) (group : String) (now : ℕ)
      → WellFormed s.heap
      → Returns (Applied s snap group now) (apply_group_to_snapshot env s snap group now)
  unfolding apply_group_to_snapshot
  apply_group_lem s snap group now v =
      Returns-bind (get_lem s.heap v snap.id) λ o g. found_lem s snap group now v o g

  -- One snapshot of RetagGroup: the same ids are in the well-formed heap.
  record OneTagged (s : Scheduler S) (r : Scheduler S × Result Bool) : Type 0 where
    well_formed : WellFormed r.0.heap
    ids : (k : String) → count_id k r.0.heap.items ≡ count_id k s.heap.items
    runs_kept : r.0.cancel_map ≡ s.cancel_map

  one_tagged :
      (s : Scheduler S) (snap : JobSnapshot) (group : String) (now : ℕ)
      → WellFormed s.heap
      → (r : Scheduler S × Result Bool) → Applied s snap group now r
      → OneTagged s r
  unfolding count_id
  one_tagged s snap group now v _ (left_alone why) = record {
    well_formed = v;
    ids = λ k. refl;
    runs_kept = refl;
  }
  one_tagged s snap group now v _ (stored s' a gone idle other same_heap write runs) = record {
    well_formed = subst (λ (g : QuaternaryHeap Job). WellFormed g) (sym same_heap) v;
    ids = λ k. ap (λ (g : QuaternaryHeap Job). count_id k g.items) same_heap;
    runs_kept = runs;
  }
  one_tagged s snap group now v _ (waiting i j y s' a at same other w y_id items write runs) =
      record {
        well_formed = w;
        ids = λ k.
            let total = count_id-perm k items in
            let alike =
              ap (λ (id : String). ite {C = ℕ} (string_discrete id k) 1 0) (y_id ∙ sym same) in
            omega (arith, total, alike);
        runs_kept = runs;
      }

  pub record Retagged (s : Scheduler S) (from_group : String) (l : List JobSnapshot) (n : ℕ)
      (r : Scheduler S × ℕ) : Type 0 where
    pub well_formed : WellFormed r.0.heap
    pub ids : (k : String) → count_id k r.0.heap.items ≡ count_id k s.heap.items
    pub bounded : r.1 ≤ n + hits from_group l
    pub runs_kept : r.0.cancel_map ≡ s.cancel_map

  counted_le : (a : Result Bool) (n : ℕ) → counted a n ≤ n + 1
  counted_le (err e) n = omega arith
  counted_le (ok changed) n = ground arith

  -- The loop of RetagGroup returns from a well-formed heap: the same ids are in the heap, which is well
  -- formed again, no run is touched, and no more jobs are counted than were of the group.
  pub retag_all_lem :
      (s : Scheduler S) (l : List JobSnapshot) (from_group to_group : String) (now n : ℕ)
      → WellFormed s.heap
      → Returns (Retagged s from_group l n) (retag_all env s l from_group to_group now n)
  unfolding retag_all
  retag_all_lem s [] from_group to_group now n v =
      returns (record { well_formed = v; ids = λ k. refl; bounded = omega arith; runs_kept = refl })
  retag_all_lem s (snap ∷ l) from_group to_group now n v =
      Returns-if (not (equal_fold (codes snap.group) (codes from_group)))
        (λ other. Returns-map (retag_all_lem s l from_group to_group now n v) λ r p. record {
          well_formed = p.well_formed;
          ids = p.ids;
          bounded = rw other (omega (arith, p.bounded));
          runs_kept = p.runs_kept;
        })
        (λ same. Returns-bind (apply_group_lem s snap to_group now v) λ r a.
          let one = one_tagged s snap to_group now v r a in
          Returns-map (retag_all_lem r.0 l from_group to_group now (counted r.1 n) one.well_formed)
            λ t p. record {
              well_formed = p.well_formed;
              ids = λ k. p.ids k ∙ one.ids k;
              bounded = rw same (omega (arith, p.bounded, counted_le r.1 n));
              runs_kept = p.runs_kept ∙ one.runs_kept;
            })
