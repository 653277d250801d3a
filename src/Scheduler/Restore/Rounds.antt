-- ===== src/Scheduler/Restore/Rounds.antt =====
-- One round of the loop of Restore.
use godelayq.Prelude.{
  ℕ, ◌≤◌, ◌≡◌, refl, sym, ap, ◌∙◌, inl, inr, Bool, true, false, ◌&&◌, ◌||◌, Option, none, some,
  String, ◌==◌, if◌then◌else◌, ltb, arith, if_pos, if_neg, string_discrete, subst, Returns, returns,
  Returns-bind, Bool-cases,
}
use godelayq.Heap.{QuaternaryHeap}
use godelayq.Heap.Order.{WellFormed}
use godelayq.Heap.Insert.{Pushed, push_item_lem}
use godelayq.Heap.ById.{Absent, Got, got_none, got_some, get_lem}
use godelayq.Heap.Once.{count_id, count_id-perm, count_none, count_some, count_id_le, Absent-lookup}
use godelayq.Job.{Job, JobSnapshot, job_item, is_terminal, status_paused, from_snapshot}
use godelayq.Scheduler.{Env, Scheduler, store_update, publish, stamped}
use godelayq.Scheduler.Restore.{
  ask_restore_guard, restored_job, hold_restored, restore_absent, restore_one,
}
use godelayq.Scheduler.Restore.Revived.{revives, named, Kept, Kept-refl}

module _ {S : Type 0} (env : Env S) where
  -- The two ways a round ends.
  pub data Round (s : Scheduler S) (snap : JobSnapshot) : Scheduler S → Type 0 where
    same_heap :
        (s' : Scheduler S)
        → s'.heap ≡ s.heap
        → ((k : String)
            → revives s.restore_guard snap && named k snap ≡ true
            → 1 ≤ count_id k s.heap.items)
        → Kept s s'
        → Round s snap s'
    pushed :
        (h : QuaternaryHeap Job)
        → revives s.restore_guard snap ≡ true
        → Absent s.heap snap.id
        → Pushed s.heap (restored_job s snap) h
        → Round s snap (record s { heap = h })

  hold_restored-Kept :
      (s : Scheduler S) (j : Job) (n now : ℕ)
      → ((hold_restored env s j n now).heap ≡ s.heap) × Kept s (hold_restored env s j n now)
  unfolding hold_restored store_update publish
  hold_restored-Kept s j n now = elim (Bool-cases (n == status_paused)) [
    | inl p ↦ rw p (
      refl,
      record {
        guard = refl;
        classes = refl;
        work = refl;
        exec = refl;
        runs = refl;
        told = refl;
        workers = (refl, refl);
        switches = (refl, refl, refl);
      },
    )
    | inr p ↦ rw p (
      refl,
      record {
        guard = refl;
        classes = refl;
        work = refl;
        exec = refl;
        runs = refl;
        told = refl;
        workers = (refl, refl);
        switches = (refl, refl, refl);
      },
    )
  ]

  named_id : (k : String) (snap : JobSnapshot) → named k snap ≡ true → snap.id ≡ k
  named_id k snap e = elim (string_discrete snap.id k) [
    | yes same ↦ same
    | no other ↦ let f = if_neg (string_discrete snap.id k) other true false in absurd (cc)
  ]

  absent_lem :
      (s : Scheduler S) (snap : JobSnapshot) (now : ℕ)
      → WellFormed s.heap
      → Absent s.heap snap.id
      → (is_terminal snap.status || snap.status == status_paused) ≡ false
      → Returns (Round s snap) (restore_absent env s snap now)
  unfolding restore_absent restored_job from_snapshot stamped
  absent_lem s snap now v gone live = elim (Bool-cases (ask_restore_guard s.restore_guard snap).1) [
    | inl held ↦ rw held (
        let (heap, kept) =
          hold_restored-Kept s (restored_job s snap) (ask_restore_guard s.restore_guard snap).0
            now in
        returns (same_heap _ heap (λ k r. absurd (ground arith)) kept))
    | inr free ↦ rw free (
        Returns-bind
          (push_item_lem s.heap (restored_job s snap) v (Absent-lookup snap.id s.heap v gone))
          λ h p. returns (pushed h (ground arith) gone p))
  ]

  found_lem :
      (s : Scheduler S) (snap : JobSnapshot) (now : ℕ)
      → WellFormed s.heap
      → (is_terminal snap.status || snap.status == status_paused) ≡ false
      → (o : Option Job) → Got s.heap snap.id o
      → Returns (Round s snap) (elim o [ some _ ↦ some s | none ↦ restore_absent env s snap now ])
  found_lem s snap now v live _ (got_none gone) = absent_lem s snap now v gone live
  found_lem s snap now v live _ (got_some i x at same) = returns (
      same_heap s refl
        (λ k r. count_some k s.heap.items i x at (same ∙ named_id k snap (ground arith)))
        (Kept-refl s))

  pub round_lem :
      (s : Scheduler S) (snap : JobSnapshot) (now : ℕ)
      → WellFormed s.heap
      → Returns (Round s snap) (restore_one env s snap now)
  unfolding restore_one
  round_lem s snap now v =
      elim (Bool-cases (is_terminal snap.status || snap.status == status_paused)) [
        | inl skip ↦
            rw skip (returns (same_heap s refl (λ k r. absurd (ground arith)) (Kept-refl s)))
        | inr live ↦
            rw live (Returns-bind (get_lem s.heap v snap.id) λ o g. found_lem s snap now v live o g)
      ]

  pub Round-WellFormed :
      (s : Scheduler S) (snap : JobSnapshot) (s' : Scheduler S)
      → WellFormed s.heap
      → Round s snap s'
      → WellFormed s'.heap
  Round-WellFormed s snap s' v (same_heap _ e ids kept) = subst WellFormed (sym e) v
  Round-WellFormed s snap _ v (pushed h r gone p) = p.well_formed

  pub Round-Kept :
      (s : Scheduler S) (snap : JobSnapshot) (s' : Scheduler S) → Round s snap s' → Kept s s'
  Round-Kept s snap s' (same_heap _ e ids kept) = kept
  Round-Kept s snap _ (pushed h r gone p) = record {
    guard = refl;
    classes = refl;
    work = refl;
    exec = refl;
    runs = refl;
    told = refl;
    workers = (refl, refl);
    switches = (refl, refl, refl);
  }

  now_in : (a c : ℕ) (b : Bool) → 1 ≤ c → c ≤ 1 → b ≡ true → c ≡ (if ltb 0 a || b then 1 else 0)
  now_in a c b p q e = ground arith

  pub as_before :
      (a c : ℕ) (b : Bool) → a ≤ 1 → b ≡ false → c ≡ a → c ≡ (if ltb 0 a || b then 1 else 0)
  as_before a c b p e q = ground arith

  pub Round-count :
      (s : Scheduler S) (snap : JobSnapshot) (s' : Scheduler S) (k : String)
      → WellFormed s.heap
      → Round s snap s'
      → count_id k s'.heap.items ≡ (
          if ltb 0 (count_id k s.heap.items) || revives s.restore_guard snap && named k snap
          then 1
          else 0)
  unfolding count_id restored_job from_snapshot stamped
  Round-count s snap s' k v (same_heap _ e ids kept) =
      let few = count_id_le k s.heap v in
      let same = ap (λ (h : QuaternaryHeap Job). count_id k h.items) e in
      elim (Bool-cases (revives s.restore_guard snap && named k snap)) [
        | inl r ↦
            let many = ids k r in
            now_in _ _ _ (omega (arith, many, same)) (omega (arith, few, same)) r
        | inr r ↦ as_before _ _ _ few r same
      ]
  Round-count s snap _ k v (pushed h r gone p) =
      let few = count_id_le k s.heap v in
      let same = count_id-perm k p.items in
      elim (string_discrete snap.id k) [
        | yes is ↦
            let zero_count = count_none k s.heap.items (λ i y at q. gone i y at (q ∙ sym is)) in
            let first = if_pos {C = ℕ} (string_discrete snap.id k) is 1 0 in
            now_in (count_id k s.heap.items) _ (revives s.restore_guard snap && named k snap)
              (omega (arith, same, first, zero_count)) (omega (arith, same, first, zero_count))
              (rw (r, if_pos {C = Bool} (string_discrete snap.id k) is true false) refl)
        | no other ↦
            let first = if_neg {C = ℕ} (string_discrete snap.id k) other 1 0 in
            as_before (count_id k s.heap.items) _ (revives s.restore_guard snap && named k snap) few
              (rw (r, if_neg {C = Bool} (string_discrete snap.id k) other true false) refl)
              (omega (arith, same, first))
      ]
