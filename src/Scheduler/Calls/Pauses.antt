-- ===== src/Scheduler/Calls/Pauses.antt =====
-- What Pause does with a job that is waiting, running, paused or unknown.
use godelayq.Prelude.{
  ℕ, ◌≡◌, refl, ◌⊎◌, inl, inr, true, false, Option, none, some, String, ◌==◌, Returns, returns,
  Returns-bind, Bool-cases, Option-cases,
}
use godelayq.Heap.{QuaternaryHeap}
use godelayq.Heap.Order.{WellFormed}
use godelayq.Heap.ById.{Absent, RemovedBy, removed_none, removed_some, remove_lem}
use godelayq.Job.{Job, JobSnapshot, job_item, zero_job, from_snapshot, to_snapshot, status_paused}
use godelayq.Scheduler.{
  Env, Scheduler, Result, ok, err, job_not_found, job_not_pending, on_store, publish,
  notify_new_job, store_update, is_running, find_snapshot,
}
use godelayq.Scheduler.Calls.{paused_job, pause_pending_job, pause_absent, pause}

module _ {S : Type 0} (env : Env S) where
  -- No stored snapshot has the id and the status paused.
  abbrev pub NotPaused : Scheduler S → String → Type 0
  NotPaused s id =
      (find_snapshot env s id ≡ none)
      ⊎ ((snap : JobSnapshot) × (find_snapshot env s id ≡ some snap)
          × ((snap.status == status_paused) ≡ false))

  -- A waiting job leaves the heap, its paused snapshot is written, and the loop is woken. In every
  -- other case nothing changes: a running job is refused, a paused one is given, and any other id
  -- is unknown.
  pub data Pauses (s : Scheduler S) (id : String) (now : ℕ)
      : Scheduler S × Result Job → Type 0 where
    was_waiting :
        (j : Job) (h : QuaternaryHeap Job) (s' : Scheduler S)
        → RemovedBy s.heap id (some j, h)
        → s'.heap ≡ h
        → s'.store
          ≡ on_store (env.store_ops.update now (to_snapshot (paused_job env j now))) s.store
        → s'.new_job_ch ≡ true
        → s'.cancel_map ≡ s.cancel_map
        → s'.cancelled ≡ s.cancelled
        → s'.forced_pause ≡ s.forced_pause
        → Pauses s id now (s', ok (paused_job env j now))
    was_running :
        Absent s.heap id → is_running s id ≡ true → Pauses s id now (s, err job_not_pending)
    was_paused :
        (snap : JobSnapshot)
        → Absent s.heap id
        → is_running s id ≡ false
        → find_snapshot env s id ≡ some snap
        → (snap.status == status_paused) ≡ true
        → Pauses s id now (s, ok (from_snapshot zero_job snap))
    was_unknown :
        Absent s.heap id
        → is_running s id ≡ false
        → NotPaused s id
        → Pauses s id now (s, err job_not_found)

  absent_lem :
      (s : Scheduler S) (id : String) (now : ℕ)
      → Absent s.heap id
      → Pauses s id now (pause_absent env s id)
  unfolding pause_absent
  absent_lem s id now gone = elim (Bool-cases (is_running s id)) [
    | inl runs ↦ rw runs (was_running gone runs)
    | inr idle ↦ rw idle (elim (Option-cases (find_snapshot env s id)) [
      | inl missing ↦ rw (missing, pause_absent) (was_unknown gone idle (inl missing))
      | inr (snap, stored) ↦
          rw (stored, pause_absent)
            (elim (Bool-cases (snap.status == status_paused)) [
              | inl is ↦ rw is (was_paused snap gone idle stored is)
              | inr other ↦ rw other (was_unknown gone idle (inr (snap, stored, other)))
            ])
    ])
  ]

  pause_after :
      (s : Scheduler S) (id : String) (now : ℕ)
      → (r : Option Job × QuaternaryHeap Job) → RemovedBy s.heap id r
      → Pauses s id now (elim r.0 [
        | some j ↦ pause_pending_job env (record s { heap = r.1 }) j false now
        | none ↦ pause_absent env (record s { heap = r.1 }) id
      ])
  unfolding pause_pending_job store_update publish notify_new_job
  pause_after s id now _ (removed_none gone) = absent_lem s id now gone
  pause_after s id now _ (removed_some x r taken same) =
      was_waiting r.0 r.1 _ (removed_some x r taken same) refl refl refl refl refl refl

  -- Pause with a well-formed heap returns. A waiting job leaves the heap, which stays well formed
  -- with the other jobs, its paused snapshot is written, and the loop is woken. In every other case
  -- the scheduler is left as it was: a running job is refused, the stored job of a paused one is
  -- given, and any other id is unknown.
  pub pause_lem :
      (s : Scheduler S) (id : String) (now : ℕ)
      → WellFormed s.heap
      → Returns (Pauses s id now) (pause env s id now)
  unfolding pause
  pause_lem s id now v =
      Returns-bind (remove_lem s.heap v id) λ r p. returns (pause_after s id now r p)
