-- ===== src/Scheduler/Calls/Cancels.antt =====
-- What Cancel does with a job that is waiting, running, paused or unknown.
use godelayq.Prelude.{
  ℕ, ◌≡◌, refl, inl, inr, List, ◌∷◌, Bool, true, Option, none, some, String, ◌==◌, if◌then◌else◌,
  Returns, returns, Returns-bind, Bool-cases, Option-cases,
}
use godelayq.Dict
use godelayq.Heap.{QuaternaryHeap}
use godelayq.Heap.Order.{WellFormed}
use godelayq.Heap.ById.{Absent, RemovedBy, removed_none, removed_some, remove_lem}
use godelayq.Job.{Job, JobSnapshot, job_item, status_paused}
use godelayq.Scheduler.{
  Env, Scheduler, Result, ok, err, job_not_found, on_store, publish, store_delete, cancel_context,
  cancel_running, find_snapshot,
}
use godelayq.Scheduler.Calls.{cancel_found, cancel_paused, cancel}
use godelayq.Scheduler.Calls.Pauses.{NotPaused}

module _ {S : Type 0} (env : Env S) where
  -- The contexts that are cancelled once the run of `id`, if there is one, was told to stop.
  abbrev pub stopped_with : Option ℕ → List ℕ → List ℕ
  stopped_with none l = l
  stopped_with (some c) l = c ∷ l

  -- The stored job is deleted, a run is told to stop, and no queue or run is touched.
  pub record Cancelled (s : Scheduler S) (id : String) (s' : Scheduler S) : Type 0 where
    pub deleted : s'.store ≡ on_store (env.store_ops.delete id) s.store
    pub stopped : s'.cancelled ≡ stopped_with (Dict.lookup id s.cancel_map) s.cancelled
    pub runs_kept : s'.cancel_map ≡ s.cancel_map
    pub work_kept : s'.work_ch ≡ s.work_ch
    pub exec_kept : s'.exec_ch ≡ s.exec_ch

  pub data Cancels (s : Scheduler S) (id : String) : Scheduler S × Result (Unit {0}) → Type 0 where
    was_waiting :
        (j : Job) (h : QuaternaryHeap Job) (s' : Scheduler S)
        → RemovedBy s.heap id (some j, h)
        → s'.heap ≡ h
        → Cancelled s id s'
        → Cancels s id (s', ok tt)
    was_running :
        (c : ℕ) (s' : Scheduler S)
        → Absent s.heap id
        → Dict.lookup id s.cancel_map ≡ some c
        → s'.heap ≡ s.heap
        → Cancelled s id s'
        → Cancels s id (s', ok tt)
    was_paused :
        (snap : JobSnapshot) (s' : Scheduler S)
        → Absent s.heap id
        → Dict.lookup id s.cancel_map ≡ none
        → find_snapshot env s id ≡ some snap
        → (snap.status == status_paused) ≡ true
        → s'.heap ≡ s.heap
        → Cancelled s id s'
        → Cancels s id (s', ok tt)
    was_unknown :
        Absent s.heap id
        → Dict.lookup id s.cancel_map ≡ none
        → NotPaused env s id
        → Cancels s id (s, err job_not_found)

  idle_lem :
      (s : Scheduler S) (id : String) (now : ℕ)
      → Absent s.heap id
      → Dict.lookup id s.cancel_map ≡ none
      → Cancels s id (cancel_paused env s id now)
  unfolding cancel_paused store_delete publish
  idle_lem s id now gone idle = elim (Option-cases (find_snapshot env s id)) [
    | inl missing ↦ rw (missing, cancel_paused) (was_unknown gone idle (inl missing))
    | inr (snap, stored) ↦
        rw (stored, cancel_paused)
          (elim (Bool-cases (snap.status == status_paused)) [
            | inl is ↦ rw is (
                was_paused snap _ gone idle stored is refl (record {
                  deleted = refl;
                  stopped = rw idle refl;
                  runs_kept = refl;
                  work_kept = refl;
                  exec_kept = refl;
                }))
            | inr other ↦ rw other (was_unknown gone idle (inr (snap, stored, other)))
          ])
  ]

  -- What follows the look at the heap.
  abbrev after : Option Job → Bool × Scheduler S → String → ℕ → Scheduler S × Result (Unit {0})
  after removed (stopped, s2) id now = elim removed [
    | some _ ↦ cancel_found env s2 id now
    | none ↦ if stopped then cancel_found env s2 id now else cancel_paused env s2 id now
  ]

  cancel_after :
      (s : Scheduler S) (id : String) (now : ℕ)
      → (r : Option Job × QuaternaryHeap Job) → RemovedBy s.heap id r
      → Cancels s id (after r.0 (cancel_running (record s { heap = r.1 }) id) id now)
  unfolding cancel_running cancel_context cancel_found store_delete publish
  cancel_after s id now _ (removed_none gone) = elim (Option-cases (Dict.lookup id s.cancel_map)) [
    | inl idle ↦ rw (idle, cancel_running) (idle_lem s id now gone idle)
    | inr (c, runs) ↦
        rw (runs, cancel_running)
          (was_running c _ gone runs refl (record {
            deleted = refl;
            stopped = rw runs refl;
            runs_kept = refl;
            work_kept = refl;
            exec_kept = refl;
          }))
  ]
  cancel_after s id now _ (removed_some x r taken same) =
      elim (Option-cases (Dict.lookup id s.cancel_map)) [
        | inl idle ↦
            rw (idle, cancel_running)
              (was_waiting r.0 r.1 _ (removed_some x r taken same) refl (record {
                deleted = refl;
                stopped = rw idle refl;
                runs_kept = refl;
                work_kept = refl;
                exec_kept = refl;
              }))
        | inr (c, runs) ↦
            rw (runs, cancel_running)
              (was_waiting r.0 r.1 _ (removed_some x r taken same) refl (record {
                deleted = refl;
                stopped = rw runs refl;
                runs_kept = refl;
                work_kept = refl;
                exec_kept = refl;
              }))
      ]

  -- Cancel with a well-formed heap returns. An id that is waiting, running or stored as paused is
  -- deleted from the store, taken out of the heap, which stays well formed with the other jobs, and
  -- its run is told to stop; the queues and the other runs are left alone. Any other id is unknown,
  -- and the scheduler is left as it was.
  pub cancel_lem :
      (s : Scheduler S) (id : String) (now : ℕ)
      → WellFormed s.heap
      → Returns (Cancels s id) (cancel env s id now)
  unfolding cancel
  cancel_lem s id now v =
      Returns-bind (remove_lem s.heap v id) λ r p. returns (cancel_after s id now r p)
