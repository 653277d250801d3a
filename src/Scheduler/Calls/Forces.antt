-- ===== src/Scheduler/Calls/Forces.antt =====
-- What ForcePause does with a job that is waiting, running or neither.
use godelayq.Prelude.{
  ℕ, ◌≡◌, refl, inl, inr, ◌∷◌, true, Option, none, some, String, Returns, returns, Returns-bind,
  Option-cases,
}
use godelayq.Dict
use godelayq.Heap.{QuaternaryHeap}
use godelayq.Heap.Order.{WellFormed}
use godelayq.Heap.ById.{Absent, RemovedBy, removed_none, removed_some, remove_lem}
use godelayq.Job.{Job, JobSnapshot, job_item, to_snapshot, from_snapshot, status_paused}
use godelayq.Scheduler.{
  Env, Scheduler, Result, ok, err, job_not_found, on_store, publish, notify_new_job, store_update,
  cancel_context, find_snapshot,
}
use godelayq.Scheduler.Calls.{
  paused_job, pause_pending_job, or_not_pending, force_pause_running, force_pause_absent,
  force_pause,
}
use godelayq.Scheduler.Calls.Pauses.{Pauses, pause_lem}

module _ {S : Type 0} (env : Env S) where
  -- The flag is set and the run is told to stop; what is queued or waits is left alone.
  pub record Forced (s : Scheduler S) (id : String) (c : ℕ) (s' : Scheduler S) : Type 0 where
    pub flag : Dict.lookup id s'.forced_pause ≡ some tt
    pub stopped : s'.cancelled ≡ c ∷ s.cancelled
    pub heap_kept : s'.heap ≡ s.heap
    pub runs_kept : s'.cancel_map ≡ s.cancel_map
    pub work_kept : s'.work_ch ≡ s.work_ch
    pub exec_kept : s'.exec_ch ≡ s.exec_ch

  pub data Forces (s : Scheduler S) (id : String) (now : ℕ)
      : Scheduler S × Result Job → Type 0 where
    was_waiting :
        (j : Job) (h : QuaternaryHeap Job) (s' : Scheduler S)
        → RemovedBy s.heap id (some j, h)
        → s'.heap ≡ h
        → s'.store
          ≡ on_store (env.store_ops.update now (to_snapshot (paused_job env j now))) s.store
        → s'.forced_pause ≡ s.forced_pause
        → Forces s id now (s', ok (paused_job env j now))
    was_running :
        (c : ℕ) (j : Job) (s' : Scheduler S)
        → Absent s.heap id
        → Dict.lookup id s.cancel_map ≡ some c
        → Forced s id c s'
        → j.status ≡ status_paused
        → Forces s id now (s', ok j)
    was_stored :
        (snap : JobSnapshot) (r : Scheduler S × Result Job)
        → Absent s.heap id
        → Dict.lookup id s.cancel_map ≡ none
        → find_snapshot env s id ≡ some snap
        → Pauses env s id now r
        → Forces s id now (or_not_pending env r)
    was_unknown :
        Absent s.heap id
        → Dict.lookup id s.cancel_map ≡ none
        → find_snapshot env s id ≡ none
        → Forces s id now (s, err job_not_found)

  running_lem :
      (s : Scheduler S) (id : String) (c now : ℕ)
      → Absent s.heap id
      → Dict.lookup id s.cancel_map ≡ some c
      → Forces s id now (force_pause_running env s id c now)
  unfolding force_pause_running cancel_context store_update from_snapshot
  running_lem s id c now gone runs =
      let s1 : Scheduler S = record s { forced_pause = Dict.insert id tt s.forced_pause } in
      let flag = Dict.lookup-insert_self id tt s.forced_pause in
      elim (Option-cases (find_snapshot env s1 id)) [
        | inl missing ↦
            rw (missing, force_pause_running)
              (was_running c _ _ gone runs
                (record {
                  flag = flag;
                  stopped = refl;
                  heap_kept = refl;
                  runs_kept = refl;
                  work_kept = refl;
                  exec_kept = refl;
                })
                refl)
        | inr (snap, stored) ↦
            rw (stored, force_pause_running)
              (was_running c _ _ gone runs
                (record {
                  flag = flag;
                  stopped = refl;
                  heap_kept = refl;
                  runs_kept = refl;
                  work_kept = refl;
                  exec_kept = refl;
                })
                refl)
      ]

  absent_lem :
      (s : Scheduler S) (id : String) (now : ℕ)
      → WellFormed s.heap
      → Absent s.heap id
      → Returns (Forces s id now) (force_pause_absent env s id now)
  unfolding force_pause_absent
  absent_lem s id now v gone = elim (Option-cases (Dict.lookup id s.cancel_map)) [
    | inr (c, runs) ↦ rw (runs, force_pause_absent) (returns (running_lem s id c now gone runs))
    | inl idle ↦
        rw (idle, force_pause_absent)
          (elim (Option-cases (find_snapshot env s id)) [
            | inl missing ↦
                rw (missing, force_pause_absent) (returns (was_unknown gone idle missing))
            | inr (snap, stored) ↦
                rw (stored, force_pause_absent)
                  (Returns-bind (pause_lem env s id now v)
                    λ r p. returns (was_stored snap r gone idle stored p))
          ])
  ]

  force_after :
      (s : Scheduler S) (id : String) (now : ℕ)
      → (r : Option Job × QuaternaryHeap Job) → WellFormed s.heap
      → RemovedBy s.heap id r
      → Returns (Forces s id now) (elim r.0 [
        | some j ↦ some (pause_pending_job env (record s { heap = r.1 }) j true now)
        | none ↦ force_pause_absent env (record s { heap = r.1 }) id now
      ])
  unfolding pause_pending_job store_update publish notify_new_job
  force_after s id now _ v (removed_none gone) = absent_lem s id now v gone
  force_after s id now _ v (removed_some x r taken same) =
      returns (was_waiting r.0 r.1 _ (removed_some x r taken same) refl refl refl)

  -- ForcePause with a well-formed heap returns. A waiting job leaves the heap, which stays well
  -- formed with the other jobs, and its paused snapshot is written. For a running job the flag is
  -- set and its context is cancelled, and the heap, the queues and the runs are left alone. For any
  -- other stored job the result is that of Pause, its errors reported as not pending, and an
  -- unknown id is refused with nothing changed.
  pub force_pause_lem :
      (s : Scheduler S) (id : String) (now : ℕ)
      → WellFormed s.heap
      → Returns (Forces s id now) (force_pause env s id now)
  unfolding force_pause
  force_pause_lem s id now v =
      Returns-bind (remove_lem s.heap v id) λ r p. force_after s id now r v p
