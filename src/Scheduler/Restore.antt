-- ===== src/Scheduler/Restore.antt =====
-- SetRestoreGuard, Restore, askRestoreGuard and holdRestored of core/scheduler.go. The guard is asked
-- without the lock; it is a function of the snapshot.
pub mod Revived
pub mod Rounds
pub mod Ends
use godelayq.Prelude.{
  ℕ, List, [], ◌∷◌, Bool, true, false, ◌||◌, Option, none, some, ◌==◌, if◌then◌else◌, ◌>>=◌,
}
use godelayq.Heap
use godelayq.Job.{
  Job, JobStatus, JobSnapshot, is_terminal, status_paused, status_pending, from_snapshot,
  to_snapshot, zero_job, job_item,
}
use godelayq.Scheduler.{
  Env, Scheduler, RestoreGuard, Result, ok, err, store_error, job_paused, restored, plain_event,
  publish, stamped, store_update,
}

-- The guard that panics is a guard that lets the job pass.
unfoldable pub ask_restore_guard : Option RestoreGuard → JobSnapshot → JobStatus × Bool
ask_restore_guard none snap = (0, false)
ask_restore_guard (some guard) snap = elim (guard snap) [ none ↦ (0, false) | some answer ↦ answer ]

module _ {S : Type 0} where
  unfoldable pub set_restore_guard : Scheduler S → Option RestoreGuard → Scheduler S
  set_restore_guard s g = if s.running then s else record s { restore_guard = g }

  unfoldable pub restored_job : Scheduler S → JobSnapshot → Job
  restored_job s snap = stamped s (record (from_snapshot zero_job snap) { status = status_pending })

module _ {S : Type 0} (env : Env S) where
  unfoldable pub hold_restored : Scheduler S → Job → JobStatus → ℕ → Scheduler S
  hold_restored s j new_status now =
      let j' : Job = record j { status = new_status; updated_at = now } in
      let saved = store_update env s now (to_snapshot j') in
      if new_status == status_paused
      then publish saved
          (plain_event job_paused j' status_paused now (restored j'.trigger_at j'.attempts))
      else saved

  -- A job that is not in the heap yet.
  unfoldable pub restore_absent : Scheduler S → JobSnapshot → ℕ → Option (Scheduler S)
  restore_absent s snap now =
      let (new_status, hold) = ask_restore_guard s.restore_guard snap in
      if hold
      then some (hold_restored s (restored_job s snap) new_status now)
      else (Heap.push_item s.heap (restored_job s snap) >>= λ h. some (record s { heap = h }))

  -- One round of the loop of Restore.
  unfoldable pub restore_one : Scheduler S → JobSnapshot → ℕ → Option (Scheduler S)
  restore_one s snap now =
      if is_terminal snap.status || snap.status == status_paused
      then some s
      else (Heap.get s.heap snap.id >>= λ found. elim found [
        | some _ ↦ some s
        | none ↦ restore_absent s snap now
      ])

  unfoldable pub restore_all : Scheduler S → List JobSnapshot → ℕ → Option (Scheduler S)
  restore_all s [] now = some s
  restore_all s (snap ∷ snapshots) now =
      restore_one s snap now >>= λ s1. restore_all s1 snapshots now

  unfoldable pub restore : Scheduler S → ℕ → Option (Scheduler S × Result (Unit {0}))
  restore s now = elim s.store [
    | none ↦ some (s, ok tt)
    | some st ↦ elim (env.store_ops.load_all st) [
      | none ↦ some (s, err store_error)
      | some snapshots ↦ restore_all s snapshots now >>= λ s1. some (s1, ok tt)
    ]
  ]
