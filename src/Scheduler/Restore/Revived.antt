-- ===== src/Scheduler/Restore/Revived.antt =====
-- Which jobs Restore brings back.
use godelayq.Prelude.{
  ◌≡◌, refl, List, [], ◌∷◌, ◌++◌, Bool, true, false, not, ◌&&◌, ◌||◌, Option, String, Perm, ◌==◌,
  if◌then◌else◌, ltb, ite, string_discrete,
}
use godelayq.Heap.Order.{WellFormed}
use godelayq.Heap.Once.{count_id}
use godelayq.Job.{
  Job, JobSnapshot, job_item, is_terminal, status_paused, status_pending, to_snapshot, handler_key,
}
use godelayq.Scheduler.{Scheduler, RestoreGuard, class_of_key}
use godelayq.Scheduler.Restore.{ask_restore_guard}

-- The snapshot is of a job that is neither finished nor paused, and the guard does not hold it back.
abbrev pub revives : Option RestoreGuard → JobSnapshot → Bool
revives g snap =
    not (is_terminal snap.status || snap.status == status_paused)
    && not (ask_restore_guard g snap).1

abbrev pub named : String → JobSnapshot → Bool
named k snap = ite (string_discrete snap.id k) true false

-- A snapshot that revives has the id.
abbrev pub revived : Option RestoreGuard → String → List JobSnapshot → Bool
revived g k [] = false
revived g k (snap ∷ l) = revives g snap && named k snap || revived g k l

module _ {S : Type 0} where
  -- The job has what the snapshot has, but is pending, in the class that its handler key has.
  pub record Brought (s : Scheduler S) (snap : JobSnapshot) (j : Job) : Type 0 where
    pub content : to_snapshot j ≡ record snap { status = status_pending }
    pub job_class : j.job_class ≡ class_of_key s (handler_key j)

  -- The jobs that were made of some of the snapshots, each of which revives, in their order.
  pub data Chosen (s : Scheduler S) : List JobSnapshot → List Job → Type 0 where
    no_more : Chosen s [] []
    passed :
        (snap : JobSnapshot) (l : List JobSnapshot) (js : List Job)
        → Chosen s l js
        → Chosen s (snap ∷ l) js
    taken :
        (snap : JobSnapshot) (l : List JobSnapshot) (j : Job) (js : List Job)
        → revives s.restore_guard snap ≡ true
        → Brought s snap j
        → Chosen s l js
        → Chosen s (snap ∷ l) (j ∷ js)

  -- What Restore leaves alone.
  pub record Kept (s s' : Scheduler S) : Type 0 where
    pub guard : s'.restore_guard ≡ s.restore_guard
    pub classes : s'.handler_classes ≡ s.handler_classes
    pub work : s'.work_ch ≡ s.work_ch
    pub exec : s'.exec_ch ≡ s.exec_ch
    pub runs : s'.cancel_map ≡ s.cancel_map
    pub told : s'.cancelled ≡ s.cancelled
    pub workers : (s'.target_workers ≡ s.target_workers) × (s'.retire_requests ≡ s.retire_requests)
    pub switches :
        (s'.running ≡ s.running) × (s'.stopping ≡ s.stopping) × (s'.suspended ≡ s.suspended)

  pub Kept-refl : (s : Scheduler S) → Kept s s
  Kept-refl s = record {
    guard = refl;
    classes = refl;
    work = refl;
    exec = refl;
    runs = refl;
    told = refl;
    workers = (refl, refl);
    switches = (refl, refl, refl);
  }

  -- The heap is well formed and holds, besides the jobs of before, new ones, each pending and made of
  -- a snapshot that revives. An id is in it, once, exactly if it was or a snapshot with it revives.
  pub record Restored (s : Scheduler S) (l : List JobSnapshot) (s' : Scheduler S) : Type 0 where
    pub well_formed : WellFormed s'.heap
    pub news : List Job
    pub chosen : Chosen s l news
    pub items : Perm s'.heap.items (news ++ s.heap.items)
    pub ids :
        (k : String)
        → count_id k s'.heap.items
          ≡ (if ltb 0 (count_id k s.heap.items) || revived s.restore_guard k l then 1 else 0)
    pub kept : Kept s s'
