-- ===== src/Scheduler/Execute/Parking.antt =====
-- How a run ends whose job was force-paused meanwhile.
use godelayq.Prelude.{
  ℕ, ◌≡◌, refl, true, none, some, String, Returns, returns, Returns-map, Returns-if, Returns-bind,
  ◌||◌, Option-cases, inl, inr,
}
use godelayq.Dict
use godelayq.Job.{Job, status_paused, to_snapshot, job_item}
use godelayq.Scheduler.{Env, Scheduler, Event, publish, store_update, on_store}
use godelayq.Scheduler.Execute.{
  mem_context, Execution, HandlerResult, Failure, with_status, take_forced_pause, park_forced_pause,
  handle_success, handle_failure, handle_interrupted, settle, release, finish,
}

module _ {S : Type 0} (env : Env S) where
  -- The run is over: nothing was scheduled, the flag is used up, and the store was told of the
  -- pause and of nothing else.
  pub record Parked (s : Scheduler S) (j : Job) (now : ℕ) (s' : Scheduler S) : Type 0 where
    pub heap_kept : s'.heap ≡ s.heap
    pub work_kept : s'.work_ch ≡ s.work_ch
    pub exec_kept : s'.exec_ch ≡ s.exec_ch
    pub flag_used : Dict.lookup j.id s'.forced_pause ≡ none
    pub stored :
        s'.store
        ≡ on_store
            (env.store_ops.update now (to_snapshot (with_status j status_paused now)))
            s.store

  park_lem :
      (s : Scheduler S) (j : Job) (note : String) (now : ℕ)
      → Dict.lookup j.id s.forced_pause ≡ some tt
      → ((park_forced_pause env s j note now).0 ≡ true)
        × Parked s j now (park_forced_pause env s j note now).1
  unfolding park_forced_pause take_forced_pause store_update publish
  park_lem s j note now e =
      rw (e, take_forced_pause)
        (
          refl,
          record {
            heap_kept = refl;
            work_kept = refl;
            exec_kept = refl;
            flag_used = Dict.lookup-delete_self j.id s.forced_pause;
            stored = refl;
          },
        )

  -- The three ways out of a run all park the job first.
  success-Parked :
      (s : Scheduler S) (j : Job) (now : ℕ) (fresh : String)
      → Dict.lookup j.id s.forced_pause ≡ some tt
      → Returns (Parked s j now) (handle_success env s j now fresh)
  unfolding handle_success
  success-Parked s j now fresh e =
      let (wanted, v) = park_lem s j "handler_completed_despite_cancel" now e in
      rw wanted (returns v)

  failure-Parked :
      (s : Scheduler S) (j : Job) (f : Failure) (now : ℕ) (fresh : String)
      → Dict.lookup j.id s.forced_pause ≡ some tt
      → Returns (Parked s j now) (handle_failure env s j f now fresh)
  unfolding handle_failure
  failure-Parked s j f now fresh e =
      let (wanted, v) = park_lem s j "handler_failed_despite_cancel" now e in rw wanted (returns v)

  interrupted-Parked :
      (s : Scheduler S) (j : Job) (now : ℕ)
      → Dict.lookup j.id s.forced_pause ≡ some tt
      → Parked s j now (handle_interrupted env s j now)
  unfolding handle_interrupted
  interrupted-Parked s j now e = let (wanted, v) = park_lem s j "interrupted" now e in rw wanted v

  Parked-publish :
      (s s' : Scheduler S) (j : Job) (now : ℕ) (event : Event)
      → Parked (publish s event) j now s'
      → Parked s j now s'
  unfolding publish
  Parked-publish s s' j now event v = record {
    heap_kept = v.heap_kept;
    work_kept = v.work_kept;
    exec_kept = v.exec_kept;
    flag_used = v.flag_used;
    stored = v.stored;
  }

  flag_published :
      (s : Scheduler S) (id : String) (event : Event)
      → Dict.lookup id s.forced_pause ≡ some tt
      → Dict.lookup id (publish s event).forced_pause ≡ some tt
  unfolding publish
  flag_published s id event h = h

  settle-Parked :
      (s : Scheduler S) (e : Execution) (j : Job) (r : HandlerResult) (now : ℕ) (fresh : String)
      → Dict.lookup j.id s.forced_pause ≡ some tt
      → Returns (Parked s j now) (settle env s e j r now fresh)
  unfolding settle
  settle-Parked s e j r now fresh h = elim (Option-cases r.failed) [
    | inl done ↦
        rw (done, settle)
          (Returns-map (success-Parked (publish s _) j now fresh (flag_published s j.id _ h))
            λ s' v. Parked-publish s s' j now _ v)
    | inr (f, bad) ↦
        rw (bad, settle)
          (Returns-if (f.canceled || mem_context e.context s.cancelled)
            (λ stopped. returns (interrupted-Parked s j now h))
            λ failed.
              Returns-map (failure-Parked (publish s _) j f now fresh (flag_published s j.id _ h))
                λ s' v. Parked-publish s s' j now _ v)
  ]

  release-Parked :
      (s s' : Scheduler S) (j : Job) (e : Execution) (now : ℕ)
      → Parked s j now s'
      → Parked s j now (release s' e)
  unfolding release
  release-Parked s s' j e now v = record {
    heap_kept = v.heap_kept;
    work_kept = v.work_kept;
    exec_kept = v.exec_kept;
    flag_used = v.flag_used;
    stored = v.stored;
  }

  -- A run whose job was force-paused while its handler was running returns, whatever the handler
  -- returns: nothing is put into the heap or the queues, the flag is used up, and the store gets the
  -- paused snapshot and nothing else.
  pub finish-Parked :
      (s : Scheduler S) (e : Execution) (r : HandlerResult) (now : ℕ) (fresh : String)
      → Dict.lookup e.job.id s.forced_pause ≡ some tt
      → Returns (Parked s (record e.job { exec = r.exec }) now) (finish env s e r now fresh)
  unfolding finish
  finish-Parked s e r now fresh h =
      Returns-bind (settle-Parked s e (record e.job { exec = r.exec }) r now fresh h)
        λ s' v. returns (release-Parked s s' _ e now v)
