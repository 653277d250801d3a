-- ===== src/Scheduler/Calls.antt =====
-- Cancel, Pause, Resume, ForcePause, UpdatePending, Suspend and Unsuspend of core/scheduler.go.
pub mod Pauses
pub mod Cancels
pub mod Forces
pub mod Updates
pub mod Resumes
pub mod RoundTrip
mod Tests
use godelayq.Prelude.{ℕ, Bool, true, false, Option, none, some, String, ◌==◌, if◌then◌else◌, ◌>>=◌}
use godelayq.Dict
use godelayq.Heap
use godelayq.Job.{
  Job, JobSnapshot, status_pending, status_cancelled, status_paused, handler_key, to_snapshot,
  from_snapshot, zero_job, job_item,
}
use godelayq.Scheduler.{
  Env, Scheduler, Result, ok, err, job_not_found, job_not_pending, job_not_paused, Event,
  job_cancelled, job_paused, job_resumed, no_metadata, was_paused, paused, resumed, plain_event,
  publish, notify_new_job, lookup_handler, is_running, cancel_context, cancel_running, store_update,
  store_delete, find_snapshot, schedule,
}

module _ {S : Type 0} where
  unfoldable pub suspend : Scheduler S → Scheduler S
  suspend s = record s { suspended = true }

  unfoldable pub unsuspend : Scheduler S → Scheduler S
  unsuspend s = notify_new_job (record s { suspended = false; resume_ch = true })

module _ {S : Type 0} (env : Env S) where
  -- An event without a job name.
  abbrev pub cancel_event : String → String → ℕ → Bool → Event
  cancel_event id name now paused_before = record {
    event_type = job_cancelled;
    job_id = id;
    job_name = name;
    status = status_cancelled;
    timestamp = now;
    error = none;
    result = none;
    metadata = if paused_before then was_paused else no_metadata;
  }

  -- Cancel of an id that is neither in the heap nor running.
  unfoldable pub cancel_paused : Scheduler S → String → ℕ → Scheduler S × Result (Unit {0})
  cancel_paused s id now = elim (find_snapshot env s id) [
    | none ↦ (s, err job_not_found)
    | some snap ↦
        if snap.status == status_paused
        then (publish (store_delete env s id) (cancel_event id snap.name now true), ok tt)
        else (s, err job_not_found)
  ]

  -- Cancel of an id that was taken out of the heap, or whose run was told to stop, or both.
  unfoldable pub cancel_found : Scheduler S → String → ℕ → Scheduler S × Result (Unit {0})
  cancel_found s id now = (publish (store_delete env s id) (cancel_event id "" now false), ok tt)

  unfoldable pub cancel : Scheduler S → String → ℕ → Option (Scheduler S × Result (Unit {0}))
  cancel s id now = Heap.remove s.heap id >>= λ (removed, h).
      let s1 : Scheduler S = record s { heap = h } in
      let (stopped, s2) = cancel_running s1 id in
      some (elim removed [
        | some _ ↦ cancel_found s2 id now
        | none ↦ if stopped then cancel_found s2 id now else cancel_paused s2 id now
      ])

  abbrev pub paused_job : Job → ℕ → Job
  paused_job j now = record j { status = status_paused; updated_at = now }

  unfoldable pub pause_pending_job : Scheduler S → Job → Bool → ℕ → Scheduler S × Result Job
  pause_pending_job s j forced now =
      let j' = paused_job j now in
      (
        publish (notify_new_job (store_update env s now (to_snapshot j')))
            (plain_event job_paused j' status_paused now (paused j'.trigger_at forced)),
        ok j',
      )

  -- Pause of an id that is not in the heap.
  unfoldable pub pause_absent : Scheduler S → String → Scheduler S × Result Job
  pause_absent s id =
      if is_running s id then (s, err job_not_pending) else elim (find_snapshot env s id) [
        | none ↦ (s, err job_not_found)
        | some snap ↦
            if snap.status == status_paused
            then (s, ok (from_snapshot zero_job snap))
            else (s, err job_not_found)
      ]

  unfoldable pub pause : Scheduler S → String → ℕ → Option (Scheduler S × Result Job)
  pause s id now = Heap.remove s.heap id >>= λ (removed, h).
      let s1 : Scheduler S = record s { heap = h } in
      some (elim removed [ some j ↦ pause_pending_job s1 j false now | none ↦ pause_absent s1 id ])

  -- The handler of the registry, where there is one.
  abbrev pub with_handler : Option ℕ → Job → Job
  with_handler none j = j
  with_handler (some handler) j = record j { handler = some handler }

  unfoldable pub resumed_job : Scheduler S → JobSnapshot → ℕ → Job
  resumed_job s snap now =
      let j = from_snapshot zero_job snap in
      record (with_handler (lookup_handler s (handler_key j)) j) {
        status = status_pending;
        updated_at = now;
      }

  unfoldable pub announce_resumed : ℕ → Scheduler S × Result Job → Option (Scheduler S × Result Job)
  announce_resumed now (s, err e) = some (s, err e)
  announce_resumed now (s, ok j) =
      some (publish s (plain_event job_resumed j status_pending now (resumed j.trigger_at)), ok j)

  unfoldable pub resume : Scheduler S → String → ℕ → String → Option (Scheduler S × Result Job)
  resume s id now fresh = elim (find_snapshot env s id) [
    | none ↦ some (s, err job_not_found)
    | some snap ↦
        if snap.status == status_paused
        then (if is_running s id
            then some (s, err job_not_pending)
            else (schedule env s (resumed_job s snap now) now fresh >>= announce_resumed now))
        else some (s, err job_not_paused)
  ]

  -- Any error of the inner Pause is reported as ErrJobNotPending.
  abbrev pub or_not_pending : Scheduler S × Result Job → Scheduler S × Result Job
  or_not_pending (s, ok j) = (s, ok j)
  or_not_pending (s, err e) = (s, err job_not_pending)

  -- ForcePause of a job whose run is told to stop by its context `c`: the flag, the stored status
  -- and the stop, in that order.
  unfoldable pub force_pause_running : Scheduler S → String → ℕ → ℕ → Scheduler S × Result Job
  force_pause_running s id c now =
      let s1 : Scheduler S = record s { forced_pause = Dict.insert id tt s.forced_pause } in
      elim (find_snapshot env s1 id) [
        | none ↦ (
          cancel_context s1 c,
          ok (record zero_job { id = id; status = status_paused; updated_at = now }),
        )
        | some snap ↦
            let snap' : JobSnapshot = record snap { status = status_paused; updated_at = now } in
            (cancel_context (store_update env s1 now snap') c, ok (from_snapshot zero_job snap'))
      ]

  unfoldable pub force_pause_absent : Scheduler S → String → ℕ → Option (Scheduler S × Result Job)
  force_pause_absent s id now = elim (Dict.lookup id s.cancel_map) [
    | some c ↦ some (force_pause_running s id c now)
    | none ↦ elim (find_snapshot env s id) [
      | none ↦ some (s, err job_not_found)
      | some _ ↦ pause s id now >>= λ r. some (or_not_pending r)
    ]
  ]

  unfoldable pub force_pause : Scheduler S → String → ℕ → Option (Scheduler S × Result Job)
  force_pause s id now = Heap.remove s.heap id >>= λ (removed, h).
      let s1 : Scheduler S = record s { heap = h } in
      elim removed [
        | some j ↦ some (pause_pending_job s1 j true now)
        | none ↦ force_pause_absent s1 id now
      ]

  -- UpdatePending with what `apply` makes of a copy of the job: an error, or the changed copy.
  unfoldable pub update_current :
      Scheduler S → Job → (Job → Result Job) → ℕ → Option (Scheduler S × Result Job)
  update_current s current apply now = elim (apply current) [
    | err e ↦ some (s, err e)
    | ok changed ↦
        let updated : Job = record changed { status = status_pending; updated_at = now } in
        Heap.update s.heap updated >>= λ (present, h).
        if present
        then some (
          notify_new_job (store_update env (record s { heap = h }) now (to_snapshot updated)),
          ok updated,
        )
        else some (s, err job_not_pending)
  ]

  unfoldable pub update_pending :
      Scheduler S → String → (Job → Result Job) → ℕ → Option (Scheduler S × Result Job)
  update_pending s id apply now = Heap.get s.heap id >>= λ found. elim found [
    | none ↦ elim (find_snapshot env s id) [
      | none ↦ some (s, err job_not_found)
      | some _ ↦ some (s, err job_not_pending)
    ]
    | some current ↦ update_current s current apply now
  ]
