-- ===== src/Scheduler/Execute/Outcomes.antt =====
-- What handleSuccess, handleFailure and handleInterrupted do with a job that no one force-paused.
use godelayq.Prelude.{
  ℕ, ◌≡◌, ◌≢◌, refl, ◌∙◌, ap, ◌⊎◌, inl, inr, true, false, none, some, String, Returns, returns,
  Returns-map, Returns-if, Option-cases, string_discrete, if_neg, and_right,
}
use godelayq.Int64.{add64, double64, lt64}
use godelayq.Dict
use godelayq.Heap.Order.{WellFormed}
use godelayq.Job.{
  Job, job_item, handler_key, clone_for_retry, status_failed, status_pending, status_success,
  to_snapshot,
}
use godelayq.Scheduler.{
  Env, Scheduler, publish, Event, store_update, stamped, filled, is_cron, class_of_key,
}
use godelayq.Scheduler.Enqueue.{Enqueued, schedule_once, schedule_cron}
use godelayq.Scheduler.Execute.{
  Failure, with_status, next_round, take_forced_pause, park_forced_pause, mark_failed,
  schedule_ignoring, handle_success, handle_failure,
}

module _ {S : Type 0} (env : Env S) where
  not_parked :
      (s : Scheduler S) (j : Job) (note : String) (now : ℕ)
      → Dict.lookup j.id s.forced_pause ≡ none
      → park_forced_pause env s j note now ≡ (false, s)
  unfolding park_forced_pause take_forced_pause
  not_parked s j note now e = rw (e, take_forced_pause)

  -- The job of the next round or try: the old one's id, the given time, pending, in the class of its
  -- handler key.
  pub record Follows (s : Scheduler S) (j : Job) (at : ℕ) (j' : Job) : Type 0 where
    pub id : j'.id ≡ j.id
    pub time : j'.trigger_at ≡ at
    pub status : j'.status ≡ status_pending
    pub job_class : j'.job_class ≡ class_of_key s (handler_key j)
    pub attempts : j'.attempts ≡ 0
    pub max_retries : j'.max_retries ≡ j.max_retries

  -- A failure: the job is stored as failed, or it is scheduled again, with one try more and twice
  -- the delay, at the time that the retry policy gives.
  pub data FailureOutcome (s : Scheduler S) (j : Job) (f : Failure) (now : ℕ)
      : Scheduler S → Type 0 where
    gave_up :
        (f.permanent ≡ true) ⊎ (lt64 j.retry_count j.max_retries ≡ false)
        → FailureOutcome s j f now
            (store_update env s now (to_snapshot (with_status j status_failed now)))
    retried :
        (s1 s' : Scheduler S) (j' : Job)
        → f.permanent ≡ false
        → lt64 j.retry_count j.max_retries ≡ true
        → s1.heap ≡ s.heap
        → Enqueued env s1 j' now s'
        → Follows s j (env.next_retry j now) j'
        → j'.retry_count ≡ add64 j.retry_count 1
        → j'.retry_delay ≡ double64 j.retry_delay
        → is_cron j' ≡ false
        → FailureOutcome s j f now s'

  -- A success: a cron job whose expression the cron library reads is scheduled for its next time;
  -- any other job is stored as successful.
  pub data SuccessOutcome (s : Scheduler S) (j : Job) (now : ℕ) : Scheduler S → Type 0 where
    finished :
        (is_cron j ≡ false) ⊎ (env.cron_next j.cron_expr now ≡ none)
        → SuccessOutcome s j now
            (store_update env s now (to_snapshot (with_status j status_success now)))
    repeated :
        (s' : Scheduler S) (j' : Job)
        → is_cron j ≡ true
        → env.cron_next j.cron_expr now ≡ some j'.trigger_at
        → Enqueued env s j' now s'
        → Follows s j j'.trigger_at j'
        → is_cron j' ≡ true
        → SuccessOutcome s j now s'

  filled_id : (j : Job) (now : ℕ) (fresh : String) → j.id ≢ "" → (filled j now fresh).id ≡ j.id
  filled_id j now fresh ne = unfold filled in if_neg (string_discrete j.id "") ne fresh j.id

  -- The state in which a run ends: the heap is well formed and does not hold the job's id, which is
  -- not empty, and no forced pause waits for the job.
  pub record Running (s : Scheduler S) (j : Job) : Type 0 where
    pub well_formed : WellFormed s.heap
    pub named : j.id ≢ ""
    pub absent : Dict.lookup j.id s.heap.index_map ≡ none
    pub not_forced : Dict.lookup j.id s.forced_pause ≡ none

  retry_lem :
      (s : Scheduler S) (j : Job) (f : Failure) (now : ℕ) (fresh : String) (event : Event)
      → Running s j
      → f.permanent ≡ false
      → lt64 j.retry_count j.max_retries ≡ true
      → Returns (FailureOutcome s j f now) (
          schedule_ignoring env
            (publish s event)
            (clone_for_retry j (env.next_retry j now) now)
            now
            fresh)
  unfolding filled clone_for_retry stamped handler_key class_of_key publish
  retry_lem s j f now fresh event v temporary more =
      let named = filled_id (clone_for_retry j (env.next_retry j now) now) now fresh v.named in
      Returns-map
        (schedule_once env (publish s event) (clone_for_retry j (env.next_retry j now) now) now
          fresh v.well_formed (ap (λ k. Dict.lookup k s.heap.index_map) named ∙ v.absent) refl)
        λ s' q.
          retried (publish s event) s' _ temporary more refl q
            (record {
              id = named;
              time = refl;
              status = refl;
              job_class = refl;
              attempts = refl;
              max_retries = refl;
            })
            refl refl refl

  -- handleFailure of a job that has an id, is not in the well-formed heap and is not to be force-paused
  -- returns: with the job stored as failed where the failure is permanent or the tries
  -- are used up, and else with the next try in the heap and the store.
  pub handle_failure_lem :
      (s : Scheduler S) (j : Job) (f : Failure) (now : ℕ) (fresh : String)
      → Running s j
      → Returns (FailureOutcome s j f now) (handle_failure env s j f now fresh)
  unfolding handle_failure mark_failed
  handle_failure_lem s j f now fresh v =
      rw (not_parked s j "handler_failed_despite_cancel" now v.not_forced) (
        Returns-if f.permanent (λ permanent. returns (gave_up (inl permanent)))
          λ temporary.
            Returns-if (lt64 j.retry_count j.max_retries)
              (λ more. retry_lem s j f now fresh _ v temporary more)
              (λ used. returns (gave_up (inr used))))

  round_lem :
      (s : Scheduler S) (j : Job) (now next : ℕ) (fresh : String)
      → Running s j
      → is_cron j ≡ true
      → env.cron_next j.cron_expr now ≡ some next
      → Returns (SuccessOutcome s j now) (
          schedule_ignoring env s
            (next_round (with_status j status_success now) next now)
            now
            fresh)
  unfolding filled stamped handler_key class_of_key
  round_lem s j now next fresh v cron good =
      let after : Job = next_round (with_status j status_success now) next now in
      let named = filled_id after now fresh v.named in
      Returns-map
        (schedule_cron env s after now next fresh v.well_formed
          (ap (λ k. Dict.lookup k s.heap.index_map) named ∙ v.absent) (and_right j.is_repeat _ cron)
          good)
        λ s' q.
          repeated s' _ cron good q
            (record {
              id = named;
              time = refl;
              status = refl;
              job_class = refl;
              attempts = refl;
              max_retries = refl;
            })
            (and_right j.is_repeat _ cron)

  -- handleSuccess of a job that has an id, is not in the well-formed heap and is not to be force-paused
  -- returns: with the next round of a cron job in the heap and the store, and else
  -- with the job stored as successful.
  pub handle_success_lem :
      (s : Scheduler S) (j : Job) (now : ℕ) (fresh : String)
      → Running s j
      → Returns (SuccessOutcome s j now) (handle_success env s j now fresh)
  unfolding handle_success
  handle_success_lem s j now fresh v =
      rw (not_parked s j "handler_completed_despite_cancel" now v.not_forced) (
        Returns-if (is_cron j)
          (λ cron. elim (Option-cases (env.cron_next j.cron_expr now)) [
            | inl bad ↦
                rw (bad, not_parked s j "handler_completed_despite_cancel" now v.not_forced)
                  (returns (finished (inr bad)))
            | inr (next, good) ↦
                rw (good, not_parked s j "handler_completed_despite_cancel" now v.not_forced)
                  (round_lem s j now next fresh v cron good)
          ])
          (λ once. returns (finished (inl once))))
