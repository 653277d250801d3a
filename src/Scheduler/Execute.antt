-- ===== src/Scheduler/Execute.antt =====
-- executeJob of core/scheduler.go, in two steps: `begin` up to the call of the handler and `finish`
-- from its return. Between the two the other calls may run.
pub mod Parking
pub mod Outcomes
use godelayq.Prelude.{
  ℕ, ◌+◌, ◌-◌, ◌/◌, List, [], ◌∷◌, Bool, true, false, ◌&&◌, ◌||◌, Option, none, some, String, leb,
  ltb, ◌==◌, if◌then◌else◌, length, ◌>>=◌,
}
use godelayq.Int64.{add64, lt64, positive64}
use godelayq.Dict
use godelayq.Job.{
  Job, JobClass, class_default, class_exec, ExecMeta, status_pending, status_running,
  status_success, status_failed, status_paused, handler_key, to_snapshot, clone_for_retry,
  trim_exec_preview,
}
use godelayq.Scheduler.{
  Env, Scheduler, Result, ok, err, Event, EventType, job_started, job_completed, job_failed,
  job_retrying, job_cancelled, job_paused, Metadata, no_metadata, shutdown, parked, attempt,
  duration, failure, retrying, plain_event, publish, lookup_handler, exec_pool_enabled,
  store_update, schedule, is_cron,
}
use godelayq.Job

-- What the error of a handler says of itself: errors.Is of the two context errors, and
-- isPermanentFailure of core/retry.go.
pub record Failure : Type 0 where
  pub message : String
  pub canceled : Bool
  pub deadline_exceeded : Bool
  pub permanent : Bool

-- What a handler leaves: the summary that it put into the job, its error, and whether the deadline
-- of its context had passed.
pub record HandlerResult : Type 0 where
  pub exec : Option ExecMeta
  pub failed : Option Failure
  pub deadline_passed : Bool

-- A run whose handler is being called: its context, its job, and which of the two counters it holds.
pub record Execution : Type 0 where
  pub context : ℕ
  pub job : Job
  pub exec_counter : Bool

abbrev pub mem_context : ℕ → List ℕ → Bool
mem_context c [] = false
mem_context c (d ∷ rest) = c == d || mem_context c rest

abbrev pub is_exec : JobClass → Bool
is_exec class_default = false
is_exec class_exec = true

abbrev pub with_error : Event → Option String → Option ExecMeta → Event
with_error e message summary = record e { error = message; result = summary }

abbrev pub with_status : Job → ℕ → ℕ → Job
with_status j status now = record j { status = status; updated_at = now }

-- The next round of a cron job. RetryDelay, Exec and Attempts are not copied.
abbrev pub next_round : Job → ℕ → ℕ → Job
next_round j next now = record {
  id = j.id;
  name = j.name;
  type_name = j.type_name;
  payload = j.payload;
  trigger_at = next;
  group = j.group;
  handler = j.handler;
  exec = none;
  timeout = j.timeout;
  job_class = class_default;
  cron_expr = j.cron_expr;
  is_repeat = true;
  max_retries = j.max_retries;
  retry_count = 0;
  retry_delay = 0;
  status = status_pending;
  created_at = j.created_at;
  updated_at = now;
  attempts = 0;
}

module _ {S : Type 0} where
  -- The run counts in the executor pool or in the shared one.
  abbrev pub count_up : Scheduler S → Bool → Scheduler S
  count_up s exec = record s {
    exec_in_flight = if exec then s.exec_in_flight + 1 else s.exec_in_flight;
    in_flight = if exec then s.in_flight else s.in_flight + 1;
  }

  abbrev pub count_down : Scheduler S → Bool → Scheduler S
  count_down s exec = record s {
    exec_in_flight = if exec then s.exec_in_flight - 1 else s.exec_in_flight;
    in_flight = if exec then s.in_flight else s.in_flight - 1;
  }

  -- The result in an event, with its preview cut to the limit.
  unfoldable pub event_result : Scheduler S → Job → Option ExecMeta
  event_result s j = elim j.exec [
    | none ↦ none
    | some summary ↦ some (
        if positive64 s.event_preview_limit && ltb s.event_preview_limit (length summary.preview)
        then record summary { preview = trim_exec_preview summary.preview s.event_preview_limit }
        else summary)
  ]

  unfoldable pub take_forced_pause : Scheduler S → String → Bool × Scheduler S
  take_forced_pause s id = elim (Dict.lookup id s.forced_pause) [
    | none ↦ (false, s)
    | some _ ↦ (true, record s { forced_pause = Dict.delete id s.forced_pause })
  ]

  -- The handler of the job, or else that of the registry.
  unfoldable pub find_handler : Scheduler S → Job → Option ℕ
  find_handler s j = elim j.handler [
    | some handler ↦ some handler
    | none ↦ lookup_handler s (handler_key j)
  ]

  -- The deferred calls: the entry of cancelMap, the context and the counter.
  unfoldable pub release : Scheduler S → Execution → Scheduler S
  release s e =
      count_down
        (record s {
          cancel_map = Dict.delete e.job.id s.cancel_map;
          cancelled = e.context ∷ s.cancelled;
        })
        e.exec_counter

module _ {S : Type 0} (env : Env S) where
  unfoldable pub park_forced_pause : Scheduler S → Job → String → ℕ → Bool × Scheduler S
  park_forced_pause s j note now =
      let (wanted, s1) = take_forced_pause s j.id in
      if wanted
      then (let j' = with_status j status_paused now in
          (
            true,
            publish (store_update env s1 now (to_snapshot j')) (
                plain_event job_paused j' status_paused now
                  (parked note j'.retry_count j'.attempts)),
          ))
      else (false, s1)

  unfoldable pub mark_failed : Scheduler S → Job → ℕ → Scheduler S
  mark_failed s j now = store_update env s now (to_snapshot (with_status j status_failed now))

  unfoldable pub handle_interrupted : Scheduler S → Job → ℕ → Scheduler S
  handle_interrupted s j now =
      let (is_parked, s1) = park_forced_pause s j "interrupted" now in
      if is_parked
      then s1
      else if s1.running
      then s1
      else (let j' = with_status j status_pending now in
          publish (store_update env s1 now (to_snapshot j'))
            (plain_event job_cancelled j' status_pending now shutdown))

  -- Schedule with its result dropped.
  abbrev pub schedule_ignoring : Scheduler S → Job → ℕ → String → Option (Scheduler S)
  schedule_ignoring s j now fresh = schedule env s j now fresh >>= λ r. some r.0

  unfoldable pub handle_success : Scheduler S → Job → ℕ → String → Option (Scheduler S)
  handle_success s j now fresh =
      let (is_parked, s1) = park_forced_pause s j "handler_completed_despite_cancel" now in
      let done = with_status j status_success now in
      if is_parked
      then some s1
      else if is_cron done
      then elim (env.cron_next done.cron_expr now) [
        | some next ↦ schedule_ignoring s1 (next_round done next now) now fresh
        | none ↦ some (store_update env s1 now (to_snapshot done))
      ]
      else some (store_update env s1 now (to_snapshot done))

  unfoldable pub handle_failure : Scheduler S → Job → Failure → ℕ → String → Option (Scheduler S)
  handle_failure s j f now fresh =
      let (is_parked, s1) = park_forced_pause s j "handler_failed_despite_cancel" now in
      if is_parked
      then some s1
      else if f.permanent
      then some (mark_failed s1 j now)
      else if lt64 j.retry_count j.max_retries
      then (let next_time = env.next_retry j now in
          schedule_ignoring
            (publish s1 (
              plain_event job_retrying j status_pending now
                (retrying next_time (add64 j.retry_count 1))))
            (clone_for_retry j next_time now) now fresh)
      else some (mark_failed s1 j now)

  -- A job that has no handler, and none in the registry.
  unfoldable pub fail_unhandled : Scheduler S → Job → ℕ → Scheduler S
  fail_unhandled s j now =
      let j' = with_status j status_failed now in
      publish (store_update env s now (to_snapshot j')) (
        with_error (plain_event job_failed j' status_failed now no_metadata)
          (some "no handler registered") none)

  -- The counter is taken, the start is published, and the context is entered in cancelMap, already
  -- cancelled where the scheduler is stopping.
  unfoldable pub begin : Scheduler S → Job → ℕ → Scheduler S × Option Execution
  begin s j now =
      let in_exec = is_exec j.job_class && exec_pool_enabled s in
      let s1 =
        publish (count_up s in_exec)
          (plain_event job_started j status_running now (attempt j.attempts)) in
      elim (find_handler s1 j) [
        | none ↦ (count_down (fail_unhandled s1 j now) in_exec, none)
        | some handler ↦
            let c = s1.next_context in
            let s2 : Scheduler S = record s1 {
              next_context = c + 1;
              cancel_map = Dict.insert j.id c s1.cancel_map;
              cancelled = if s1.stopping then c ∷ s1.cancelled else s1.cancelled;
            } in
            let j' : Job = record j {
              handler = some handler;
              status = status_running;
              attempts = add64 j.attempts 1;
              updated_at = now;
            } in
            (
              store_update env s2 now (to_snapshot j'),
              some (record { context = c; job = j'; exec_counter = in_exec }),
            )
      ]

  -- What executeJob does between the return of the handler and the deferred calls.
  unfoldable pub settle :
      Scheduler S → Execution → Job → HandlerResult → ℕ → String → Option (Scheduler S)
  settle s e j r now fresh = elim r.failed [
    | none ↦
        handle_success
          (publish s (
            with_error
              (plain_event job_completed j status_success now
                (duration ((now - j.updated_at) / 1000000)))
              none (event_result s j)))
          j now fresh
    | some f ↦
        if f.canceled || mem_context e.context s.cancelled
        then some (handle_interrupted s j now)
        else (let timed_out = f.deadline_exceeded || (positive64 j.timeout && r.deadline_passed) in
            handle_failure
              (publish s (
                with_error
                  (plain_event job_failed j status_failed now
                    (failure j.retry_count j.max_retries timed_out f.permanent))
                  (some f.message) (event_result s j)))
              j f now fresh)
  ]

  unfoldable pub finish :
      Scheduler S → Execution → HandlerResult → ℕ → String → Option (Scheduler S)
  finish s e r now fresh =
      settle s e (record e.job { exec = r.exec }) r now fresh >>= λ s'. some (release s' e)
