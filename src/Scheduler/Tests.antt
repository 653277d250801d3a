-- ===== src/Scheduler/Tests.antt =====
-- The theorems on the scheduler at concrete states, with a store that is a map.
use godelayq.Prelude.{
  ◌-◌, ltb, if◌then◌else◌, arith, ◌+◌, ◌≡◌, refl, [], ◌∷◌, map, true, false, none, some, Returns,
  Returns-at, string_discrete,
}
use godelayq.Dict
use godelayq.Dict.{Dict}
use godelayq.Heap.{new, push_item, sift_up, sift_up_loop, less, swap}
use godelayq.Heap.Order.{WellFormed}
use godelayq.Heap.Insert.{new-WellFormed, push_item_lem}
use godelayq.Job.{status_paused, Job, job_item, zero_job, JobSnapshot, to_snapshot}
use godelayq.Scheduler.{Result, ok, Store, Env, Scheduler}
use godelayq.Scheduler.Calls.{resume, cancel, pause, force_pause, update_pending}
use godelayq.Scheduler.Calls.Pauses.{Pauses, pause_lem}
use godelayq.Scheduler.Calls.Cancels.{Cancels, cancel_lem}
use godelayq.Scheduler.Calls.Forces.{Forces, force_pause_lem}
use godelayq.Scheduler.Calls.Resumes.{Resumes, resume_lem}
use godelayq.Scheduler.Calls.Updates.{Updates, update_pending_lem}
use godelayq.Scheduler.Execute.{
  Execution, HandlerResult, Failure, handle_success, handle_failure, finish,
}
use godelayq.Scheduler.Execute.Parking.{Parked, finish-Parked}
use godelayq.Scheduler.Execute.Outcomes.{
  Running, FailureOutcome, SuccessOutcome, handle_failure_lem, handle_success_lem,
}
use godelayq.Scheduler.Workers.{resize_workers, Balanced, resize_workers-Balanced}
use godelayq.Scheduler.Loop.{should_retire, loop_turn}
use godelayq.Scheduler.Loop.Fairness.{TurnEnd, loop_turn_lem}

abbrev map_store : Store (Dict JobSnapshot)
map_store = record {
  save = λ now j m. (Dict.insert j.id (to_snapshot j) m, true);
  update = λ now s m. (Dict.insert s.id s m, true);
  delete = λ id m. (Dict.delete id m, true);
  load_all = λ m. some (map (λ e. e.1) m);
}

-- Every expression means once a minute; the delay of the retry is the job's own.
abbrev env : Env (Dict JobSnapshot)
env = record {
  cron_next = λ expr now. some (now + 60);
  next_retry = λ j now. now + j.retry_delay;
  store_ops = map_store;
}

abbrev idle : Scheduler (Dict JobSnapshot)
idle = record {
  heap = new;
  store = some [];
  running = true;
  stopping = false;
  new_job_ch = false;
  resume_ch = false;
  suspended = false;
  concurrency = 1;
  queue_capacity = 2;
  work_ch = [];
  work_cap = 2;
  target_workers = 1;
  retire_requests = 0;
  exec_concurrency = 0;
  exec_queue_capacity = 0;
  exec_ch = none;
  exec_cap = 0;
  exec_in_flight = 0;
  exec_slot_freed = false;
  event_preview_limit = 0;
  handlers = ("mail", 3) ∷ [];
  handler_classes = [];
  cancel_map = [];
  forced_pause = [];
  in_flight = 1;
  next_context = 1;
  cancelled = [];
  held = none;
  restore_guard = none;
  events = [];
}

abbrev mail : Job
mail = record zero_job {
  id = "7";
  type_name = "mail";
  trigger_at = 30;
  max_retries = 2;
  retry_delay = 5;
}

abbrev hourly : Job
hourly = record mail { cron_expr = "* * * * *"; is_repeat = true }

mail-Running : (j : Job) → j.id ≡ "7" → Running env idle j
unfolding new Dict.lookup string_discrete
mail-Running j e = record {
  well_formed = new-WellFormed;
  named = λ empty. cc;
  absent = refl;
  not_forced = refl;
}

abbrev refused_mail : Failure
refused_mail = record {
  message = "refused";
  canceled = false;
  deadline_exceeded = false;
  permanent = false;
}

handle_failure_lem_example :
    Returns
      (FailureOutcome env idle mail refused_mail 40)
      (handle_failure env idle mail refused_mail 40 "8")
handle_failure_lem_example =
    handle_failure_lem env idle mail refused_mail 40 "8" (mail-Running mail refl)

handle_success_lem_example :
    Returns (SuccessOutcome env idle hourly 40) (handle_success env idle hourly 40 "8")
handle_success_lem_example = handle_success_lem env idle hourly 40 "8" (mail-Running hourly refl)

abbrev forced : Scheduler (Dict JobSnapshot)
forced = record idle {
  forced_pause = ("7", tt) ∷ [];
  cancel_map = ("7", 0) ∷ [];
  cancelled = 0 ∷ [];
}

-- The job runs, under the context 0.
abbrev busy : Scheduler (Dict JobSnapshot)
busy = record idle { cancel_map = ("7", 0) ∷ [] }

abbrev running_mail : Execution
running_mail = record { context = 0; job = mail; exec_counter = false }

abbrev failing : HandlerResult
failing = record { exec = none; failed = some refused_mail; deadline_passed = false }

finish-Parked_example :
    Returns
      (Parked env forced (record mail { exec = none }) 40)
      (finish env forced running_mail failing 40 "8")
unfolding Dict.lookup string_discrete
finish-Parked_example = finish-Parked env forced running_mail failing 40 "8" refl

abbrev waiting : Scheduler (Dict JobSnapshot)
waiting = record idle { heap = record { items = mail ∷ []; index_map = ("7", 0) ∷ [] } }

push_mail : push_item idle.heap mail ≡ some waiting.heap
unfolding push_item sift_up sift_up_loop less swap new Dict.insert string_discrete
push_mail = refl

waiting-WellFormed : WellFormed waiting.heap
unfolding Dict.lookup new string_discrete
waiting-WellFormed =
    (Returns-at (push_item_lem idle.heap mail new-WellFormed refl) push_mail).well_formed

loop_turn_lem_example : Returns (TurnEnd waiting 40) (loop_turn waiting 40)
loop_turn_lem_example = loop_turn_lem waiting 40 waiting-WellFormed refl refl refl

pause_lem_example : Returns (Pauses env waiting "7" 20) (pause env waiting "7" 20)
pause_lem_example = pause_lem env waiting "7" 20 waiting-WellFormed

cancel_lem_example : Returns (Cancels env forced "7") (cancel env forced "7" 20)
cancel_lem_example = cancel_lem env forced "7" 20 new-WellFormed

force_pause_lem_example : Returns (Forces env busy "7" 20) (force_pause env busy "7" 20)
force_pause_lem_example = force_pause_lem env busy "7" 20 new-WellFormed

abbrev later : Job → Result Job
later j = ok (record j { trigger_at = j.trigger_at + 100 })

update_pending_lem_example :
    Returns (Updates env later 20 waiting "7") (update_pending env waiting "7" later 20)
update_pending_lem_example = update_pending_lem env later 20 waiting "7" waiting-WellFormed

-- The store holds the job as paused.
abbrev paused_mail : Scheduler (Dict JobSnapshot)
paused_mail = record idle {
  store = some (("7", record (to_snapshot mail) { status = status_paused }) ∷ []);
}

resume_lem_example :
    Returns (Resumes env paused_mail "7" 20 "8") (resume env paused_mail "7" 20 "8")
unfolding new Dict.lookup string_discrete
resume_lem_example = resume_lem env paused_mail "7" 20 "8" new-WellFormed (λ empty. cc) refl

abbrev pool : Scheduler (Dict JobSnapshot)
pool = record idle { target_workers = 4 }

-- From four workers to two: two are asked to retire.
resize_workers-Balanced_example :
    let (accepted, started, s') = resize_workers pool 2 in
    let (retires, s'') = should_retire s' in
    (accepted ≡ true)
    × (s'.target_workers ≡ 2)
    × Balanced (4 + started) s'
    × (retires ≡ ltb 2 (4 + started))
    × Balanced (if retires then 4 + started - 1 else 4 + started) s''
resize_workers-Balanced_example =
    resize_workers-Balanced pool 4 2 refl (omega arith) (omega arith) (omega arith) (omega arith)
      refl
