-- ===== src/Executor/Tests.antt =====
-- The theorems on the verdicts at a process that left with the code 3.
use godelayq.Prelude.{
  ◌+◌, ℕ, ◌≡◌, refl, [], ◌∷◌, true, false, Option, none, some, String, Returns, string_discrete,
}
use godelayq.Dict
use godelayq.Heap.{new}
use godelayq.Heap.Insert.{new-WellFormed}
use godelayq.Job.{Job, job_item, zero_job, status_failed, to_snapshot}
use godelayq.JsonStore.{JsonFileStore, empty_store}
use godelayq.JsonStore.Refines.{json_ops}
use godelayq.Scheduler.{Env, Scheduler, store_update}
use godelayq.Scheduler.Lifecycle.{new_scheduler}
use godelayq.Scheduler.Execute.{handle_failure, with_status}
use godelayq.Scheduler.Execute.Outcomes.{Running}
use godelayq.Executor.{
  ErrorKinds, ExitError, ProfileView, classify_failure, classify_run, new_failure, classify_exit,
  exit_code_in, as_failure, listed,
}
use godelayq.Executor.Verdict.{not_retried}

-- The only error is an exit status.
abbrev exits : ErrorKinds (Unit {0})
exits = record {
  is_wait_delay = λ d. false;
  is_exit_status = λ d. true;
  is_deadline = λ d. false;
  is_canceled = λ d. false;
  text = λ d. "exit status 3";
  quote = λ name. name;
}

abbrev backup : ProfileView
backup = record { name = "backup"; retry_on_exit = 75 ∷ [] }

abbrev left_with_3 : Option (ℕ × String)
left_with_3 = some (3, "")

abbrev env : Env JsonFileStore
env = record {
  cron_next = λ expr now. some (now + 60);
  next_retry = λ j now. now + j.retry_delay;
  store_ops = json_ops;
}

abbrev nightly : Job
nightly = record zero_job { id = "7"; type_name = "exec.backup"; max_retries = 5 }

abbrev idle : Scheduler JsonFileStore
idle = new_scheduler (some (empty_store 1000 0 none))

nightly-Running : Running env idle nightly
unfolding new Dict.lookup string_discrete
nightly-Running = record {
  well_formed = new-WellFormed;
  named = λ empty. cc;
  absent = refl;
  not_forced = refl;
}

abbrev verdict : ExitError (Unit {0})
verdict = record {
  profile = "backup";
  code = 3;
  signal = "";
  timed_out = false;
  cancelled = false;
  retryable = false;
  reason = "";
  detail = some tt;
}

classified : classify_failure exits backup (some tt) left_with_3 none ≡ some verdict
unfolding classify_failure classify_run new_failure classify_exit exit_code_in listed
classified = refl

not_retried_example :
    Returns
      (λ s'. s' ≡ store_update env idle 40 (to_snapshot (with_status nightly status_failed 40)))
      (handle_failure env idle nightly (as_failure exits verdict) 40 "8")
unfolding listed
not_retried_example =
    not_retried exits env idle nightly 40 "8" backup tt left_with_3 none verdict nightly-Running
      classified refl refl
