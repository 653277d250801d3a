-- ===== src/Scheduler/Calls/Tests.antt =====
-- A pause and a resume on a scheduler over the JSON file store.
use godelayq.Prelude.{
  ◌+◌, ◌>>=◌, refl, [], ◌∷◌, true, false, none, some, string_discrete, Returns, Returns-at, ◌≡◌,
}
use godelayq.Dict
use godelayq.Heap.{new, push_item, sift_up, sift_up_loop, less, swap}
use godelayq.Heap.Order.{WellFormed}
use godelayq.Heap.Insert.{new-WellFormed, push_item_lem}
use godelayq.Job.{Job, job_item, zero_job}
use godelayq.JsonStore.{JsonFileStore, empty_store}
use godelayq.JsonStore.Trim.{Sound}
use godelayq.JsonStore.Refines.{json_ops, json_ops-StoreLaws}
use godelayq.Scheduler.{Env, Scheduler, is_running}
use godelayq.Scheduler.Calls.{pause, resume}
use godelayq.Scheduler.Calls.RoundTrip.{RoundTrip, pause-resume}

abbrev env : Env JsonFileStore
env = record {
  cron_next = λ expr now. some (now + 60);
  next_retry = λ j now. now + j.retry_delay;
  store_ops = json_ops;
}

abbrev files : JsonFileStore
files = empty_store 1000 0 none

files-Sound : Sound files
files-Sound = record { distinct = tt; keyed = tt }

abbrev mail : Job
mail = record zero_job { id = "7"; type_name = "mail"; trigger_at = 30 }

abbrev waiting : Scheduler JsonFileStore
waiting = record {
  heap = record { items = mail ∷ []; index_map = ("7", 0) ∷ [] };
  store = some files;
  running = true;
  stopping = false;
  new_job_ch = false;
  resume_ch = false;
  suspended = false;
  concurrency = 1;
  queue_capacity = 2;
  work_ch = [];
  work_cap = 2;
  target_workers = 1;
  retire_requests = 0;
  exec_concurrency = 0;
  exec_queue_capacity = 0;
  exec_ch = none;
  exec_cap = 0;
  exec_in_flight = 0;
  exec_slot_freed = false;
  event_preview_limit = 0;
  handlers = ("mail", 3) ∷ [];
  handler_classes = [];
  cancel_map = [];
  forced_pause = [];
  in_flight = 0;
  next_context = 0;
  cancelled = [];
  held = none;
  restore_guard = none;
  events = [];
}

push_mail : push_item new mail ≡ some waiting.heap
unfolding push_item sift_up sift_up_loop less swap new Dict.insert string_discrete
push_mail = refl

waiting-WellFormed : WellFormed waiting.heap
unfolding Dict.lookup new string_discrete
waiting-WellFormed = (Returns-at (push_item_lem new mail new-WellFormed refl) push_mail).well_formed

pause-resume_example :
    Returns
      (RoundTrip env waiting "7" 20 90)
      (pause env waiting "7" 20 >>= λ r. resume env r.0 "7" 90 "8")
unfolding Dict.lookup is_running
pause-resume_example =
    pause-resume env Sound json_ops-StoreLaws waiting files refl files-Sound "7" 0 mail 20 90 "8"
      waiting-WellFormed (λ empty. cc) refl refl refl
