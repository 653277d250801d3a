-- ===== src/Scheduler/Lifecycle/Tests.antt =====
-- The theorems on Start, Restore, PauseByHandlerKey and the groups at a scheduler over the JSON
-- file store.
use godelayq.Prelude.{
  ◌+◌, refl, [], ◌∷◌, true, none, some, string_discrete, Returns, Returns-at, ◌≡◌,
}
use godelayq.Dict
use godelayq.Heap.{new, push_item, sift_up, sift_up_loop, less, swap}
use godelayq.Heap.Order.{WellFormed}
use godelayq.Heap.Insert.{new-WellFormed, push_item_lem}
use godelayq.Job.{Job, job_item, zero_job, to_snapshot, status_running}
use godelayq.JsonStore.{JsonFileStore, empty_store}
use godelayq.JsonStore.Refines.{json_ops}
use godelayq.Scheduler.{Env, Scheduler}
use godelayq.Scheduler.Restore.{restore}
use godelayq.Scheduler.Restore.Ends.{RestoreEnd, restore_lem}
use godelayq.Scheduler.Lifecycle.{new_scheduler, start}
use godelayq.Scheduler.Lifecycle.Starts.{Started, start_lem}
use godelayq.Scheduler.Groups.{pause_by_handler_key}
use godelayq.Scheduler.Groups.Pausing.{KeyPaused, pause_by_handler_key_lem}

abbrev env : Env JsonFileStore
env = record {
  cron_next = λ expr now. some (now + 60);
  next_retry = λ j now. now + j.retry_delay;
  store_ops = json_ops;
}

abbrev mail : Job
mail = record zero_job { id = "7"; type_name = "mail"; trigger_at = 30; group = "post" }

-- A job was running when the process ended.
abbrev crashed : Scheduler JsonFileStore
crashed = new_scheduler (
    some (record (empty_store 1000 0 none) {
      jobs = ("7", record (to_snapshot mail) { status = status_running }) ∷ [];
    }))

start_lem_example : Returns (Started env crashed) (start env crashed 50)
start_lem_example = start_lem env crashed 50 new-WellFormed refl

restore_lem_example : Returns (RestoreEnd env crashed) (restore env crashed 50)
restore_lem_example = restore_lem env crashed 50 new-WellFormed

abbrev waiting : Scheduler JsonFileStore
waiting =
    record (new_scheduler
      (some (record (empty_store 1000 0 none) { jobs = ("7", to_snapshot mail) ∷ [] }))) {
        heap = record { items = mail ∷ []; index_map = ("7", 0) ∷ [] };
        running = true;
        cancel_map = ("8", 0) ∷ [];
      }

push_mail : push_item new mail ≡ some waiting.heap
unfolding push_item sift_up sift_up_loop less swap new Dict.insert string_discrete
push_mail = refl

waiting-WellFormed : WellFormed waiting.heap
unfolding Dict.lookup new
waiting-WellFormed = (Returns-at (push_item_lem new mail new-WellFormed refl) push_mail).well_formed

pause_by_handler_key_lem_example :
    Returns (KeyPaused env waiting "mail") (pause_by_handler_key env waiting "mail" 50)
pause_by_handler_key_lem_example = pause_by_handler_key_lem env waiting "mail" 50 waiting-WellFormed
