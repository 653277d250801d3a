-- ===== src/Scheduler/Lifecycle.antt =====
-- NewScheduler, Start and Stop of core/scheduler.go.
pub mod Starts
mod Tests
use godelayq.Prelude.{
  ℕ, List, [], ◌++◌, ◌∷◌, Bool, true, false, Option, none, some, String, if◌then◌else◌, ◌>>=◌, ◌+◌,
  ltb,
}
use godelayq.Dict.{Dict}
use godelayq.Int64.{positive64}
use godelayq.Scheduler.{Env, Scheduler}
use godelayq.Scheduler.Restore.{restore}
use godelayq.Scheduler.Workers.{to_int32, default_concurrency}
use godelayq.Heap.{new}
use godelayq.Job.{job_item}

abbrev pub capacity_or : ℕ → ℕ → ℕ
capacity_or given workers = if positive64 given then given else workers

-- The contexts of the map.
unfoldable pub contexts : Dict ℕ → List ℕ
contexts [] = []
contexts ((id, c) ∷ m) = c ∷ contexts m

-- DefaultExecInlinePreview of core/config.go.
abbrev pub default_exec_inline_preview : ℕ
default_exec_inline_preview = 2048

module _ {S : Type 0} where
  -- The capacities of the pools are those that Start sets.
  abbrev pub new_scheduler : Option S → Scheduler S
  new_scheduler store = record {
    heap = new;
    store = store;
    running = false;
    stopping = false;
    new_job_ch = false;
    resume_ch = false;
    suspended = false;
    concurrency = default_concurrency;
    queue_capacity = 0;
    work_ch = [];
    work_cap = 0;
    target_workers = to_int32 default_concurrency;
    retire_requests = 0;
    exec_concurrency = 0;
    exec_queue_capacity = 0;
    exec_ch = none;
    exec_cap = 0;
    exec_in_flight = 0;
    exec_slot_freed = false;
    event_preview_limit = default_exec_inline_preview;
    handlers = [];
    handler_classes = [];
    cancel_map = [];
    forced_pause = [];
    in_flight = 0;
    next_context = 0;
    cancelled = [];
    held = none;
    restore_guard = none;
    events = [];
  }

  -- Start up to Restore: fresh channels, and no request from the run before.
  unfoldable pub reset_for_start : Scheduler S → Scheduler S
  reset_for_start s =
      let pool = positive64 s.exec_concurrency in
      record s {
        running = true;
        stopping = false;
        retire_requests = 0;
        suspended = false;
        target_workers = to_int32 s.concurrency;
        work_ch = [];
        work_cap = capacity_or s.queue_capacity s.concurrency;
        exec_ch = if pool then some [] else none;
        exec_cap =
            if pool then capacity_or s.exec_queue_capacity s.exec_concurrency else s.exec_cap;
      }

  -- The error of Restore is logged. Of the goroutines, a result tells how many workers each pool
  -- is given; the loop is the last one.
  unfoldable pub start : Env S → Scheduler S → ℕ → Option (Scheduler S × (ℕ × ℕ))
  start env s now =
      if s.running
      then some (s, (0, 0))
      else (restore env (reset_for_start s) now >>= λ r.
          some
            (r.0, (s.concurrency, if positive64 s.exec_concurrency then s.exec_concurrency else 0)))

  -- Stop up to its wait for the goroutines.
  unfoldable pub stop : Scheduler S → Scheduler S
  stop s =
      if s.running
      then record s {
        running = false;
        stopping = true;
        cancelled = contexts s.cancel_map ++ s.cancelled;
      }
      else s
