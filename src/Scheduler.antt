-- ===== src/Scheduler.antt =====
-- core/scheduler.go: the state of the scheduler and the helpers that its calls share.
-- A call returns `none` where the heap panics, such as an index out of range. One call reads the clock
-- once: `now` stands for every time.Now() of it. Log lines are left out.
pub mod Laws
pub mod Enqueue
pub mod Calls
pub mod Execute
pub mod Loop
pub mod Workers
pub mod Restore
pub mod Lifecycle
pub mod Groups
mod Tests
use godelayq.Prelude.{
  ℕ, ◌+◌, ◌-◌, List, [], ◌∷◌, ◌++◌, Bool, true, false, ◌&&◌, ◌||◌, not, Option, none, some, String,
  leb, ltb, ◌==◌, if◌then◌else◌, length, string_discrete, ite, ◌>>=◌,
}
use godelayq.Int64.{add64}
use godelayq.Dict
use godelayq.Dict.{Dict}
use godelayq.Heap
use godelayq.Heap.{QuaternaryHeap}
use godelayq.Job.{
  Job, JobStatus, JobSnapshot, JobClass, class_default, class_exec, ExecMeta, status_pending,
  handler_key, to_snapshot, job_item,
}

-- The Store interface of core/store.go. The flag of a write is false where it returns an error; a
-- write may drop finished jobs, by the clock.
pub record Store (S : Type 0) : Type 0 where
  pub save : ℕ → Job → S → S × Bool
  pub update : ℕ → JobSnapshot → S → S × Bool
  pub delete : String → S → S × Bool
  pub load_all : S → Option (List JobSnapshot)

-- What stands behind the scheduler: the cron library (an expression and a time, the next time or a
-- parse error), the retry policy (the time of the next try) and the store.
pub record Env (S : Type 0) : Type 0 where
  pub cron_next : String → ℕ → Option ℕ
  pub next_retry : Job → ℕ → ℕ
  pub store_ops : Store S

pub data EventType : Type 0 where
  job_scheduled job_started job_completed job_failed job_retrying job_cancelled job_paused
        job_resumed :
      EventType

-- The metadata maps of the events.
pub data Metadata : Type 0 where
  no_metadata shutdown was_paused : Metadata
  scheduled : ℕ → Bool → Metadata
  paused : ℕ → Bool → Metadata
  parked : String → ℕ → ℕ → Metadata
  restored : ℕ → ℕ → Metadata
  resumed : ℕ → Metadata
  attempt : ℕ → Metadata
  duration : ℕ → Metadata
  failure : ℕ → ℕ → Bool → Bool → Metadata
  retrying : ℕ → ℕ → Metadata

pub record Event : Type 0 where
  pub event_type : EventType
  pub job_id : String
  pub job_name : String
  pub status : JobStatus
  pub timestamp : ℕ
  pub error : Option String
  pub result : Option ExecMeta
  pub metadata : Metadata

-- The status to write and whether to hold the job back; none is a panic.
abbrev pub RestoreGuard : Type 0
RestoreGuard = JobSnapshot → Option (JobStatus × Bool)

-- A channel of capacity 1 is a flag. A context is a number; `cancelled` holds those whose cancel
-- function was called. `events` holds what was published, the latest first. `held` is the job that
-- the loop has taken out of the heap and is sending to the shared queue. `exec_ch` is none where
-- the executor pool is off.
pub record Scheduler (S : Type 0) : Type 0 where
  pub heap : QuaternaryHeap Job
  pub store : Option S
  pub running : Bool
  pub stopping : Bool
  pub new_job_ch : Bool
  pub resume_ch : Bool
  pub suspended : Bool
  pub concurrency : ℕ
  pub queue_capacity : ℕ
  pub work_ch : List Job
  pub work_cap : ℕ
  pub target_workers : ℕ
  pub retire_requests : ℕ
  pub exec_concurrency : ℕ
  pub exec_queue_capacity : ℕ
  pub exec_ch : Option (List Job)
  pub exec_cap : ℕ
  pub exec_in_flight : ℕ
  pub exec_slot_freed : Bool
  pub event_preview_limit : ℕ
  pub handlers : Dict ℕ
  pub handler_classes : Dict JobClass
  pub cancel_map : Dict ℕ
  pub forced_pause : Dict (Unit {0})
  pub in_flight : ℕ
  pub next_context : ℕ
  pub cancelled : List ℕ
  pub held : Option Job
  pub restore_guard : Option RestoreGuard
  pub events : List Event

pub data Error : Type 0 where
  job_not_found job_not_pending job_not_paused cron_error store_error : Error

pub data Result {ℓ} (A : Type ℓ) : Type ℓ where
  ok : A → Result A
  err : Error → Result A

abbrev pub plain_event : EventType → Job → JobStatus → ℕ → Metadata → Event
plain_event t j status now meta = record {
  event_type = t;
  job_id = j.id;
  job_name = j.name;
  status = status;
  timestamp = now;
  error = none;
  result = none;
  metadata = meta;
}

-- A map read with the zero value for a missing key.
abbrev pub class_or_default : Option JobClass → JobClass
class_or_default none = class_default
class_or_default (some c) = c

abbrev pub find_id : String → List JobSnapshot → Option JobSnapshot
find_id k [] = none
find_id k (s ∷ rest) = ite (string_discrete s.id k) (some s) (find_id k rest)

abbrev pub is_cron : Job → Bool
is_cron j = j.is_repeat && ite (string_discrete j.cron_expr "") false true

-- A write to the store, where there is one; the callers log its error and go on.
abbrev pub on_store : {S : Type 0} → (S → S × Bool) → Option S → Option S
on_store write none = none
on_store write (some st) = some (write st).0

-- The id is `fresh` where the job has none; the zero time is replaced by now. A status of zero
-- is already StatusPending.
unfoldable pub filled : Job → ℕ → String → Job
filled j now fresh = record j {
  id = ite (string_discrete j.id "") fresh j.id;
  created_at = if j.created_at == 0 then now else j.created_at;
}

module _ {S : Type 0} where
  unfoldable pub publish : Scheduler S → Event → Scheduler S
  publish s e = record s { events = e ∷ s.events }

  unfoldable pub notify_new_job : Scheduler S → Scheduler S
  notify_new_job s = record s { new_job_ch = true }

  unfoldable pub notify_exec_slot : Scheduler S → Scheduler S
  notify_exec_slot s = record s { exec_slot_freed = true }

  unfoldable pub register_handler_class : Scheduler S → String → ℕ → JobClass → Scheduler S
  register_handler_class s job_type handler c = record s {
    handlers = Dict.insert job_type handler s.handlers;
    handler_classes = Dict.insert job_type c s.handler_classes;
  }

  unfoldable pub unregister_handler : Scheduler S → String → Bool × Scheduler S
  unregister_handler s job_type = (
    elim (Dict.lookup job_type s.handlers) [ none ↦ false | some _ ↦ true ],
    record s {
      handlers = Dict.delete job_type s.handlers;
      handler_classes = Dict.delete job_type s.handler_classes;
    },
  )

  unfoldable pub class_of_key : Scheduler S → String → JobClass
  class_of_key s key = class_or_default (Dict.lookup key s.handler_classes)

  unfoldable pub lookup_handler : Scheduler S → String → Option ℕ
  lookup_handler s key = Dict.lookup key s.handlers

  unfoldable pub is_running : Scheduler S → String → Bool
  is_running s id = elim (Dict.lookup id s.cancel_map) [ none ↦ false | some _ ↦ true ]

  unfoldable pub cancel_context : Scheduler S → ℕ → Scheduler S
  cancel_context s c = record s { cancelled = c ∷ s.cancelled }

  -- Whether a context was cancelled, and the state after.
  unfoldable pub cancel_running : Scheduler S → String → Bool × Scheduler S
  unfolding cancel_context
  cancel_running s id = elim (Dict.lookup id s.cancel_map) [
    | none ↦ (false, s)
    | some c ↦ (true, cancel_context s c)
  ]

  unfoldable pub exec_pool_enabled : Scheduler S → Bool
  exec_pool_enabled s = elim s.exec_ch [ none ↦ false | some _ ↦ true ]

  -- The class is stamped from the registry, so that dispatch does not look it up again.
  unfoldable pub stamped : Scheduler S → Job → Job
  stamped s j = record j { job_class = class_of_key s (handler_key j) }

  module _ (env : Env S) where
    unfoldable pub store_update : Scheduler S → ℕ → JobSnapshot → Scheduler S
    store_update s now snap = record s { store = on_store (env.store_ops.update now snap) s.store }

    unfoldable pub store_delete : Scheduler S → String → Scheduler S
    store_delete s id = record s { store = on_store (env.store_ops.delete id) s.store }

    unfoldable pub store_save : Scheduler S → ℕ → Job → Scheduler S
    store_save s now j = record s { store = on_store (env.store_ops.save now j) s.store }

    -- findSnapshot: nothing without a store, or where the store cannot be read.
    unfoldable pub find_snapshot : Scheduler S → String → Option JobSnapshot
    find_snapshot s id = do
      st ← s.store
      snapshots ← env.store_ops.load_all st
      find_id id snapshots

    -- Schedule with its job filled in: the class, the store, the heap, the signal and the event.
    unfoldable pub enqueue : Scheduler S → Job → ℕ → Option (Scheduler S × Job)
    unfolding stamped
    enqueue s j now =
        let j' = stamped s j in
        let saved = store_save s now j' in
        Heap.push_item saved.heap j' >>= λ h. some (
          publish (notify_new_job (record saved { heap = h })) (
              plain_event job_scheduled j' status_pending now
                (scheduled j'.trigger_at j'.is_repeat)),
          j',
        )

    unfoldable pub schedule : Scheduler S → Job → ℕ → String → Option (Scheduler S × Result Job)
    unfolding filled
    schedule s j now fresh =
        let j' = filled j now fresh in
        if is_cron j'
        then elim (env.cron_next j'.cron_expr now) [
          | none ↦ some (s, err cron_error)
          | some next ↦
              enqueue s (record j' { trigger_at = next }) now >>= λ (s', j''). some (s', ok j'')
        ]
        else (enqueue s j' now >>= λ (s', j''). some (s', ok j''))
