-- ===== src/Scheduler/Loop.antt =====
-- scheduleLoop, dispatch and the workers of core/scheduler.go, one turn at a time.
pub mod Fairness
use godelayq.Prelude.{
  ℕ, ◌+◌, ◌-◌, List, [], ◌∷◌, ◌++◌, Bool, true, false, ◌&&◌, ◌||◌, not, Option, none, some, leb,
  ltb, ◌==◌, if◌then◌else◌, length, ◌>>=◌,
}
use godelayq.Heap
use godelayq.Job.{Job, job_item}
use godelayq.Scheduler.{Scheduler, notify_exec_slot, exec_pool_enabled}
use godelayq.Scheduler.Execute.{is_exec}

-- How a turn of the loop ends: the loop returns, waits for a resume, is sending a job to the shared
-- queue, has put a job where it belongs, waits for a free slot of the executor queue, or waits for a
-- new job, for the given time where the heap is not empty.
pub data Turn : Type 0 where
  returned suspended_wait sending dispatched blocked_wait idle_wait : Turn
  timer_wait : ℕ → Turn

-- The jobs in a queue that may be off.
abbrev pub queued : Option (List Job) → List Job
queued none = []
queued (some q) = q

abbrev pub is_none : Option Job → Bool
is_none none = true
is_none (some j) = false

module _ {S : Type 0} where
  unfoldable pub dispatchable : Scheduler S → Job → Bool
  dispatchable s j =
      if not (is_exec j.job_class && exec_pool_enabled s)
      then true
      else ltb (length (queued s.exec_ch)) s.exec_cap

  unfoldable pub dispatch_exec : Scheduler S → Job → Option (Scheduler S × Turn)
  dispatch_exec s j =
      if s.stopping
      then some (s, returned)
      else if ltb (length (queued s.exec_ch)) s.exec_cap
      then some (record s { exec_ch = some (queued s.exec_ch ++ j ∷ []) }, dispatched)
      else (Heap.push_item s.heap j >>= λ h.
          some (notify_exec_slot (record s { heap = h }), dispatched))

  -- A send to the shared queue, which waits while the queue is full.
  unfoldable pub send : Scheduler S → Job → Scheduler S × Turn
  send s j =
      if s.stopping
      then (record s { held = none }, returned)
      else if ltb (length s.work_ch) s.work_cap
      then (record s { held = none; work_ch = s.work_ch ++ j ∷ [] }, dispatched)
      else (record s { held = some j }, sending)

  unfoldable pub dispatch : Scheduler S → Job → Option (Scheduler S × Turn)
  dispatch s j =
      if is_exec j.job_class && exec_pool_enabled s then dispatch_exec s j else some (send s j)

  -- No due job can be dispatched: the reason to wait.
  unfoldable pub wait_turn : Scheduler S → ℕ → Option (Scheduler S × Turn)
  wait_turn s now = Heap.has_due s.heap now >>= λ due.
      if due
      then some (s, blocked_wait)
      else some (
        s,
        elim (Heap.peek s.heap) [ none ↦ idle_wait | some j ↦ timer_wait (j.trigger_at - now) ],
      )

  -- A turn that takes a job out of the heap, or waits.
  unfoldable pub free_turn : Scheduler S → ℕ → Option (Scheduler S × Turn)
  free_turn s now = Heap.pop_if_due_where s.heap now (dispatchable s) >>= λ (popped, h).
      elim popped [ some j ↦ dispatch (record s { heap = h }) j | none ↦ wait_turn s now ]

  unfoldable pub turn_of : Option Job → Bool → Bool → Scheduler S → ℕ → Option (Scheduler S × Turn)
  turn_of (some j) stopping suspended s now = some (send s j)
  turn_of none true suspended s now = some (s, returned)
  turn_of none false true s now = some (s, suspended_wait)
  turn_of none false false s now = free_turn s now

  -- One turn of the loop. A select with several ready cases may take any; where the scheduler is
  -- stopping, the stop is taken.
  unfoldable pub loop_turn : Scheduler S → ℕ → Option (Scheduler S × Turn)
  unfolding turn_of
  loop_turn s now = turn_of s.held s.stopping s.suspended s now

  -- A shared worker first sees whether it is to retire. The counter is an int32, as a pattern of 32
  -- bits, and is tested for being positive.
  unfoldable pub should_retire : Scheduler S → Bool × Scheduler S
  should_retire s =
      if not (ltb 0 s.retire_requests && ltb s.retire_requests 2147483648)
      then (false, s)
      else (true, record s { retire_requests = s.retire_requests - 1 })

  abbrev pub take_work : Scheduler S → Scheduler S × Option Job
  take_work s = elim s.work_ch [ [] ↦ (s, none) | j ∷ rest ↦ (record s { work_ch = rest }, some j) ]

  abbrev pub take_exec : Scheduler S → Scheduler S × Option Job
  take_exec s = elim (queued s.exec_ch) [
    | [] ↦ (s, none)
    | j ∷ rest ↦ (notify_exec_slot (record s { exec_ch = some rest }), some j)
  ]

  -- A turn of a worker: the state, whether the worker ends, and the job that it runs next, the first of
  -- its queue. The select takes any case that is ready: `stop_first` says whether it is the stop, where
  -- there is a job too.
  unfoldable pub worker_turn : Scheduler S → Bool → Bool → Scheduler S × Bool × Option Job
  worker_turn s exec stop_first =
      let (retires, s1) = should_retire s in
      let (s2, j) = if exec then take_exec s else take_work s in
      if not exec && retires
      then (s1, true, none)
      else if s.stopping && (stop_first || is_none j)
      then (s, true, none)
      else (s2, false, j)
