-- ===== src/Scheduler/Loop/Fairness.antt =====
-- Where a turn of the loop puts a due job, and when it waits.
use godelayq.Prelude.{
  ℕ, ◌≡◌, ap, subst, sym, ◌∙◌, ◌≤◌, ◌<◌, refl, inl, inr, true, false, ◌&&◌, [], ◌∷◌, ◌++◌, Option,
  none, some, arith, ltb, length, get_elem?, Returns, returns, Returns-bind, Returns-map,
  Returns-if, Bool-cases, Option-cases, Bool, ◌-◌, if◌then◌else◌,
}
use godelayq.Heap
use godelayq.Heap.{Item}
use godelayq.Heap.Order.{WellFormed}
use godelayq.Heap.Calls.{Popped, kept, took, Finds, pop_if_due_where_lem, has_due_lem}
use godelayq.Job.{Job, job_item}
use godelayq.Scheduler.{Scheduler, exec_pool_enabled}
use godelayq.Scheduler.Execute.{is_exec}
use godelayq.Scheduler.Loop.{
  queued, Turn, sending, dispatched, blocked_wait, idle_wait, timer_wait, dispatchable,
  dispatch_exec, send, dispatch, wait_turn, free_turn, turn_of, loop_turn,
}

module _ {S : Type 0} where
  -- Where a job that the loop took out of the heap stands now: one of the executors, while they have a
  -- pool, at the end of their queue, which had room; any other at the end of the shared queue, which had room; or in the loop's hands, as the
  -- shared queue is full.
  pub data Placed (s : Scheduler S) (j : Job) : Scheduler S × Turn → Type 0 where
    in_exec :
        is_exec j.job_class && exec_pool_enabled s ≡ true
        → length (queued s.exec_ch) < s.exec_cap
        → (s' : Scheduler S) → s'.exec_ch ≡ some (queued s.exec_ch ++ j ∷ [])
        → s'.work_ch ≡ s.work_ch
        → s'.heap ≡ s.heap
        → Placed s j (s', dispatched)
    in_work :
        is_exec j.job_class && exec_pool_enabled s ≡ false
        → length s.work_ch < s.work_cap
        → (s' : Scheduler S) → s'.work_ch ≡ s.work_ch ++ j ∷ []
        → s'.exec_ch ≡ s.exec_ch
        → s'.heap ≡ s.heap
        → Placed s j (s', dispatched)
    in_hands :
        is_exec j.job_class && exec_pool_enabled s ≡ false
        → s.work_cap ≤ length s.work_ch
        → (s' : Scheduler S) → s'.held ≡ some j
        → s'.work_ch ≡ s.work_ch
        → s'.exec_ch ≡ s.exec_ch
        → s'.heap ≡ s.heap
        → Placed s j (s', sending)

  -- What the loop waits for: a free slot of the executor queue, where a job is due; a new job, where
  -- the heap is empty; or the time of the first job, where none is due.
  pub data Waits (s : Scheduler S) (now : ℕ) : Turn → Type 0 where
    for_slot : Finds s.heap.items now true → Waits s now blocked_wait
    for_job : Heap.peek s.heap ≡ none → Finds s.heap.items now false → Waits s now idle_wait
    for_time :
        (j : Job)
        → Heap.peek s.heap ≡ some j
        → Finds s.heap.items now false
        → Waits s now (timer_wait (j.trigger_at - now))

  -- What a turn does with its due jobs: it places one that may be dispatched, such that no other
  -- such job is earlier; or no due job may be dispatched and it waits.
  pub data TurnEnd (s : Scheduler S) (now : ℕ) : Scheduler S × Turn → Type 0 where
    placed :
        (j : Job) (h : Heap.QuaternaryHeap Job) (r : Scheduler S × Turn)
        → Popped s.heap now (dispatchable s) (some j, h)
        → Placed (record s { heap = h }) j r
        → TurnEnd s now r
    waits :
        (t : Turn)
        → Waits s now t
        → ((i : ℕ) (y : Job)
            → get_elem? s.heap.items i ≡ some y
            → dispatchable s y ≡ true
            → now < y.trigger_at)
        → TurnEnd s now (s, t)

  dispatch_lem :
      (s : Scheduler S) (j : Job)
      → s.stopping ≡ false
      → dispatchable s j ≡ true
      → Returns (Placed s j) (dispatch s j)
  unfolding dispatch dispatch_exec send dispatchable exec_pool_enabled
  dispatch_lem s j going fits =
      Returns-if (is_exec j.job_class && exec_pool_enabled s)
        (λ exec. rw going (
          Returns-if (ltb (length (queued s.exec_ch)) s.exec_cap)
            (λ room. returns (in_exec exec (ground arith) _ refl refl refl))
            (λ full. absurd (ground arith))))
        (λ shared. rw going (elim (Bool-cases (ltb (length s.work_ch) s.work_cap)) [
          | inl room ↦ rw room (returns (in_work shared (ground arith) _ refl refl refl))
          | inr full ↦ rw full (returns (in_hands shared (ground arith) _ refl refl refl refl))
        ]))

  wait_lem :
      (s : Scheduler S) (now : ℕ) (due : Bool)
      → Finds s.heap.items now due
      → ((i : ℕ) (y : Job)
          → get_elem? s.heap.items i ≡ some y
          → dispatchable s y ≡ true
          → now < y.trigger_at)
      → Returns (TurnEnd s now) (
          if due
          then some (s, blocked_wait)
          else some (
            s,
            elim (Heap.peek s.heap) [ none ↦ idle_wait | some j ↦ timer_wait (j.trigger_at - now) ],
          ))
  wait_lem s now true found none_due = returns (waits blocked_wait (for_slot found) none_due)
  wait_lem s now false found none_due = elim (Option-cases (Heap.peek s.heap)) [
    | inl nothing ↦ rw nothing (returns (waits idle_wait (for_job nothing found) none_due))
    | inr (j, first) ↦ rw first (returns (waits _ (for_time j first found) none_due))
  ]

  turn_lem :
      (s : Scheduler S) (now : ℕ)
      → (r : Option Job × Heap.QuaternaryHeap Job) → WellFormed s.heap
      → s.stopping ≡ false
      → Popped s.heap now (dispatchable s) r
      → Returns
          (TurnEnd s now)
          (elim r.0 [ some j ↦ dispatch (record s { heap = r.1 }) j | none ↦ wait_turn s now ])
  unfolding wait_turn dispatchable exec_pool_enabled
  turn_lem s now _ v going (kept none_due) =
      Returns-bind (has_due_lem s.heap now v) λ due found. wait_lem s now due found none_due
  turn_lem s now _ v going (took x r gone on due first) =
      Returns-map
        (dispatch_lem (record s { heap = r.1 }) r.0 going (ap (dispatchable s) gone.same ∙ on))
        λ t p. placed r.0 r.1 t (took x r gone on due first) p

  free_lem :
      (s : Scheduler S) (now : ℕ)
      → s.stopping ≡ false
      → s.suspended ≡ false
      → s.held ≡ none
      → loop_turn s now ≡ free_turn s now
  unfolding loop_turn turn_of
  free_lem s now going active free =
      ap (λ h. turn_of h s.stopping s.suspended s now) free
      ∙ ap (λ b. turn_of none b s.suspended s now) going
      ∙ ap (λ b. turn_of none false b s now) active

  -- A turn of the loop that is neither stopping, nor suspended, nor sending a job returns, where the
  -- heap is well formed. If a due
  -- job may be dispatched, then such a job, of the earliest time, is out of the heap and at the end
  -- of the queue of its class, or in the loop's hands while the shared queue is full; a job never goes back into
  -- the heap. Else no due job may be dispatched, and the loop waits:
  -- for a slot of the executor queue, a new job or the time of the first job.
  pub loop_turn_lem :
      (s : Scheduler S) (now : ℕ)
      → WellFormed s.heap
      → s.stopping ≡ false
      → s.suspended ≡ false
      → s.held ≡ none
      → Returns (TurnEnd s now) (loop_turn s now)
  unfolding loop_turn
  loop_turn_lem s now v going active free =
      subst (Returns (TurnEnd s now)) (sym (free_lem s now going active free)) (
        unfold free_turn in
        Returns-bind (pop_if_due_where_lem s.heap now (dispatchable s) v)
          λ r p. turn_lem s now r v going p)
