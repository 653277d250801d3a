-- ===== src/Scheduler/Lifecycle/Starts.antt =====
-- What Start and Stop leave.
use godelayq.Prelude.{
  ℕ, ◌<◌, ◌≡◌, refl, sym, ap, ◌∙◌, List, [], ◌∷◌, ◌++◌, true, false, ◌||◌, Option, none, some,
  String, arith, if◌then◌else◌, ltb, ◌+◌, has_num, Returns, returns, Returns-bind, Returns-if,
  string_discrete, if_pos, if_neg, subst,
}
use godelayq.Dict
use godelayq.Dict.{Dict}
use godelayq.Int64.{positive64}
use godelayq.Heap.Order.{WellFormed}
use godelayq.Heap.Once.{count_id}
use godelayq.Job.{JobSnapshot, job_item}
use godelayq.Scheduler.{Env, Scheduler, Result}
use godelayq.Scheduler.Workers.{Balanced, to_int32}
use godelayq.Scheduler.Restore.Revived.{Kept, Kept-refl, revived}
use godelayq.Scheduler.Restore.Ends.{RestoreEnd, no_store, unreadable, read, restore_lem}
use godelayq.Scheduler.Lifecycle.{contexts, reset_for_start, start, stop}

module _ {S : Type 0} (env : Env S) where
  -- The loop may run, the queues are empty, and the workers are as many as the counts say. Restore has
  -- run; where it has read the store, an id is in the well-formed heap, once, exactly if it was before
  -- or it is stored for a job that is neither finished nor paused and that the guard lets pass.
  pub record Started (s : Scheduler S) (r : Scheduler S × (ℕ × ℕ)) : Type 0 where
    pub well_formed : WellFormed r.0.heap
    pub switches : (r.0.running ≡ true) × (r.0.stopping ≡ false) × (r.0.suspended ≡ false)
    pub work : r.0.work_ch ≡ []
    pub exec : r.0.exec_ch ≡ (if positive64 s.exec_concurrency then some [] else none)
    pub balanced : s.concurrency < 2147483648 → Balanced r.1.0 r.0
    pub heap_kept :
        (s.store ≡ none → r.0.heap ≡ s.heap)
        × ((st : S) → s.store ≡ some st → env.store_ops.load_all st ≡ none → r.0.heap ≡ s.heap)
    pub ids :
        (st : S) (l : List JobSnapshot) (k : String)
        → s.store ≡ some st
        → env.store_ops.load_all st ≡ some l
        → count_id k r.0.heap.items
          ≡ (if ltb 0 (count_id k s.heap.items) || revived s.restore_guard k l then 1 else 0)

  int32_small :
      (n target retire : ℕ)
      → n < 2147483648
      → target ≡ to_int32 n
      → retire ≡ 0
      → n ≡ target + retire
  int32_small n target retire small e f = ground arith

  started :
      (s s' : Scheduler S) (n : ℕ)
      → WellFormed s'.heap
      → Kept (reset_for_start s) s'
      → (s.store ≡ none → s'.heap ≡ s.heap)
        × ((st : S) → s.store ≡ some st → env.store_ops.load_all st ≡ none → s'.heap ≡ s.heap)
      → ((st : S) (l : List JobSnapshot) (k : String)
          → s.store ≡ some st
          → env.store_ops.load_all st ≡ some l
          → count_id k s'.heap.items
            ≡ (if ltb 0 (count_id k s.heap.items) || revived s.restore_guard k l then 1 else 0))
      → Started s (s', (s.concurrency, n))
  unfolding reset_for_start
  started s s' n v kept h ids = record {
    well_formed = v;
    switches = kept.switches;
    work = kept.work;
    exec = kept.exec;
    balanced = λ small.
        int32_small s.concurrency s'.target_workers s'.retire_requests small kept.workers.0
          kept.workers.1;
    heap_kept = h;
    ids = ids;
  }

  after_restore :
      (s : Scheduler S) (n : ℕ)
      → WellFormed s.heap
      → (r : Scheduler S × Result (Unit {0})) → RestoreEnd env (reset_for_start s) r
      → Started s (r.0, (s.concurrency, n))
  unfolding reset_for_start
  after_restore s n v _ (no_store e) =
      started s (reset_for_start s) n v (Kept-refl (reset_for_start s)) (λ _. refl, λ st _ _. refl)
        (λ st l k has. absurd (cc))
  after_restore s n v _ (unreadable st has bad) =
      started s (reset_for_start s) n v (Kept-refl (reset_for_start s)) (λ _. refl, λ st _ _. refl)
        (λ st1 l k e f.
          absurd (let same : st ≡ st1 = cc in let again = ap env.store_ops.load_all same in cc))
  after_restore s n v _ (read st l s' has good r) =
      started s s' n r.well_formed r.kept
        (
          λ e. absurd (cc),
          λ st1 e f.
              absurd (let same : st ≡ st1 = cc in let again = ap env.store_ops.load_all same in cc),
        )
        (λ st1 l1 k e f.
          let same : st ≡ st1 = cc in
          let again = ap env.store_ops.load_all same in
          let list : l ≡ l1 = cc in
          subst
            (λ x.
              count_id k s'.heap.items
              ≡ (if ltb 0 (count_id k s.heap.items) || revived s.restore_guard k x then 1 else 0))
            list (r.ids k))

  -- Start of a scheduler that is not running, with a well-formed heap, returns. The loop may run, the
  -- queues are empty, and the workers are as many as the counts say. Without a store that can be read
  -- the heap is as it was; with one, an id is in the heap, once, exactly if it was before or it is
  -- stored for a job that is neither finished nor paused and that the guard lets pass, whatever queue
  -- it stood in before.
  pub start_lem :
      (s : Scheduler S) (now : ℕ)
      → WellFormed s.heap
      → s.running ≡ false
      → Returns (Started s) (start env s now)
  unfolding start reset_for_start
  start_lem s now v off =
      Returns-if s.running (λ on. absurd (cc))
        λ _.
          Returns-bind (restore_lem env (reset_for_start s) now v)
            λ r e. returns (after_restore s _ v r e)

context_told :
    (id : String) (c : ℕ) (m : Dict ℕ) (l : List ℕ)
    → Dict.lookup id m ≡ some c
    → has_num c (contexts m ++ l) ≡ true
unfolding contexts Dict.lookup
context_told id c [] l e = absurd (cc)
context_told id c ((j, d) ∷ m) l e = elim (string_discrete j id) [
  | yes same ↦
      let first = if_pos {C = Option ℕ} (string_discrete j id) same (some d) (Dict.lookup id m) in
      let is : c ≡ d = cc in ground arith
  | no other ↦
      let later = if_neg {C = Option ℕ} (string_discrete j id) other (some d) (Dict.lookup id m) in
      let found = context_told id c m l (sym later ∙ e) in ground arith
]

module _ {S : Type 0} where
  -- The stop signal is set and each run of the map was told to stop.
  pub record Stopped (s s' : Scheduler S) : Type 0 where
    pub off : s'.running ≡ false
    pub stopping : s'.stopping ≡ true
    pub told :
        (id : String) (c : ℕ) → Dict.lookup id s.cancel_map ≡ some c → has_num c s'.cancelled ≡ true
    pub heap_kept : s'.heap ≡ s.heap
    pub store_kept : s'.store ≡ s.store
    pub work_kept : s'.work_ch ≡ s.work_ch
    pub exec_kept : s'.exec_ch ≡ s.exec_ch

  -- Stop of a running scheduler tells every run to stop by its context, and the loop and the workers
  -- by the stop signal; the heap, the store and the queues are left alone.
  pub stop_lem : (s : Scheduler S) → s.running ≡ true → Stopped s (stop s)
  unfolding stop
  stop_lem s on =
      subst
        (λ b. Stopped s (
          if b
          then record s {
            running = false;
            stopping = true;
            cancelled = contexts s.cancel_map ++ s.cancelled;
          }
          else s))
        (sym on)
        (record {
          off = refl;
          stopping = refl;
          told = λ id c e. context_told id c s.cancel_map s.cancelled e;
          heap_kept = refl;
          store_kept = refl;
          work_kept = refl;
          exec_kept = refl;
        })
