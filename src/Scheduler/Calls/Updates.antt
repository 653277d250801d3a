-- ===== src/Scheduler/Calls/Updates.antt =====
-- What UpdatePending does with a job that waits, and with any other.
use godelayq.Prelude.{
  ℕ, ◌≡◌, ◌≢◌, refl, ◌⊎◌, inl, inr, Bool, true, Option, none, some, String, Returns, returns,
  Returns-bind, Option-cases, get_elem?, if◌then◌else◌,
}
use godelayq.Heap.{QuaternaryHeap}
use godelayq.Heap.Order.{WellFormed}
use godelayq.Heap.ById.{
  Absent, Got, got_none, got_some, Updated, updated_none, updated_some, update_lem, get_lem,
}
use godelayq.Job.{Job, job_item, status_pending, to_snapshot}
use godelayq.Scheduler.{
  Env, Scheduler, Result, ok, err, Error, job_not_found, job_not_pending, on_store, notify_new_job,
  store_update, find_snapshot,
}
use godelayq.Scheduler.Calls.{update_current, update_pending}

module _ {S : Type 0} (env : Env S) (apply : Job → Result Job) (now : ℕ) where
  -- The changed job, pending.
  abbrev pub renewed : Job → Job
  renewed j = record j { status = status_pending; updated_at = now }

  pub data Updates (s : Scheduler S) (id : String) : Scheduler S × Result Job → Type 0 where
    replaced :
        (i : ℕ) (j changed : Job) (h : QuaternaryHeap Job) (s' : Scheduler S)
        → get_elem? s.heap.items i ≡ some j
        → j.id ≡ id
        → apply j ≡ ok changed
        → Updated s.heap (renewed changed) (true, h)
        → s'.heap ≡ h
        → s'.store ≡ on_store (env.store_ops.update now (to_snapshot (renewed changed))) s.store
        → s'.new_job_ch ≡ true
        → Updates s id (s', ok (renewed changed))
    refused :
        (i : ℕ) (j : Job) (e : Error)
        → get_elem? s.heap.items i ≡ some j
        → j.id ≡ id
        → apply j ≡ err e
        → Updates s id (s, err e)
    renamed :
        (i : ℕ) (j changed : Job)
        → get_elem? s.heap.items i ≡ some j
        → j.id ≡ id
        → apply j ≡ ok changed
        → Absent s.heap changed.id
        → Updates s id (s, err job_not_pending)
    unknown : Absent s.heap id → find_snapshot env s id ≡ none → Updates s id (s, err job_not_found)
    not_waiting :
        Absent s.heap id → find_snapshot env s id ≢ none → Updates s id (s, err job_not_pending)

  Result-cases : (r : Result Job) → ((e : Error) × (r ≡ err e)) ⊎ ((j : Job) × (r ≡ ok j))
  Result-cases (err e) = inl (e, refl)
  Result-cases (ok j) = inr (j, refl)

  heap_lem :
      (s : Scheduler S) (id : String) (i : ℕ) (j changed : Job)
      → get_elem? s.heap.items i ≡ some j
      → j.id ≡ id
      → apply j ≡ ok changed
      → (r : Bool × QuaternaryHeap Job) → Updated s.heap (renewed changed) r
      → Returns (Updates s id) (
          if r.0
          then some (
            notify_new_job
                (store_update env (record s { heap = r.1 }) now (to_snapshot (renewed changed))),
            ok (renewed changed),
          )
          else some (s, err job_not_pending))
  unfolding notify_new_job store_update
  heap_lem s id i j changed at same good _ (updated_none gone) =
      returns (renamed i j changed at same good gone)
  heap_lem s id i j changed at same good _ (updated_some y h e v p) =
      returns (replaced i j changed h _ at same good (updated_some y h e v p) refl refl refl)

  current_lem :
      (s : Scheduler S) (id : String) (i : ℕ) (j : Job)
      → WellFormed s.heap
      → get_elem? s.heap.items i ≡ some j
      → j.id ≡ id
      → Returns (Updates s id) (update_current env s j apply now)
  unfolding update_current
  current_lem s id i j v at same = elim (Result-cases (apply j)) [
    | inl (e, bad) ↦ rw (bad, update_current) (returns (refused i j e at same bad))
    | inr (changed, good) ↦
        rw (good, update_current)
          (Returns-bind (update_lem s.heap v (renewed changed))
            λ r p. heap_lem s id i j changed at same good r p)
  ]

  found_lem :
      (s : Scheduler S) (id : String) (found : Option Job)
      → WellFormed s.heap
      → Got s.heap id found
      → Returns (Updates s id) (elim found [
        | none ↦ elim (find_snapshot env s id) [
          | none ↦ some (s, err job_not_found)
          | some _ ↦ some (s, err job_not_pending)
        ]
        | some current ↦ update_current env s current apply now
      ])
  found_lem s id _ v (got_some i j at same) = current_lem s id i j v at same
  found_lem s id _ v (got_none gone) = elim (Option-cases (find_snapshot env s id)) [
    | inl missing ↦ rw missing (returns (unknown gone missing))
    | inr (snap, stored) ↦ rw stored (returns (not_waiting gone (λ missing. cc)))
  ]

  -- UpdatePending with a well-formed heap returns. A waiting job is replaced by what `apply` makes of
  -- it, pending: in the heap, which stays well formed with the other jobs, and in the store, and the
  -- loop is woken. Nothing changes where `apply` fails or gives the job an id that does not wait,
  -- where the job is stored but does not wait, and where the id is unknown; each is refused with its
  -- error.
  pub update_pending_lem :
      (s : Scheduler S) (id : String)
      → WellFormed s.heap
      → Returns (Updates s id) (update_pending env s id apply now)
  unfolding update_pending
  update_pending_lem s id v = Returns-bind (get_lem s.heap v id) λ found g. found_lem s id found v g
