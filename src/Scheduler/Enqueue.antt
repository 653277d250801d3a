-- ===== src/Scheduler/Enqueue.antt =====
-- The heap, the store and the result after Schedule.
use godelayq.Prelude.{
  ◌>>=◌, ℕ, ◌≡◌, refl, sym, ◌∙◌, ap, ◌⊎◌, inl, inr, true, false, none, some, String, Returns,
  returns, Returns-bind, Bool-cases, Option-cases, subst,
}
use godelayq.Dict
use godelayq.Heap.Order.{WellFormed}
use godelayq.Heap.Insert.{Pushed, push_item_lem}
use godelayq.Job.{Job, job_item, handler_key}
use godelayq.Scheduler.{
  Env, Scheduler, Result, ok, err, cron_error, on_store, publish, notify_new_job, class_of_key,
  store_save, stamped, enqueue, is_cron, filled, schedule,
}

module _ {S : Type 0} (env : Env S) where
  -- `j` was put into the heap and the store, the loop was woken, and the rest was left alone.
  pub record Enqueued (s : Scheduler S) (j : Job) (now : ℕ) (s' : Scheduler S) : Type 0 where
    pub pushed : Pushed s.heap j s'.heap
    pub saved : s'.store ≡ on_store (env.store_ops.save now j) s.store
    pub signalled : s'.new_job_ch ≡ true
    pub work_kept : s'.work_ch ≡ s.work_ch
    pub exec_kept : s'.exec_ch ≡ s.exec_ch
    pub runs_kept : s'.cancel_map ≡ s.cancel_map
    pub flags_kept : s'.forced_pause ≡ s.forced_pause

  pub enqueue_lem :
      (s : Scheduler S) (j : Job) (now : ℕ)
      → WellFormed s.heap
      → Dict.lookup j.id s.heap.index_map ≡ none
      → Returns (λ r. Enqueued s (stamped s j) now r.0 × (r.1 ≡ stamped s j)) (enqueue env s j now)
  unfolding enqueue store_save publish notify_new_job
  enqueue_lem s j now v fresh = Returns-bind (push_item_lem s.heap (stamped s j) v fresh) λ h p.
      returns (
        record {
          pushed = p;
          saved = refl;
          signalled = refl;
          work_kept = refl;
          exec_kept = refl;
          runs_kept = refl;
          flags_kept = refl;
        },
        refl,
      )

  -- What Schedule returns: the error of an expression that the cron library refuses, with nothing
  -- changed; or the job with its id, its class and its time, which is in the heap and the store.
  pub data Scheduled (s : Scheduler S) (j : Job) (now : ℕ) (fresh : String)
      : Scheduler S × Result Job → Type 0 where
    refused :
        is_cron j ≡ true
        → env.cron_next j.cron_expr now ≡ none
        → Scheduled s j now fresh (s, err cron_error)
    accepted :
        (s' : Scheduler S) (j' : Job)
        → Enqueued s j' now s'
        → j'.id ≡ (filled j now fresh).id
        → j'.job_class ≡ class_of_key s (handler_key j)
        → (j'.handler ≡ j.handler) × (j'.status ≡ j.status)
        → ((is_cron j ≡ true) × (env.cron_next j.cron_expr now ≡ some j'.trigger_at))
          ⊎ ((is_cron j ≡ false) × (j'.trigger_at ≡ j.trigger_at))
        → Scheduled s j now fresh (s', ok j')

  -- Schedule of a job whose id is not in the well-formed heap returns: with an error and nothing
  -- changed if the cron library refuses the expression of a cron job, and else with the job, under
  -- its id and class and at its time, in the heap and the store, and the loop woken.
  pub schedule_lem :
      (s : Scheduler S) (j : Job) (now : ℕ) (fresh : String)
      → WellFormed s.heap
      → Dict.lookup (filled j now fresh).id s.heap.index_map ≡ none
      → Returns (Scheduled s j now fresh) (schedule env s j now fresh)
  unfolding schedule stamped filled handler_key
  schedule_lem s j now fresh v absent = elim (Bool-cases (is_cron j)) [
    | inl cron ↦ elim (Option-cases (env.cron_next j.cron_expr now)) [
      | inl bad ↦ rw (cron, bad, schedule) (returns (refused cron bad))
      | inr (next, good) ↦
          rw (cron, good, schedule)
            (Returns-bind
              (enqueue_lem s (record (filled j now fresh) { trigger_at = next }) now v absent)
              λ r (q, same). returns (
                accepted r.0 r.1 (subst (λ k. Enqueued s k now r.0) (sym same) q)
                  (ap (λ k. k.id) same) (ap (λ k. k.job_class) same)
                  (ap (λ k. k.handler) same, ap (λ k. k.status) same)
                  (inl (cron, good ∙ ap (λ k. some k.trigger_at) (sym same)))))
    ]
    | inr once ↦ rw once (
        Returns-bind (enqueue_lem s (filled j now fresh) now v absent) λ r (q, same). returns (
          accepted r.0 r.1 (subst (λ k. Enqueued s k now r.0) (sym same) q) (ap (λ k. k.id) same)
            (ap (λ k. k.job_class) same) (ap (λ k. k.handler) same, ap (λ k. k.status) same)
            (inr (once, ap (λ k. k.trigger_at) same))))
  ]

  -- Schedule of a job that is no cron job, its result dropped.
  pub schedule_once :
      (s : Scheduler S) (j : Job) (now : ℕ) (fresh : String)
      → WellFormed s.heap
      → Dict.lookup (filled j now fresh).id s.heap.index_map ≡ none
      → is_cron (filled j now fresh) ≡ false
      → Returns
          (Enqueued s (stamped s (filled j now fresh)) now)
          (schedule env s j now fresh >>= λ r. some r.0)
  unfolding schedule
  schedule_once s j now fresh v absent once = rw once (
      Returns-bind {Q = λ t. Enqueued s (stamped s (filled j now fresh)) now t.0}
        (Returns-bind (enqueue_lem s (filled j now fresh) now v absent) λ r q. returns q.0)
        λ r q. returns q)

  -- Schedule of a cron job whose next time is known, its result dropped.
  pub schedule_cron :
      (s : Scheduler S) (j : Job) (now next : ℕ) (fresh : String)
      → WellFormed s.heap
      → Dict.lookup (filled j now fresh).id s.heap.index_map ≡ none
      → is_cron (filled j now fresh) ≡ true
      → env.cron_next (filled j now fresh).cron_expr now ≡ some next
      → Returns
          (Enqueued s (stamped s (record (filled j now fresh) { trigger_at = next })) now)
          (schedule env s j now fresh >>= λ r. some r.0)
  unfolding schedule
  schedule_cron s j now next fresh v absent cron good =
      let j' : Job = record (filled j now fresh) { trigger_at = next } in
      rw (cron, good, schedule)
        (Returns-bind {Q = λ t. Enqueued s (stamped s j') now t.0}
          (Returns-bind (enqueue_lem s j' now v absent) λ r q. returns q.0) λ r q. returns q)
