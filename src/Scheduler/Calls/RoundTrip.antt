-- ===== src/Scheduler/Calls/RoundTrip.antt =====
-- Pause and then Resume of a job that waits.
use godelayq.Prelude.{
  ℕ, ◌≡◌, ◌≢◌, refl, sym, ap, ◌∙◌, ◌⊎◌, inl, inr, List, ◌∷◌, true, false, Option, none, some,
  String, ◌==◌, Returns, Returns-bind, Returns-map, get_elem?, Perm, ◌>>=◌, subst,
}
use godelayq.Dict
use godelayq.Dict.{Dict}
use godelayq.Heap.{QuaternaryHeap}
use godelayq.Heap.Order.{WellFormed}
use godelayq.Heap.Once.{Removed-absent}
use godelayq.Heap.ById.{Removed-inv}
use godelayq.Job.{
  Job, JobSnapshot, job_item, status_paused, status_pending, to_snapshot, from_snapshot, zero_job,
  handler_key,
}
use godelayq.Scheduler.{
  Env, Scheduler, Result, ok, err, cron_error, is_cron, is_running, lookup_handler, find_snapshot,
  find_id, on_store,
}
use godelayq.Scheduler.Laws.{StoreLaws}
use godelayq.Scheduler.Enqueue.{refused, accepted}
use godelayq.Scheduler.Calls.{with_handler, paused_job, resumed_job, pause, resume}
use godelayq.Scheduler.Calls.Pauses.{
  Pauses, was_waiting, was_running, was_paused, was_unknown, pause_lem,
}
use godelayq.Scheduler.Calls.Resumes.{
  Resumes, unknown, not_paused, still_running, not_scheduled, scheduled, resume_lem,
}

module _ {S : Type 0} (env : Env S) where
  -- The job `x` that was waiting is waiting again, at its old time or a cron job at its next one; or
  -- it is a cron job whose expression the cron library refuses, and then it is still stored as paused.
  pub data RoundTrip (s : Scheduler S) (id : String) (now later : ℕ)
      : Scheduler S × Result Job → Type 0 where
    back :
        (x j : Job) (rest : List Job) (s' : Scheduler S)
        → x.id ≡ id
        → Perm (x ∷ rest) s.heap.items
        → j.id ≡ id
        → Perm s'.heap.items (j ∷ rest)
        → WellFormed s'.heap
        → ((is_cron x ≡ true) × (env.cron_next x.cron_expr later ≡ some j.trigger_at))
          ⊎ ((is_cron x ≡ false) × (j.trigger_at ≡ x.trigger_at))
        → RoundTrip s id now later (s', ok j)
    held_back :
        (x : Job) (s' : Scheduler S)
        → x.id ≡ id
        → Perm (x ∷ s'.heap.items) s.heap.items
        → is_cron x ≡ true
        → env.cron_next x.cron_expr later ≡ none
        → find_snapshot env s' id ≡ some (to_snapshot (paused_job env x now))
        → RoundTrip s id now later (s', err cron_error)

  module _ (Valid : S → Type 0) (laws : StoreLaws env.store_ops Valid) (s : Scheduler S) (st : S)
      (has_store : s.store ≡ some st) (valid : Valid st) where
    found_paused :
        (s1 : Scheduler S) (x : Job) (now : ℕ)
        → s1.store
          ≡ on_store (env.store_ops.update now (to_snapshot (paused_job env x now))) s.store
        → find_snapshot env s1 x.id ≡ some (to_snapshot (paused_job env x now))
    unfolding find_snapshot to_snapshot
    found_paused s1 x now e =
        let snap = to_snapshot (paused_job env x now) in
        let has : s1.store ≡ some (env.store_ops.update now snap st).0 =
          e ∙ ap (on_store (env.store_ops.update now snap)) has_store in
        ap (λ (o : Option S). o >>= λ t. env.store_ops.load_all t >>= find_id x.id) has
        ∙ laws.stored-update now snap st valid refl

    -- The job that is resumed keeps the time and the expression of the job that was paused.
    kept :
        (o : Option ℕ) (x : Job) (now later : ℕ)
        → (resumed : Job)
        → resumed
          ≡ record (with_handler env o
              (from_snapshot zero_job (to_snapshot (paused_job env x now)))) {
                status = status_pending;
                updated_at = later;
              }
        → (resumed.trigger_at ≡ x.trigger_at)
          × (resumed.cron_expr ≡ x.cron_expr)
          × (is_cron resumed ≡ is_cron x)
    unfolding from_snapshot to_snapshot
    kept none x now later resumed e =
        (ap (λ (k : Job). k.trigger_at) e, ap (λ (k : Job). k.cron_expr) e, ap is_cron e)
    kept (some h) x now later resumed e =
        (ap (λ (k : Job). k.trigger_at) e, ap (λ (k : Job). k.cron_expr) e, ap is_cron e)

    paused_status :
        (x : Job) (now : ℕ) → ((to_snapshot (paused_job env x now)).status == status_paused) ≢ false
    unfolding to_snapshot
    paused_status x now e = cc

    -- What Resume makes of the snapshot that Pause wrote.
    resumed_kept :
        (s1 : Scheduler S) (snap : JobSnapshot) (x : Job) (now later : ℕ)
        → find_snapshot env s1 x.id ≡ some (to_snapshot (paused_job env x now))
        → find_snapshot env s1 x.id ≡ some snap
        → ((resumed_job env s1 snap later).trigger_at ≡ x.trigger_at)
          × ((resumed_job env s1 snap later).cron_expr ≡ x.cron_expr)
          × (is_cron (resumed_job env s1 snap later) ≡ is_cron x)
    unfolding resumed_job
    resumed_kept s1 snap x now later found f =
        let is : snap ≡ to_snapshot (paused_job env x now) = cc in
        kept (lookup_handler s1 (handler_key (from_snapshot zero_job snap))) x now later
          (resumed_job env s1 snap later)
          (ap
            (λ (t : JobSnapshot).
              record (with_handler env
                (lookup_handler s1 (handler_key (from_snapshot zero_job snap)))
                (from_snapshot zero_job t)) { status = status_pending; updated_at = later })
            is)

    resumed_lem :
        (id : String) (x : Job) (s1 : Scheduler S) (now later : ℕ) (fresh : String)
        → x.id ≡ id
        → Perm (x ∷ s1.heap.items) s.heap.items
        → s1.store
          ≡ on_store (env.store_ops.update now (to_snapshot (paused_job env x now))) s.store
        → is_running s1 id ≡ false
        → (r : Scheduler S × Result Job) → Resumes env s1 id later fresh r
        → RoundTrip s id now later r
    resumed_lem id x s1 now later fresh same items saved idle _ (unknown missing) =
        let found = found_paused s1 x now saved in
        let there = ap (λ k. find_snapshot env s1 k) same in absurd (cc)
    resumed_lem id x s1 now later fresh same items saved idle _ (not_paused snap f st) =
        let found = found_paused s1 x now saved in
        let there = ap (λ k. find_snapshot env s1 k) same in
        let is : snap ≡ to_snapshot (paused_job env x now) = cc in
        let st1 = ap (λ (k : JobSnapshot). k.status == status_paused) is in
        absurd (paused_status x now (sym st1 ∙ st))
    resumed_lem id x s1 now later fresh same items saved idle _ (still_running runs) = absurd (cc)
    resumed_lem id x s1 now later fresh same items saved idle _
          (not_scheduled snap s2 e f (refused cron bad)) =
        let found = found_paused s1 x now saved in
        let there = ap (λ k. find_snapshot env s1 k) same in
        let (at, expr, kind) = resumed_kept s1 snap x now later found (there ∙ f) in
        held_back x s1 same items (sym kind ∙ cron)
          (sym (ap (λ c. env.cron_next c later) expr) ∙ bad) (sym there ∙ found)
    resumed_lem id x s1 now later fresh same items saved idle _
          (scheduled snap j s2 s3 f st q
            (accepted _ _ enq jid cls bound time)
            jd
            hd
            pend
            h3
            st3
            ch) =
        let found = found_paused s1 x now saved in
        let there = ap (λ k. find_snapshot env s1 k) same in
        let (at, expr, kind) = resumed_kept s1 snap x now later found (there ∙ f) in
        back x j s1.heap.items s3 same items jd
          (subst (λ (h : QuaternaryHeap Job). Perm h.items (j ∷ s1.heap.items)) (sym h3)
            enq.pushed.items)
          (subst (λ (h : QuaternaryHeap Job). WellFormed h) (sym h3) enq.pushed.well_formed)
          (elim time [
            | inl (cron, next) ↦
                inl (sym kind ∙ cron, sym (ap (λ c. env.cron_next c later) expr) ∙ next)
            | inr (once, same_time) ↦ inr (sym kind ∙ once, same_time ∙ at)
          ])

    is_running_same :
        (s1 s2 : Scheduler S) (id : String)
        → s1.cancel_map ≡ s2.cancel_map
        → is_running s1 id ≡ is_running s2 id
    unfolding is_running
    is_running_same s1 s2 id e =
        ap (λ (m : Dict ℕ). elim (Dict.lookup id m) [ none ↦ false | some _ ↦ true ]) e

    then_resumed :
        (id : String) (i : ℕ) (j : Job) (now later : ℕ) (fresh : String)
        → WellFormed s.heap
        → id ≢ ""
        → get_elem? s.heap.items i ≡ some j
        → j.id ≡ id
        → is_running s id ≡ false
        → (r : Scheduler S × Result Job) → Pauses env s id now r
        → Returns (RoundTrip s id now later) (resume env r.0 id later fresh)
    then_resumed id i j now later fresh v ne at same idle _
          (was_waiting x h s1 by h1 saved woken runs told flags) =
        let (taken, named) = Removed-inv id s.heap h x (some x, h) by refl in
        let gone = Removed-absent id s.heap x (x, h) v taken named in
        let wf = subst WellFormed (sym h1) taken.well_formed in
        Returns-map
          (resume_lem env s1 id later fresh wf ne
            (ap (λ (g : QuaternaryHeap Job). Dict.lookup id g.index_map) h1 ∙ gone))
          (λ r p.
            resumed_lem id x s1 now later fresh named
              (subst (λ (g : QuaternaryHeap Job). Perm (x ∷ g.items) s.heap.items) (sym h1)
                taken.items)
              saved (is_running_same s1 s id runs ∙ idle) r p)
    then_resumed id i j now later fresh v ne at same idle _ (was_running absent runs) =
        absurd (absent i j at same)
    then_resumed id i j now later fresh v ne at same idle _ (was_paused snap absent q f st) =
        absurd (absent i j at same)
    then_resumed id i j now later fresh v ne at same idle _ (was_unknown absent q f) =
        absurd (absent i j at same)

    -- Pause and then Resume of a job that waits in a well-formed heap and does not run, on a store with
    -- the laws. Both return. The job is waiting again under its id, among the same other jobs, at the
    -- time it had, or if it is a cron job at the next time of its expression; a cron job whose
    -- expression the cron library refuses stays stored as paused.
    pub pause-resume :
        (id : String) (i : ℕ) (j : Job) (now later : ℕ) (fresh : String)
        → WellFormed s.heap
        → id ≢ ""
        → get_elem? s.heap.items i ≡ some j
        → j.id ≡ id
        → is_running s id ≡ false
        → Returns
            (RoundTrip s id now later)
            (pause env s id now >>= λ r. resume env r.0 id later fresh)
    pause-resume id i j now later fresh v ne at same idle =
        Returns-bind (pause_lem env s id now v)
          λ r p. then_resumed id i j now later fresh v ne at same idle r p
