-- ===== src/Scheduler/Calls/Resumes.antt =====
-- What Resume does with a job that is paused, running or unknown.
use godelayq.Prelude.{
  ℕ, ◌≡◌, ◌≢◌, refl, ap, sym, ◌∙◌, inl, inr, List, [], ◌∷◌, true, false, Option, none, some, String,
  ◌==◌, Returns, returns, Returns-bind, Returns-if, Option-cases, string_discrete, arith, if_neg,
}
use godelayq.Dict
use godelayq.Heap.Order.{WellFormed}
use godelayq.Job.{
  Job, JobSnapshot, job_item, from_snapshot, zero_job, status_paused, status_pending, handler_key,
  snapshot_handler_key,
}
use godelayq.Scheduler.{
  Env, Scheduler, Result, ok, err, Error, job_not_found, job_not_pending, job_not_paused, publish,
  is_running, find_id, find_snapshot, filled, lookup_handler,
}
use godelayq.Scheduler.Enqueue.{Scheduled, refused, accepted, schedule_lem}
use godelayq.Scheduler.Calls.{with_handler, resumed_job, announce_resumed, resume}

find_id_sound :
    (id : String) (l : List JobSnapshot) (snap : JobSnapshot)
    → find_id id l ≡ some snap
    → snap.id ≡ id
find_id_sound id [] snap e = absurd (cc)
find_id_sound id (s ∷ l) snap e = ground (arith, find_id_sound id l snap)

module _ {S : Type 0} (env : Env S) where
  -- The id of the snapshot that findSnapshot gives is the one that was looked for.
  find_snapshot_sound :
      (s : Scheduler S) (id : String) (snap : JobSnapshot)
      → find_snapshot env s id ≡ some snap
      → snap.id ≡ id
  unfolding find_snapshot
  find_snapshot_sound s id snap e = elim (Option-cases s.store) [
    | inl no_store ↦ absurd (let e1 = rw (no_store, find_snapshot) at e in cc)
    | inr (st, has) ↦ elim (Option-cases (env.store_ops.load_all st)) [
      | inl broken ↦ absurd (let e1 = rw (has, find_snapshot, broken) at e in cc)
      | inr (l, read) ↦ find_id_sound id l snap (rw (has, find_snapshot, read) at e)
    ]
  ]

  with_handler_id : (handler : Option ℕ) (j : Job) → (with_handler env handler j).id ≡ j.id
  with_handler_id none j = refl
  with_handler_id (some handler) j = refl

  resumed_id :
      (s : Scheduler S) (snap : JobSnapshot) (now : ℕ) → (resumed_job env s snap now).id ≡ snap.id
  unfolding resumed_job from_snapshot
  resumed_id s snap now = with_handler_id _ _

  resumed_handler :
      (s : Scheduler S) (snap : JobSnapshot) (now : ℕ)
      → (resumed_job env s snap now).handler ≡ Dict.lookup (snapshot_handler_key snap) s.handlers
  unfolding resumed_job from_snapshot lookup_handler handler_key snapshot_handler_key
  resumed_handler s snap now = go (Dict.lookup (snapshot_handler_key snap) s.handlers)
    where
      go : (o : Option ℕ) → (with_handler env o (from_snapshot zero_job snap)).handler ≡ o
      go none = refl
      go (some handler) = refl

  resumed_status :
      (s : Scheduler S) (snap : JobSnapshot) (now : ℕ)
      → (resumed_job env s snap now).status ≡ status_pending
  unfolding resumed_job
  resumed_status s snap now = refl

  -- The job that Schedule is given, what it gave back, and what Resume makes of that.
  pub data Resumes (s : Scheduler S) (id : String) (now : ℕ) (fresh : String)
      : Scheduler S × Result Job → Type 0 where
    unknown : find_snapshot env s id ≡ none → Resumes s id now fresh (s, err job_not_found)
    not_paused :
        (snap : JobSnapshot)
        → find_snapshot env s id ≡ some snap
        → (snap.status == status_paused) ≡ false
        → Resumes s id now fresh (s, err job_not_paused)
    still_running : is_running s id ≡ true → Resumes s id now fresh (s, err job_not_pending)
    not_scheduled :
        (snap : JobSnapshot) (s' : Scheduler S) (e : Error)
        → find_snapshot env s id ≡ some snap
        → Scheduled env s (resumed_job env s snap now) now fresh (s', err e)
        → Resumes s id now fresh (s', err e)
    scheduled :
        (snap : JobSnapshot) (j : Job) (s' s'' : Scheduler S)
        → find_snapshot env s id ≡ some snap
        → (snap.status == status_paused) ≡ true
        → is_running s id ≡ false
        → Scheduled env s (resumed_job env s snap now) now fresh (s', ok j)
        → j.id ≡ id
        → j.handler ≡ Dict.lookup (snapshot_handler_key snap) s.handlers
        → j.status ≡ status_pending
        → s''.heap ≡ s'.heap
        → s''.store ≡ s'.store
        → s''.new_job_ch ≡ s'.new_job_ch
        → Resumes s id now fresh (s'', ok j)

  named :
      (s : Scheduler S) (id : String) (snap : JobSnapshot) (now : ℕ) (fresh : String)
      → id ≢ ""
      → find_snapshot env s id ≡ some snap
      → (filled (resumed_job env s snap now) now fresh).id ≡ id
  unfolding filled
  named s id snap now fresh ne stored =
      let same : (resumed_job env s snap now).id ≡ id =
        resumed_id s snap now ∙ find_snapshot_sound s id snap stored in
      if_neg (string_discrete (resumed_job env s snap now).id "") (λ empty. ne (sym same ∙ empty))
        fresh (resumed_job env s snap now).id
      ∙ same

  announce_lem :
      (s : Scheduler S) (id : String) (snap : JobSnapshot) (now : ℕ) (fresh : String)
      → id ≢ ""
      → find_snapshot env s id ≡ some snap
      → (snap.status == status_paused) ≡ true
      → is_running s id ≡ false
      → (r : Scheduler S × Result Job) → Scheduled env s (resumed_job env s snap now) now fresh r
      → Returns (Resumes s id now fresh) (announce_resumed env now r)
  unfolding announce_resumed publish
  announce_lem s id snap now fresh ne stored is idle _ (refused cron bad) =
      returns (not_scheduled snap s _ stored (refused cron bad))
  announce_lem s id snap now fresh ne stored is idle _ (accepted s' j q same c (bound, pending) t) =
      returns (
        scheduled snap j s' _ stored is idle (accepted s' j q same c (bound, pending) t)
          (same ∙ named s id snap now fresh ne stored) (bound ∙ resumed_handler s snap now)
          (pending ∙ resumed_status s snap now) refl refl refl)

  -- Resume of a named id that is not in the well-formed heap returns: a job that is stored as paused
  -- and not running is scheduled as Schedule does, pending, under the same id and with the handler that
  -- the registry has for its key, if any; an id that is not stored, is stored with another status, or is running is refused with
  -- nothing changed, and so is a cron job whose expression the cron library refuses.
  pub resume_lem :
      (s : Scheduler S) (id : String) (now : ℕ) (fresh : String)
      → WellFormed s.heap
      → id ≢ ""
      → Dict.lookup id s.heap.index_map ≡ none
      → Returns (Resumes s id now fresh) (resume env s id now fresh)
  unfolding resume
  resume_lem s id now fresh v ne absent = elim (Option-cases (find_snapshot env s id)) [
    | inl missing ↦ rw (missing, resume) (returns (unknown missing))
    | inr (snap, stored) ↦
        rw (stored, resume)
          (Returns-if (snap.status == status_paused)
            (λ is.
              Returns-if (is_running s id) (λ runs. returns (still_running runs))
                λ idle.
                  Returns-bind
                    (schedule_lem env s (resumed_job env s snap now) now fresh v (
                      ap (λ k. Dict.lookup k s.heap.index_map) (named s id snap now fresh ne stored)
                      ∙ absent))
                    λ r p. announce_lem s id snap now fresh ne stored is idle r p)
            (λ other. returns (not_paused snap stored other)))
  ]
