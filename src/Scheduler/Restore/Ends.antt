-- ===== src/Scheduler/Restore/Ends.antt =====
-- Which jobs are in the heap after Restore.
use mathlib.Core.List.Perm
use mathlib.Core.List.{perm_middle}
use godelayq.Prelude.{
  ℕ, ◌≡◌, refl, sym, ap, ◌∙◌, inl, inr, List, [], ◌∷◌, ◌++◌, Bool, ◌||◌, Option, none, some, Perm,
  if◌then◌else◌, ltb, arith, subst, Returns, returns, Returns-bind, Returns-map, Option-cases,
  ◌>>=◌,
}
use godelayq.Dict
use godelayq.Dict.{Dict}
use godelayq.Heap.{QuaternaryHeap}
use godelayq.Heap.Order.{WellFormed}
use godelayq.Heap.Once.{count_id, count_id_le}
use godelayq.Job.{Job, JobSnapshot, job_item, JobClass, from_snapshot, to_snapshot, handler_key}
use godelayq.Scheduler.{
  Result, ok, err, store_error, Env, Scheduler, stamped, class_of_key, class_or_default,
}
use godelayq.Scheduler.Restore.{restored_job, restore_all, restore}
use godelayq.Scheduler.Restore.Revived.{
  revives, revived, Brought, Chosen, no_more, passed, taken, Kept, Kept-refl, Restored,
}
use godelayq.Scheduler.Restore.Rounds.{
  Round, same_heap, pushed, round_lem, Round-WellFormed, Round-Kept, Round-count, as_before,
}

module _ {S : Type 0} (env : Env S) where
  restored_job-Brought :
      (s : Scheduler S) (snap : JobSnapshot) → Brought s snap (restored_job s snap)
  unfolding restored_job stamped from_snapshot to_snapshot handler_key
  restored_job-Brought s snap = record { content = refl; job_class = refl }

  Brought-kept :
      (s s1 : Scheduler S) (snap : JobSnapshot) (j : Job)
      → s1.handler_classes ≡ s.handler_classes
      → Brought s1 snap j
      → Brought s snap j
  unfolding class_of_key
  Brought-kept s s1 snap j e b = record {
    content = b.content;
    job_class =
        b.job_class
        ∙ ap (λ (m : Dict JobClass). class_or_default (Dict.lookup (handler_key j) m)) e;
  }

  Chosen-kept :
      (s s1 : Scheduler S) (l : List JobSnapshot) (js : List Job)
      → Kept s s1
      → Chosen s1 l js
      → Chosen s l js
  Chosen-kept s s1 _ _ q no_more = no_more
  Chosen-kept s s1 _ _ q (passed snap l js c) = passed snap l js (Chosen-kept s s1 l js q c)
  Chosen-kept s s1 _ _ q (taken snap l j js r b c) =
      taken snap l j js (ap (λ g. revives g snap) (sym q.guard) ∙ r)
        (Brought-kept s s1 snap j q.classes b) (Chosen-kept s s1 l js q c)

  Kept-trans : (s s1 s2 : Scheduler S) → Kept s s1 → Kept s1 s2 → Kept s s2
  Kept-trans s s1 s2 p q = record {
    guard = q.guard ∙ p.guard;
    classes = q.classes ∙ p.classes;
    work = q.work ∙ p.work;
    exec = q.exec ∙ p.exec;
    runs = q.runs ∙ p.runs;
    told = q.told ∙ p.told;
    workers = (q.workers.0 ∙ p.workers.0, q.workers.1 ∙ p.workers.1);
    switches =
        (q.switches.0 ∙ p.switches.0, q.switches.1 ∙ p.switches.1, q.switches.2 ∙ p.switches.2);
  }

  both_counts :
      (a b c : ℕ) (p q : Bool)
      → b ≡ (if ltb 0 a || p then 1 else 0)
      → c ≡ (if ltb 0 b || q then 1 else 0)
      → c ≡ (if ltb 0 a || (p || q) then 1 else 0)
  both_counts a b c p q e f = ground arith

  round_news :
      (s : Scheduler S) (snap : JobSnapshot) (l : List JobSnapshot) (s1 s2 : Scheduler S)
      → Round env s snap s1
      → Restored s1 l s2
      → (js : List Job) × (Chosen s (snap ∷ l) js × Perm s2.heap.items (js ++ s.heap.items))
  round_news s snap l s1 s2 (same_heap _ e ids kept) r = (
    r.news,
    (
      passed snap l r.news (Chosen-kept s s1 l r.news kept r.chosen),
      subst (λ (h : QuaternaryHeap Job). Perm s2.heap.items (r.news ++ h.items)) e r.items,
    ),
  )
  round_news s snap l _ s2 (pushed h live gone p) r = (
    restored_job s snap ∷ r.news,
    (
      taken snap l (restored_job s snap) r.news live (restored_job-Brought s snap)
          (Chosen-kept s _ l r.news (Round-Kept env s snap _ (pushed h live gone p)) r.chosen),
      Perm.trans r.items
          (Perm.trans (Perm.append_left r.news p.items) (perm_middle r.news s.heap.items)),
    ),
  )

  Restored-Round :
      (s : Scheduler S) (snap : JobSnapshot) (l : List JobSnapshot) (s1 s2 : Scheduler S)
      → WellFormed s.heap
      → Round env s snap s1
      → Restored s1 l s2
      → Restored s (snap ∷ l) s2
  Restored-Round s snap l s1 s2 v p r =
      let kept = Round-Kept env s snap s1 p in
      let (js, (chosen, items)) = round_news s snap l s1 s2 p r in
      record {
        well_formed = r.well_formed;
        news = js;
        chosen = chosen;
        items = items;
        ids = λ k. both_counts _ _ _ _ _ (Round-count env s snap s1 k v p) (
            subst
              (λ g.
                count_id k s2.heap.items
                ≡ (if ltb 0 (count_id k s1.heap.items) || revived g k l then 1 else 0))
              kept.guard (r.ids k));
        kept = Kept-trans s s1 s2 kept r.kept;
      }

  -- The loop of Restore returns from a well-formed heap.
  pub restore_all_lem :
      (s : Scheduler S) (l : List JobSnapshot) (now : ℕ)
      → WellFormed s.heap
      → Returns (Restored s l) (restore_all env s l now)
  unfolding restore_all
  restore_all_lem s [] now v = returns (record {
    well_formed = v;
    news = [];
    chosen = no_more;
    items = Perm.refl s.heap.items;
    ids = λ k. as_before env _ _ _ (count_id_le k s.heap v) refl refl;
    kept = Kept-refl s;
  })
  restore_all_lem s (snap ∷ l) now v = Returns-bind (round_lem env s snap now v) λ s1 p.
      Returns-map (restore_all_lem s1 l now (Round-WellFormed env s snap s1 v p))
        (λ s2 r. Restored-Round s snap l s1 s2 v p r)

  -- What Restore gives.
  pub data RestoreEnd (s : Scheduler S) : Scheduler S × Result (Unit {0}) → Type 0 where
    no_store : s.store ≡ none → RestoreEnd s (s, ok tt)
    unreadable :
        (st : S)
        → s.store ≡ some st
        → env.store_ops.load_all st ≡ none
        → RestoreEnd s (s, err store_error)
    read :
        (st : S) (l : List JobSnapshot) (s' : Scheduler S)
        → s.store ≡ some st
        → env.store_ops.load_all st ≡ some l
        → Restored s l s'
        → RestoreEnd s (s', ok tt)

  read_lem :
      (s : Scheduler S) (now : ℕ) (st : S)
      → WellFormed s.heap
      → s.store ≡ some st
      → Returns (RestoreEnd s) (elim (env.store_ops.load_all st) [
        | none ↦ some (s, err store_error)
        | some snapshots ↦ restore_all env s snapshots now >>= λ s1. some (s1, ok tt)
      ])
  read_lem s now st v has = elim (Option-cases (env.store_ops.load_all st)) [
    | inl bad ↦ rw bad (returns (unreadable st has bad))
    | inr (l, good) ↦
        rw good (Returns-bind (restore_all_lem s l now v) λ s1 r. returns (read st l s1 has good r))
  ]

  from_store :
      (s : Scheduler S) (now : ℕ) (o : Option S)
      → WellFormed s.heap
      → s.store ≡ o
      → Returns (RestoreEnd s) (elim o [
        | none ↦ some (s, ok tt)
        | some st ↦ elim (env.store_ops.load_all st) [
          | none ↦ some (s, err store_error)
          | some snapshots ↦ restore_all env s snapshots now >>= λ s1. some (s1, ok tt)
        ]
      ])
  from_store s now none v e = returns (no_store e)
  from_store s now (some st) v e = read_lem s now st v e

  -- Restore from a well-formed heap returns, whatever the guard does, a panic included. Without a
  -- store, or with one that cannot be read, nothing changes. Else the heap is well formed and holds,
  -- besides the jobs of before, new ones that have what stored snapshots have, but are pending; an id is in it, once,
  -- exactly if it was or it is stored for a job that is neither finished nor paused and that the
  -- guard does not hold back. The queues and the runs are left alone.
  pub restore_lem :
      (s : Scheduler S) (now : ℕ) → WellFormed s.heap → Returns (RestoreEnd s) (restore env s now)
  unfolding restore
  restore_lem s now v = from_store s now s.store v refl
