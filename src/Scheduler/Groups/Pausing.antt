-- ===== src/Scheduler/Groups/Pausing.antt =====
-- What PauseByHandlerKey takes out of the heap.
use godelayq.Prelude.{
  ℕ, ◌+◌, ◌≤◌, ◌≡◌, refl, sym, ap, ◌∙◌, inl, inr, List, [], ◌∷◌, Bool, true, false, ◌&&◌, ◌||◌,
  Option, none, some, String, arith, ◌>>=◌, ◌⊎◌, if◌then◌else◌, if_pos, if_neg, string_discrete,
  subst, length, length-perm, Returns, returns, Returns-bind, Returns-map, Returns-if, Option-cases,
}
use godelayq.Heap.{QuaternaryHeap}
use godelayq.Heap.Order.{WellFormed}
use godelayq.Heap.ById.{Absent, Removed-inv}
use godelayq.Heap.Once.{count_id, count_id-perm, count_none, count_id_le}
use godelayq.Job.{Job, JobSnapshot, job_item}
use godelayq.Scheduler.{Env, Scheduler, Result, ok, err, store_error}
use godelayq.Scheduler.Calls.Pauses.{
  Pauses, was_waiting, was_running, was_paused, was_unknown, pause_lem,
}
use godelayq.Scheduler.Restore.Revived.{named}
use godelayq.Scheduler.Groups.{is_blank, pausable, paused_count, pause_all, pause_by_handler_key}

-- A snapshot with the id is handed to Pause.
abbrev pub matched : String → String → List JobSnapshot → Bool
matched key k [] = false
matched key k (snap ∷ l) = pausable key snap && named k snap || matched key k l

module _ {S : Type 0} (env : Env S) where
  -- The heap is well formed; a matched id is not in it, and every other id as before. Every job that
  -- left it is counted, no run is
  -- told to stop, and none is to be force-paused that was not.
  pub record PausedAll (s : Scheduler S) (key : String) (l : List JobSnapshot) (n : ℕ)
      (r : Scheduler S × ℕ) : Type 0 where
    pub well_formed : WellFormed r.0.heap
    pub ids :
        (k : String)
        → count_id k r.0.heap.items ≡ (if matched key k l then 0 else count_id k s.heap.items)
    pub all_counted : length s.heap.items + n ≤ length r.0.heap.items + r.1
    pub runs_kept : r.0.cancel_map ≡ s.cancel_map
    pub none_stopped : (r.0.cancelled ≡ s.cancelled) × (r.0.forced_pause ≡ s.forced_pause)

  -- One call of Pause.
  record OnePaused (s : Scheduler S) (snap : JobSnapshot) (r : Scheduler S × Result Job)
      : Type 0 where
    well_formed : WellFormed r.0.heap
    ids :
        (k : String)
        → count_id k r.0.heap.items ≡ (if named k snap then 0 else count_id k s.heap.items)
    all_counted : (n : ℕ) → length s.heap.items + n ≤ length r.0.heap.items + paused_count r.1 n
    runs_kept : r.0.cancel_map ≡ s.cancel_map
    none_stopped : (r.0.cancelled ≡ s.cancelled) × (r.0.forced_pause ≡ s.forced_pause)

  not_there :
      (s : Scheduler S) (snap : JobSnapshot) (k : String)
      → Absent s.heap snap.id
      → count_id k s.heap.items ≡ (if named k snap then 0 else count_id k s.heap.items)
  not_there s snap k gone = elim (string_discrete snap.id k) [
    | yes is ↦
        rw (if_pos {C = Bool} (string_discrete snap.id k) is true false)
          (count_none k s.heap.items (λ i y at q. gone i y at (q ∙ sym is)))
    | no other ↦ rw (if_neg {C = Bool} (string_discrete snap.id k) other true false) refl
  ]

  untouched :
      (s : Scheduler S) (snap : JobSnapshot) (a : Result Job)
      → WellFormed s.heap
      → Absent s.heap snap.id
      → ((n : ℕ) → n ≤ paused_count a n)
      → OnePaused s snap (s, a)
  untouched s snap a v gone more = record {
    well_formed = v;
    ids = λ k. not_there s snap k gone;
    all_counted = λ n. omega (arith, more n);
    runs_kept = refl;
    none_stopped = (refl, refl);
  }

  one_paused :
      (s : Scheduler S) (snap : JobSnapshot) (now : ℕ)
      → WellFormed s.heap
      → (r : Scheduler S × Result Job) → Pauses env s snap.id now r
      → OnePaused s snap r
  unfolding count_id
  one_paused s snap now v _ (was_running gone runs) = untouched s snap _ v gone (λ n. omega arith)
  one_paused s snap now v _ (was_paused t gone q f st) =
      untouched s snap _ v gone (λ n. omega arith)
  one_paused s snap now v _ (was_unknown gone q f) = untouched s snap _ v gone (λ n. omega arith)
  one_paused s snap now v _ (was_waiting x h s1 by h1 saved woken runs told flags) =
      let (taken, same) = Removed-inv snap.id s.heap h x (some x, h) by refl in
      let size = length-perm taken.items in
      let size1 = ap (λ (g : QuaternaryHeap Job). length g.items) h1 in
      record {
        well_formed = subst WellFormed (sym h1) taken.well_formed;
        ids = λ k.
            let few = count_id_le k s.heap v in
            let total = count_id-perm k taken.items in
            let moved = ap (λ (g : QuaternaryHeap Job). count_id k g.items) h1 in
            elim (string_discrete snap.id k) [
              | yes is ↦
                  let first = if_pos {C = ℕ} (string_discrete x.id k) (same ∙ is) 1 0 in
                  rw (if_pos {C = Bool} (string_discrete snap.id k) is true false)
                    (omega (arith, few, total, moved, first))
              | no other ↦
                  let first =
                    if_neg {C = ℕ} (string_discrete x.id k) (λ e. other (sym same ∙ e)) 1 0 in
                  rw (if_neg {C = Bool} (string_discrete snap.id k) other true false)
                    (omega (arith, total, moved, first))
            ];
        all_counted = λ n. omega (arith, size, size1);
        runs_kept = runs;
        none_stopped = (told, flags);
      }

  both_paused :
      (a b c : ℕ) (p q r : Bool)
      → p ≡ true
      → b ≡ (if q then 0 else a)
      → c ≡ (if r then 0 else b)
      → c ≡ (if p && q || r then 0 else a)
  both_paused a b c p q r e f g = ground arith

  PausedAll-step :
      (s : Scheduler S) (snap : JobSnapshot) (key : String) (l : List JobSnapshot) (n : ℕ)
      → pausable key snap ≡ true
      → (r : Scheduler S × Result Job) → OnePaused s snap r
      → (t : Scheduler S × ℕ) → PausedAll r.0 key l (paused_count r.1 n) t
      → PausedAll s key (snap ∷ l) n t
  PausedAll-step s snap key l n match r one t rest = record {
    well_formed = rest.well_formed;
    ids = λ k.
        both_paused _ _ _ (pausable key snap) (named k snap) (matched key k l) match (one.ids k)
          (rest.ids k);
    all_counted = omega (arith, one.all_counted n, rest.all_counted);
    runs_kept = rest.runs_kept ∙ one.runs_kept;
    none_stopped =
        (rest.none_stopped.0 ∙ one.none_stopped.0, rest.none_stopped.1 ∙ one.none_stopped.1);
  }

  PausedAll-skip :
      (s : Scheduler S) (snap : JobSnapshot) (key : String) (l : List JobSnapshot) (n : ℕ)
      → pausable key snap ≡ false
      → (t : Scheduler S × ℕ) → PausedAll s key l n t
      → PausedAll s key (snap ∷ l) n t
  PausedAll-skip s snap key l n other t rest = record {
    well_formed = rest.well_formed;
    ids = λ k. rw other (rest.ids k);
    all_counted = rest.all_counted;
    runs_kept = rest.runs_kept;
    none_stopped = rest.none_stopped;
  }

  -- The loop of PauseByHandlerKey returns from a well-formed heap, whatever Pause answers: no snapshot
  -- of the key that was neither paused nor finished has its id in the heap any more, every other id is
  -- as before, every job that left the heap is counted, no run is
  -- told to stop, and none is to be force-paused that was not.
  pub pause_all_lem :
      (s : Scheduler S) (l : List JobSnapshot) (key : String) (now n : ℕ)
      → WellFormed s.heap
      → Returns (PausedAll s key l n) (pause_all env s l key now n)
  unfolding pause_all
  pause_all_lem s [] key now n v = returns (record {
    well_formed = v;
    ids = λ k. refl;
    all_counted = omega arith;
    runs_kept = refl;
    none_stopped = (refl, refl);
  })
  pause_all_lem s (snap ∷ l) key now n v =
      Returns-if (pausable key snap)
        (λ match. Returns-bind (pause_lem env s snap.id now v) λ r p.
          let one = one_paused s snap now v r p in
          Returns-map (pause_all_lem r.0 l key now (paused_count r.1 n) one.well_formed)
            (PausedAll-step s snap key l n match r one))
        (λ other. Returns-map (pause_all_lem s l key now n v) (PausedAll-skip s snap key l n other))

  -- What PauseByHandlerKey gives.
  pub data KeyPaused (s : Scheduler S) (key : String) : Scheduler S × Result ℕ → Type 0 where
    nothing_to_do : (is_blank key ≡ true) ⊎ (s.store ≡ none) → KeyPaused s key (s, ok 0)
    unreadable :
        (st : S)
        → s.store ≡ some st
        → env.store_ops.load_all st ≡ none
        → KeyPaused s key (s, err store_error)
    read :
        (st : S) (l : List JobSnapshot) (r : Scheduler S × ℕ)
        → is_blank key ≡ false
        → s.store ≡ some st
        → env.store_ops.load_all st ≡ some l
        → PausedAll s key l 0 r
        → KeyPaused s key (r.0, ok r.1)

  read_lem :
      (s : Scheduler S) (key : String) (now : ℕ) (o : Option S)
      → WellFormed s.heap
      → is_blank key ≡ false
      → s.store ≡ o
      → Returns (KeyPaused s key) (elim o [
        | none ↦ some (s, ok 0)
        | some st ↦ elim (env.store_ops.load_all st) [
          | none ↦ some (s, err store_error)
          | some snapshots ↦ pause_all env s snapshots key now 0 >>= λ r. some (r.0, ok r.1)
        ]
      ])
  read_lem s key now none v b e = returns (nothing_to_do (inr e))
  read_lem s key now (some st) v b e = elim (Option-cases (env.store_ops.load_all st)) [
    | inl bad ↦ rw bad (returns (unreadable st e bad))
    | inr (l, good) ↦
        rw good
          (Returns-bind (pause_all_lem s l key now 0 v) λ r p. returns (read st l r b e good p))
  ]

  -- PauseByHandlerKey from a well-formed heap returns. With a blank key or without a store nothing
  -- changes, and with a store that cannot be read an error is given. Else no id that is stored under
  -- the key for a job neither paused nor finished is in the heap any more, every other id is as before,
  -- every job that left the heap is counted, no run is
  -- told to stop, and none is to be force-paused that was not.
  pub pause_by_handler_key_lem :
      (s : Scheduler S) (key : String) (now : ℕ)
      → WellFormed s.heap
      → Returns (KeyPaused s key) (pause_by_handler_key env s key now)
  unfolding pause_by_handler_key
  pause_by_handler_key_lem s key now v =
      Returns-if (is_blank key) (λ blank. returns (nothing_to_do (inl blank)))
        (λ b. read_lem s key now s.store v b refl)
