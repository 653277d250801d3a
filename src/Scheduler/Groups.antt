-- ===== src/Scheduler/Groups.antt =====
-- SetGroup, RetagGroup, applyGroupToSnapshot and PauseByHandlerKey of core/scheduler.go. The error of
-- a write to the store is told from the flag that the write gives.
pub mod Retags
pub mod Pausing
use godelayq.Prelude.{
  ℕ, ◌+◌, List, [], ◌∷◌, Bool, true, false, ◌&&◌, ◌||◌, not, Option, none, some, String, ◌==◌,
  if◌then◌else◌, ◌>>=◌, string_discrete, ite,
}
use godelayq.Text.{codes, equal_fold, trim_space}
use godelayq.Heap
use godelayq.Job.{
  Job, JobSnapshot, is_terminal, status_paused, status_running, snapshot_handler_key, to_snapshot,
  job_item,
}
use godelayq.Scheduler.{
  Env, Scheduler, Result, ok, err, store_error, job_not_found, job_not_pending, find_snapshot,
}
use godelayq.Scheduler.Calls.{pause}

abbrev pub same_text : String → String → Bool
same_text a b = ite (string_discrete a b) true false

abbrev pub is_blank : String → Bool
is_blank name = elim (trim_space (codes name)) [ [] ↦ true | _ ↦ false ]

-- One more where the group was changed; an error is logged.
abbrev pub counted : Result Bool → ℕ → ℕ
counted (err e) n = n
counted (ok changed) n = if changed then n + 1 else n

-- The snapshots that PauseByHandlerKey hands to Pause.
abbrev pub pausable : String → JobSnapshot → Bool
pausable key snap =
    same_text (snapshot_handler_key snap) key
    && not (snap.status == status_paused || is_terminal snap.status)

-- Every error of Pause is passed over.
abbrev pub paused_count : Result Job → ℕ → ℕ
paused_count (err e) n = n
paused_count (ok j) n = n + 1

module _ {S : Type 0} where
  abbrev pub group_answer :
      JobSnapshot → String → Scheduler S × Result Bool → Scheduler S × Result (Unit {0})
  group_answer snap group (s, err e) = (s, err e)
  group_answer snap group (s, ok changed) =
      if not changed && not (same_text snap.group group)
      then (s, err job_not_pending)
      else (s, ok tt)

module _ {S : Type 0} (env : Env S) where
  -- The write to the store `o`, and whether the group was changed.
  unfoldable pub written : Scheduler S → JobSnapshot → ℕ → Option S → Scheduler S × Result Bool
  written s snap now none = (s, ok true)
  written s snap now (some st) =
      let (st', good) = env.store_ops.update now snap st in
      (record s { store = some st' }, if good then ok true else err store_error)

  unfoldable pub store_group : Scheduler S → JobSnapshot → ℕ → Scheduler S × Result Bool
  store_group s snap now = written s snap now s.store

  -- A job that is in the heap.
  unfoldable pub apply_group_to_item :
      Scheduler S → Job → String → ℕ → Option (Scheduler S × Result Bool)
  apply_group_to_item s j to_group now =
      if same_text j.group to_group
      then some (s, ok false)
      else (let j' : Job = record j { group = to_group; updated_at = now } in
          Heap.update s.heap j' >>= λ (present, h).
          if present
          then some (store_group (record s { heap = h }) (to_snapshot j') now)
          else some (record s { heap = h }, ok false))

  -- A job that is not in the heap.
  unfoldable pub apply_group_to_stored :
      Scheduler S → JobSnapshot → String → ℕ → Scheduler S × Result Bool
  apply_group_to_stored s snap to_group now =
      if snap.status == status_running then (s, ok false) else elim s.store [
        | none ↦ (s, ok false)
        | some _ ↦
            if same_text snap.group to_group
            then (s, ok false)
            else store_group s (record snap { group = to_group; updated_at = now }) now
      ]

  unfoldable pub apply_group_to_snapshot :
      Scheduler S → JobSnapshot → String → ℕ → Option (Scheduler S × Result Bool)
  apply_group_to_snapshot s snap to_group now = Heap.get s.heap snap.id >>= λ found. elim found [
    | some j ↦ apply_group_to_item s j to_group now
    | none ↦ some (apply_group_to_stored s snap to_group now)
  ]

  unfoldable pub set_group :
      Scheduler S → String → String → ℕ → Option (Scheduler S × Result (Unit {0}))
  set_group s id group now = elim (find_snapshot env s id) [
    | some snap ↦ apply_group_to_snapshot s snap group now >>= λ r. some (group_answer snap group r)
    | none ↦ Heap.get s.heap id >>= λ found. elim found [
      | none ↦ some (s, err job_not_found)
      | some j ↦ apply_group_to_snapshot s (to_snapshot j) group now >>= λ r.
          some (group_answer (to_snapshot j) group r)
    ]
  ]

  -- The loop of RetagGroup, with the count so far.
  unfoldable pub retag_all :
      Scheduler S → List JobSnapshot → String → String → ℕ → ℕ → Option (Scheduler S × ℕ)
  retag_all s [] from_group to_group now n = some (s, n)
  retag_all s (snap ∷ snapshots) from_group to_group now n =
      let skipped = retag_all s snapshots from_group to_group now n in
      let applied =
        (apply_group_to_snapshot s snap to_group now >>= λ r.
        retag_all r.0 snapshots from_group to_group now (counted r.1 n)) in
      if not (equal_fold (codes snap.group) (codes from_group)) then skipped else applied

  unfoldable pub retag_group : Scheduler S → String → String → ℕ → Option (Scheduler S × Result ℕ)
  retag_group s from_group to_group now =
      if same_text from_group "" then some (s, ok 0) else elim s.store [
        | none ↦ some (s, ok 0)
        | some st ↦ elim (env.store_ops.load_all st) [
          | none ↦ some (s, err store_error)
          | some snapshots ↦
              retag_all s snapshots from_group to_group now 0 >>= λ r. some (r.0, ok r.1)
        ]
      ]

  -- The loop of PauseByHandlerKey, with the count so far.
  unfoldable pub pause_all :
      Scheduler S → List JobSnapshot → String → ℕ → ℕ → Option (Scheduler S × ℕ)
  pause_all s [] key now n = some (s, n)
  pause_all s (snap ∷ snapshots) key now n =
      let skipped = pause_all s snapshots key now n in
      let rest =
        (pause env s snap.id now >>= λ r. pause_all r.0 snapshots key now (paused_count r.1 n)) in
      if pausable key snap then rest else skipped

  unfoldable pub pause_by_handler_key : Scheduler S → String → ℕ → Option (Scheduler S × Result ℕ)
  pause_by_handler_key s key now = if is_blank key then some (s, ok 0) else elim s.store [
    | none ↦ some (s, ok 0)
    | some st ↦ elim (env.store_ops.load_all st) [
      | none ↦ some (s, err store_error)
      | some snapshots ↦ pause_all s snapshots key now 0 >>= λ r. some (r.0, ok r.1)
    ]
  ]
