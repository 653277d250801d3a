-- ===== src/Scheduler/Laws.antt =====
-- What the scheduler relies on in a store, whatever the store is.
use godelayq.Prelude.{◌≡◌, ◌≢◌, ℕ, false, Option, none, some, String, ◌>>=◌}
use godelayq.Job.{Job, JobSnapshot, is_terminal, to_snapshot}
use godelayq.Scheduler.{Store, find_id}

-- What a read of the whole store finds under an id.
abbrev pub stored : {S : Type 0} → Store S → S → String → Option JobSnapshot
stored ops st id = ops.load_all st >>= find_id id

-- The laws of a store, in its states that are `Valid`: a snapshot that is not of a finished job is
-- found as it was written until it is written again or deleted; a read of a deleted id finds nothing.
pub record StoreLaws {S : Type 0} (ops : Store S) (Valid : S → Type 0) : Type 0 where
  pub update-Valid :
      (now : ℕ) (snap : JobSnapshot) (st : S) → Valid st → Valid (ops.update now snap st).0
  pub delete-Valid : (id : String) (st : S) → Valid st → Valid (ops.delete id st).0
  pub save-eq-update :
      (now : ℕ) (j : Job) (st : S) → ops.save now j st ≡ ops.update now (to_snapshot j) st
  pub stored-update :
      (now : ℕ) (snap : JobSnapshot) (st : S)
      → Valid st
      → is_terminal snap.status ≡ false
      → stored ops (ops.update now snap st).0 snap.id ≡ some snap
  pub stored_kept :
      (now : ℕ) (snap : JobSnapshot) (st : S) (id : String) (s : JobSnapshot)
      → Valid st
      → id ≢ snap.id
      → stored ops st id ≡ some s
      → is_terminal s.status ≡ false
      → stored ops (ops.update now snap st).0 id ≡ some s
  pub stored-delete : (id : String) (st : S) → Valid st → stored ops (ops.delete id st).0 id ≡ none
  pub stored-delete_other :
      (id other : String) (st : S)
      → Valid st
      → id ≢ other
      → stored ops (ops.delete id st).0 other ≡ stored ops st other
