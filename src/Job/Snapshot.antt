-- ===== src/Job/Snapshot.antt =====
-- A job through its snapshot and back.
use godelayq.Prelude.{◌≡◌, refl}
use godelayq.Job.{Job, JobSnapshot, to_snapshot, from_snapshot, handler_key, snapshot_handler_key}

-- Writing a job to a snapshot and reading it into another job gives the first job with the handler
-- and the class of the other; reading a snapshot and writing it again gives the snapshot.
pub snapshot_round_trip :
    (j k : Job) (s : JobSnapshot)
    → (from_snapshot k (to_snapshot j) ≡ record j { handler = k.handler; job_class = k.job_class })
      × (to_snapshot (from_snapshot k s) ≡ s)
unfolding from_snapshot to_snapshot
snapshot_round_trip j k s = (refl, refl)

-- A snapshot is looked up under the key of the job that it was made of.
pub handler_key-to_snapshot : (j : Job) → snapshot_handler_key (to_snapshot j) ≡ handler_key j
unfolding snapshot_handler_key handler_key to_snapshot
handler_key-to_snapshot j = refl
