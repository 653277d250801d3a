-- ===== src/Job/Tests.antt =====
-- The theorems on jobs at concrete jobs and texts.
use godelayq.Prelude.{ℕ, ◌≡◌, refl, ◌≤◌, ◌<◌, ◌⊎◌, ◌↔◌, [], ◌∷◌, List, map, false, some}
use godelayq.Int64.{positive64}
use godelayq.Text.{codes, fold_rune}
use godelayq.Job.{
  Job, zero_job, to_string, to_snapshot, from_snapshot, handler_key, snapshot_handler_key,
  parse_job_status, trim_exec_preview, skip_continuation, class_exec,
}
use godelayq.Job.Preview.{IsPreview, trim_exec_preview_lem}
use godelayq.Job.Snapshot.{snapshot_round_trip, handler_key-to_snapshot}
use godelayq.Job.Status.{parse_iff}

-- "a", e acute in two bytes, "b".
abbrev accented : List ℕ
accented = 97 ∷ 195 ∷ 169 ∷ 98 ∷ []

-- The cut falls inside the second character, which is dropped.
trim_inside : trim_exec_preview accented 2 ≡ 98 ∷ []
unfolding trim_exec_preview skip_continuation
trim_inside = refl

trim_exec_preview_lem_example :
    ((positive64 2 ≡ false) × (trim_exec_preview accented 2 ≡ []))
    ⊎ ((4 ≤ 2) × (trim_exec_preview accented 2 ≡ accented))
    ⊎ ((2 < 4) × IsPreview accented 2 (trim_exec_preview accented 2))
trim_exec_preview_lem_example = trim_exec_preview_lem accented 2

parse_iff_example :
    (parse_job_status (codes "Paused") ≡ some 5)
    ↔ ((5 < 6) × (map fold_rune (codes "Paused") ≡ map fold_rune (codes (to_string 5))))
parse_iff_example = parse_iff 5 (codes "Paused")

abbrev mail : Job
mail = record zero_job { id = "7"; type_name = "mail"; trigger_at = 30; handler = some 2 }

abbrev run : Job
run = record zero_job { handler = some 4; job_class = class_exec }

snapshot_round_trip_example :
    (from_snapshot run (to_snapshot mail)
      ≡ record mail { handler = some 4; job_class = class_exec })
    × (to_snapshot (from_snapshot run (to_snapshot mail)) ≡ to_snapshot mail)
snapshot_round_trip_example = snapshot_round_trip mail run (to_snapshot mail)

handler_key-to_snapshot_example : snapshot_handler_key (to_snapshot mail) ≡ handler_key mail
handler_key-to_snapshot_example = handler_key-to_snapshot mail
