-- ===== src/Job.antt =====
-- core/job.go: the job, its status, its snapshot and the copy for a retry.
-- Go's int, int64 and time.Duration are patterns of Int64; a time is a number of nanoseconds, 0 its
-- zero value. A handler is a number that names the registered function. The field Ctx, which no
-- code reads, is left out, and so is the sharing of the ExecMeta behind Exec: no code writes one
-- that it has handed on.
pub mod Status
pub mod Preview
pub mod Snapshot
mod Tests
use godelayq.Prelude.{
  ℕ, ◌+◌, ◌-◌, List, [], ◌∷◌, Bool, true, false, ◌&&◌, ◌||◌, not, Option, none, some, String, leb,
  ltb, ◌==◌, if◌then◌else◌, length, drop, string_discrete, ite,
}
use mathlib.Core.List.{map}
use godelayq.Int64.{add64, double64, positive64}
use godelayq.Text.{codes, has_prefix, trim_space, equal_fold}
use godelayq.Heap.{Item}

abbrev pub exec_prefix : List ℕ
exec_prefix = codes "exec."

pub is_exec_handler_key : List ℕ → Bool
is_exec_handler_key name = has_prefix (trim_space name) exec_prefix

-- JobStatus is an int: values other than the six constants can come from a stored snapshot.
abbrev pub JobStatus : Type 0
JobStatus = ℕ

abbrev pub status_pending : JobStatus
status_pending = 0

abbrev pub status_running : JobStatus
status_running = 1

abbrev pub status_success : JobStatus
status_success = 2

abbrev pub status_failed : JobStatus
status_failed = 3

abbrev pub status_cancelled : JobStatus
status_cancelled = 4

abbrev pub status_paused : JobStatus
status_paused = 5

unfoldable pub to_string : JobStatus → String
to_string s =
    if s == status_pending
    then "pending"
    else if s == status_running
    then "running"
    else if s == status_success
    then "success"
    else if s == status_failed
    then "failed"
    else if s == status_cancelled
    then "cancelled"
    else if s == status_paused
    then "paused"
    else "unknown"

abbrev pub all_statuses : List JobStatus
all_statuses =
    status_pending ∷ status_running ∷ status_success ∷ status_failed ∷ status_cancelled
    ∷ status_paused ∷ []

-- The loop of ParseJobStatus over the statuses that are left.
unfoldable pub parse_from : List JobStatus → List ℕ → Option JobStatus
parse_from [] name = none
parse_from (status ∷ rest) name =
    if equal_fold (codes (to_string status)) name then some status else parse_from rest name

unfoldable pub parse_job_status : List ℕ → Option JobStatus
unfolding parse_from
parse_job_status name = parse_from all_statuses name

abbrev pub is_terminal : JobStatus → Bool
is_terminal s = s == status_success || s == status_failed || s == status_cancelled

pub record ExecMeta : Type 0 where
  pub kind : String
  pub profile : String
  pub exit_code : ℕ
  pub signal : String
  pub http_status : ℕ
  pub duration_ms : ℕ
  pub out_bytes : ℕ
  pub err_bytes : ℕ
  pub truncated : Bool
  pub permanent : Bool
  pub preview : List ℕ  -- bytes
  pub artifact : String

-- utf8.RuneStart: no continuation byte.
abbrev pub rune_start : ℕ → Bool
rune_start b = ltb b 128 || leb 192 b

-- The loop of TrimExecPreview.
unfoldable pub skip_continuation : List ℕ → List ℕ
skip_continuation [] = []
skip_continuation (b ∷ tail) = if rune_start b then b ∷ tail else skip_continuation tail

unfoldable pub trim_exec_preview : List ℕ → ℕ → List ℕ
unfolding skip_continuation
trim_exec_preview text limit =
    if not (positive64 limit)
    then []
    else if leb (length text) limit
    then text
    else skip_continuation (drop (length text - limit) text)

-- JobClass of core/scheduler.go.
pub data JobClass : Type 0 where
  class_default class_exec : JobClass

pub record Job : Type 0 where
  pub id : String
  pub name : String
  pub type_name : String
  pub payload : List ℕ
  pub trigger_at : ℕ
  pub group : String
  pub handler : Option ℕ
  pub exec : Option ExecMeta
  pub timeout : ℕ
  pub job_class : JobClass
  pub cron_expr : String
  pub is_repeat : Bool
  pub max_retries : ℕ
  pub retry_count : ℕ
  pub retry_delay : ℕ
  pub status : JobStatus
  pub created_at : ℕ
  pub updated_at : ℕ
  pub attempts : ℕ

-- GetTriggerTime and GetID.
instance abbrev pub job_item : Item Job
job_item = record { trigger_time = λ j. j.trigger_at; id = λ j. j.id }

-- Type, and Name where it is empty.
abbrev pub key_of : String → String → String
key_of type_name name = ite (string_discrete type_name "") name type_name

unfoldable pub handler_key : Job → String
handler_key j = key_of j.type_name j.name

unfoldable pub clone_for_retry : Job → ℕ → ℕ → Job
clone_for_retry j next_time now = record {
  id = j.id;
  name = j.name;
  type_name = j.type_name;
  payload = j.payload;
  trigger_at = next_time;
  group = j.group;
  handler = j.handler;
  exec = none;
  timeout = j.timeout;
  job_class = class_default;
  cron_expr = "";
  is_repeat = false;
  max_retries = j.max_retries;
  retry_count = add64 j.retry_count 1;
  retry_delay = double64 j.retry_delay;
  status = status_pending;
  created_at = j.created_at;
  updated_at = now;
  attempts = 0;
}

pub record JobSnapshot : Type 0 where
  pub id : String
  pub name : String
  pub type_name : String
  pub payload : List ℕ
  pub trigger_at : ℕ
  pub group : String
  pub cron_expr : String
  pub is_repeat : Bool
  pub timeout : ℕ
  pub max_retries : ℕ
  pub retry_count : ℕ
  pub retry_delay : ℕ
  pub status : ℕ
  pub created_at : ℕ
  pub updated_at : ℕ
  pub attempts : ℕ
  pub exec : Option ExecMeta

unfoldable pub snapshot_handler_key : JobSnapshot → String
snapshot_handler_key s = key_of s.type_name s.name

unfoldable pub to_snapshot : Job → JobSnapshot
to_snapshot j = record {
  id = j.id;
  name = j.name;
  type_name = j.type_name;
  payload = j.payload;
  trigger_at = j.trigger_at;
  group = j.group;
  cron_expr = j.cron_expr;
  is_repeat = j.is_repeat;
  timeout = j.timeout;
  max_retries = j.max_retries;
  retry_count = j.retry_count;
  retry_delay = j.retry_delay;
  status = j.status;
  created_at = j.created_at;
  updated_at = j.updated_at;
  attempts = j.attempts;
  exec = j.exec;
}

unfoldable pub from_snapshot : Job → JobSnapshot → Job
from_snapshot j s = record j {
  id = s.id;
  name = s.name;
  type_name = s.type_name;
  payload = s.payload;
  trigger_at = s.trigger_at;
  group = s.group;
  cron_expr = s.cron_expr;
  is_repeat = s.is_repeat;
  timeout = s.timeout;
  max_retries = s.max_retries;
  retry_count = s.retry_count;
  retry_delay = s.retry_delay;
  status = s.status;
  created_at = s.created_at;
  updated_at = s.updated_at;
  attempts = s.attempts;
  exec = s.exec;
}

-- The value of &Job{}.
abbrev pub zero_job : Job
zero_job = record {
  id = "";
  name = "";
  type_name = "";
  payload = [];
  trigger_at = 0;
  group = "";
  handler = none;
  exec = none;
  timeout = 0;
  job_class = class_default;
  cron_expr = "";
  is_repeat = false;
  max_retries = 0;
  retry_count = 0;
  retry_delay = 0;
  status = status_pending;
  created_at = 0;
  updated_at = 0;
  attempts = 0;
}
