-- ===== src/JsonStore.antt =====
-- core/store.go: the JSON file store. The mutex makes each call one step, and one call reads the
-- clock once, `now`. The two values of the retention are read together. The file is the list of its
-- bytes, or none where there is no file.
pub mod Live
pub mod Entries
pub mod Sorted
pub mod Deletes
pub mod Trim
pub mod Disk
pub mod Refines
mod Tests
use Prim.Native.String.{compare}
use Prim.Native.Nat.{Ordering}
use godelayq.Prelude.{
  ℕ, ◌+◌, ◌-◌, ◌<◌, List, [], ◌∷◌, Bool, true, false, ◌&&◌, ◌||◌, not, Option, none, some, String,
  ltb, leb, ◌==◌, if◌then◌else◌, length, map, drop,
}
use godelayq.Int64.{two63, positive64}
use godelayq.Dict
use godelayq.Dict.{Dict}
use godelayq.Job.{Job, JobSnapshot, is_terminal, to_snapshot}

pub record JsonFileStore : Type 0 where
  pub jobs : Dict JobSnapshot
  pub dirty : Bool
  pub flush_seq : ℕ
  pub history_limit : ℕ
  pub history_ttl : ℕ
  pub file : Option (List ℕ)

abbrev pub default_history_limit : ℕ
default_history_limit = 1000

-- The int64 is below 0.
abbrev pub negative64 : ℕ → Bool
negative64 n = leb two63 n

-- now.Sub(t), which is not positive where t is later, and is at most the greatest int64.
abbrev pub elapsed : ℕ → ℕ → ℕ
elapsed now t = if ltb (now - t) two63 then now - t else two63 - 1

unfoldable pub history_retention_values : ℕ → ℕ → ℕ × ℕ
history_retention_values limit ttl = (if limit == 0 then default_history_limit else limit, ttl)

unfoldable pub set_history_retention : JsonFileStore → ℕ → ℕ → JsonFileStore
unfolding history_retention_values
set_history_retention s limit ttl =
    let (l, t) = history_retention_values limit ttl in
    record s { history_limit = l; history_ttl = t }

-- A finished job that the retention drops whatever the others are.
abbrev pub stale : ℕ → ℕ → ℕ → JobSnapshot → Bool
stale limit ttl now snap =
    negative64 limit || (positive64 ttl && ltb ttl (elapsed now snap.updated_at))

-- The loop over the map: what it leaves, and the finished jobs among that.
unfoldable pub sweep : ℕ → ℕ → ℕ → Dict JobSnapshot → Dict JobSnapshot
sweep limit ttl now [] = []
sweep limit ttl now ((id, snap) ∷ m) =
    let rest = sweep limit ttl now m in
    if is_terminal snap.status && stale limit ttl now snap then rest else (id, snap) ∷ rest

unfoldable pub terminals : Dict JobSnapshot → List JobSnapshot
terminals [] = []
terminals ((id, snap) ∷ m) =
    let rest = terminals m in if is_terminal snap.status then snap ∷ rest else rest

abbrev pub str_before : String → String → Bool
str_before a b = elim (compare a b) [ Ordering.lt ↦ true | _ ↦ false ]

-- The less function of the sort: the later first, and by id at the same time.
unfoldable pub newer : JobSnapshot → JobSnapshot → Bool
newer a b =
    if a.updated_at == b.updated_at then str_before a.id b.id else ltb b.updated_at a.updated_at

-- sort.Slice.
unfoldable pub insert_sorted : JobSnapshot → List JobSnapshot → List JobSnapshot
insert_sorted x [] = x ∷ []
insert_sorted x (y ∷ l) = let rest = insert_sorted x l in if newer x y then x ∷ y ∷ l else y ∷ rest

unfoldable pub sort_newest : List JobSnapshot → List JobSnapshot
unfolding insert_sorted newer
sort_newest [] = []
sort_newest (x ∷ l) = insert_sorted x (sort_newest l)

unfoldable pub delete_all : List JobSnapshot → Dict JobSnapshot → Dict JobSnapshot
delete_all [] m = m
delete_all (snap ∷ l) m = delete_all l (Dict.delete snap.id m)

unfoldable pub trim_terminal_locked : JsonFileStore → ℕ → JsonFileStore
trim_terminal_locked s now =
    let swept = sweep s.history_limit s.history_ttl now s.jobs in
    if not (negative64 s.history_limit) && ltb s.history_limit (length (terminals swept))
    then record s { jobs = delete_all (drop s.history_limit (sort_newest (terminals swept))) swept }
    else record s { jobs = swept }

unfoldable pub trim_after_write_locked : JsonFileStore → ℕ → JobSnapshot → JsonFileStore
trim_after_write_locked s now snap =
    if is_terminal snap.status then trim_terminal_locked s now else s

unfoldable pub update : JsonFileStore → ℕ → JobSnapshot → JsonFileStore
update s now snap =
    trim_after_write_locked (record s { jobs = Dict.insert snap.id snap s.jobs; dirty = true }) now
      snap

unfoldable pub save : JsonFileStore → ℕ → Job → JsonFileStore
unfolding update
save s now j = update s now (to_snapshot j)

unfoldable pub delete : JsonFileStore → String → JsonFileStore
delete s id = record s { jobs = Dict.delete id s.jobs; dirty = true }

unfoldable pub load_all : JsonFileStore → List JobSnapshot
load_all s = map (λ e. e.1) s.jobs

-- encoding/json: the bytes of a map or an error, and the map that bytes are added to.
pub record Codec : Type 0 where
  pub marshal : Dict JobSnapshot → Option (List ℕ)
  pub unmarshal : List ℕ → Dict JobSnapshot → Option (Dict JobSnapshot)

-- Whether the write of the temporary file and its rename succeed.
pub record DiskAnswers : Type 0 where
  pub written : Bool
  pub renamed : Bool

-- The state and whether there was no error.
unfoldable pub flush_dirty : Codec → JsonFileStore → DiskAnswers → JsonFileStore × Bool
flush_dirty codec s disk = elim (codec.marshal s.jobs) [
  | none ↦ (s, false)
  | some bytes ↦
      if disk.written && disk.renamed
      then (record s { file = some bytes; dirty = false; flush_seq = s.flush_seq + 1 }, true)
      else (s, false)
]

unfoldable pub flush_locked : Codec → JsonFileStore → DiskAnswers → JsonFileStore × Bool
flush_locked codec s disk = if not s.dirty then (s, true) else flush_dirty codec s disk

-- The file is not there, cannot be read, or has the given bytes.
pub data FileRead : Type 0 where
  missing unreadable : FileRead
  contents : List ℕ → FileRead

unfoldable pub load_from_disk : Codec → JsonFileStore → FileRead → JsonFileStore × Bool
load_from_disk codec s missing = (s, true)
load_from_disk codec s unreadable = (s, false)
load_from_disk codec s (contents []) = (s, true)
load_from_disk codec s (contents (b ∷ bytes)) = elim (codec.unmarshal (b ∷ bytes) s.jobs) [
  | none ↦ (s, false)
  | some jobs ↦ (record s { jobs = jobs }, true)
]

abbrev pub empty_store : ℕ → ℕ → Option (List ℕ) → JsonFileStore
empty_store limit ttl file = record {
  jobs = [];
  dirty = false;
  flush_seq = 0;
  history_limit = limit;
  history_ttl = ttl;
  file = file;
}

-- NewJSONFileStoreWithOptions, after the directory is made.
unfoldable pub new_json_file_store :
    Codec → ℕ → ℕ → Option (List ℕ) → FileRead → Option JsonFileStore
unfolding history_retention_values load_from_disk
new_json_file_store codec limit ttl file read =
    let (l, t) = history_retention_values limit ttl in
    let (s, good) = load_from_disk codec (empty_store l t file) read in
    if good then some s else none
