-- ===== src/Named.antt =====
-- What core/group_store.go and core/executor_profile_store.go share: records kept under their names in
-- lower case, in one JSON file that every change writes anew. The mutex makes each call one step. The
-- file is the list of its bytes, or none where there is no file; a time is a number whose 0 is the zero
-- time; strings.ToLower is the argument `lower`.
pub mod Agree
pub mod Alike
pub mod Reopen
pub mod Survives
pub mod Opened
pub mod Updates
pub mod Groups
pub mod Profiles
pub mod Commands
pub mod Kinds
mod Tests
use godelayq.Prelude.{
  ℕ, List, [], ◌∷◌, Bool, true, false, ◌&&◌, not, Option, none, some, String, ◌==◌, if◌then◌else◌,
}
use godelayq.Dict
use godelayq.Dict.{Dict}
use godelayq.JsonStore.{DiskAnswers, FileRead, missing, unreadable, contents, str_before}

-- What the store reads of a kind of records: the name, the time of the creation, the record with its
-- two times written, and the check before a write.
pub record Kind (R : Type 0) : Type 0 where
  pub name : R → String
  pub created_at : R → ℕ
  pub stamped : R → ℕ → ℕ → R
  pub good : R → Bool

-- encoding/json: the bytes of a list or an error; whether strings.TrimSpace leaves nothing of the
-- bytes; the list that is read from them or an error.
pub record ListCodec (R : Type 0) : Type 0 where
  pub marshal : List R → Option (List ℕ)
  pub blank : List ℕ → Bool
  pub unmarshal : List ℕ → Option (List R)

pub record NamedStore (R : Type 0) : Type 0 where
  pub records : Dict R
  pub file : Option (List ℕ)

-- The answer of a call: refused with nothing done, an error of the disk, or no error.
pub data Answer : Type 0 where
  refused disk_failed done : Answer

abbrev pub values : {R : Type 0} → Dict R → List R
values [] = []
values (e ∷ m) = e.1 ∷ values m

module _ {R : Type 0} (kind : Kind R) (lower : String → String) where
  abbrev pub key : R → String
  key r = lower (kind.name r)

  -- sort.Slice by the lower case of the names.
  unfoldable pub insert_named : R → List R → List R
  insert_named r [] = r ∷ []
  insert_named r (q ∷ l) =
      let rest = insert_named r l in if str_before (key q) (key r) then q ∷ rest else r ∷ q ∷ l

  unfoldable pub sort_named : List R → List R
  sort_named [] = []
  sort_named (r ∷ l) = insert_named r (sort_named l)

  abbrev pub list_all : NamedStore R → List R
  list_all s = sort_named (values s.records)

  abbrev pub get : NamedStore R → String → Option R
  get s name = Dict.lookup (lower name) s.records

  -- The times that Save gives the record.
  unfoldable pub stamp : Option R → R → ℕ → R
  stamp none r now = kind.stamped r (if kind.created_at r == 0 then now else kind.created_at r) now
  stamp (some existing) r now =
      kind.stamped r
        (if kind.created_at r == 0 then kind.created_at existing else kind.created_at r) now

  -- The loop of the load of the groups, which takes every record.
  unfoldable pub take_each : List R → Dict R → Dict R
  take_each [] m = m
  take_each (r ∷ l) m = take_each l (Dict.insert (key r) r m)

  -- The loop of the load of the profiles, which stops at a bad record or a second one of a name.
  unfoldable pub take_checked : List R → Dict Bool → Dict R → Option (Dict R)
  take_checked [] seen m = some m
  take_checked (r ∷ l) seen m =
      if not (kind.good r) then none else elim (Dict.lookup (key r) seen) [
        | some _ ↦ none
        | none ↦ take_checked l (Dict.insert (key r) true seen) (Dict.insert (key r) r m)
      ]

  module _ (codec : ListCodec R) where
    unfoldable pub write_all : NamedStore R → DiskAnswers → NamedStore R × Answer
    write_all s disk = elim (codec.marshal (list_all s)) [
      | none ↦ (s, disk_failed)
      | some bytes ↦
          if disk.written && disk.renamed
          then (record s { file = some bytes }, done)
          else (s, disk_failed)
    ]

    unfoldable pub save_named : NamedStore R → R → ℕ → DiskAnswers → NamedStore R × Answer
    save_named s r now disk =
        if not (kind.good r)
        then (s, refused)
        else write_all
            (record s {
              records = Dict.insert (key r) (stamp (Dict.lookup (key r) s.records) r now) s.records;
            })
            disk

    unfoldable pub delete_named : NamedStore R → String → DiskAnswers → NamedStore R × Answer
    delete_named s name disk = elim (Dict.lookup (lower name) s.records) [
      | none ↦ (s, refused)
      | some _ ↦ write_all (record s { records = Dict.delete (lower name) s.records }) disk
    ]

    -- The load of a file with the loop of the kind.
    unfoldable pub load_named : (List R → Option (Dict R)) → FileRead → Option (Dict R)
    load_named loop missing = some []
    load_named loop unreadable = none
    load_named loop (contents bytes) =
        if codec.blank bytes
        then some []
        else elim (codec.unmarshal bytes) [ none ↦ none | some l ↦ loop l ]

    abbrev pub load_groups : FileRead → Option (Dict R)
    load_groups = load_named (λ l. some (take_each l []))

    abbrev pub load_profiles : FileRead → Option (Dict R)
    load_profiles = load_named (λ l. take_checked l [] [])
