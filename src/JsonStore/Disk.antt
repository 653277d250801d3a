-- ===== src/JsonStore/Disk.antt =====
-- The file behind the map: what a new start reads.
use godelayq.Prelude.{
  ℕ, ◌+◌, ◌≡◌, ◌≢◌, refl, sym, ap, inl, inr, List, [], ◌∷◌, Bool, true, false, not, ◌&&◌, Option,
  none, some, String, arith, Bool-cases, Option-cases, if◌then◌else◌, subst,
}
use godelayq.Dict
use godelayq.Dict.{Dict}
use godelayq.Text.{to_valid_utf8}
use godelayq.Job.{JobSnapshot, ExecMeta}
use godelayq.JsonStore.{
  JsonFileStore, Codec, DiskAnswers, FileRead, contents, missing, flush_dirty, flush_locked,
  load_from_disk, empty_store, update, delete, trim_after_write_locked, trim_terminal_locked,
}

-- What is read back of a snapshot: the preview of its output, which may be cut anywhere, has each byte that
-- is no UTF-8 replaced. Every other text of a snapshot is a list of code points here, so it is UTF-8.
abbrev pub exec_read : Option ExecMeta → Option ExecMeta
exec_read none = none
exec_read (some e) = some (record e { preview = to_valid_utf8 e.preview })

abbrev pub as_read : JobSnapshot → JobSnapshot
as_read snap = record snap { exec = exec_read snap.exec }

abbrev pub read_of : Option JobSnapshot → Option JobSnapshot
read_of none = none
read_of (some snap) = some (as_read snap)

-- What encoding/json is relied on for: of a map that was written, what is read back is the same up to the
-- order of its entries and to the bytes that are no UTF-8, and no map is written as no bytes.
pub record CodecLaws (codec : Codec) : Type 0 where
  pub round_trip :
      (m : Dict JobSnapshot) (bytes : List ℕ)
      → codec.marshal m ≡ some bytes
      → (m' : Dict JobSnapshot) × (codec.unmarshal bytes [] ≡ some m')
        × ((k : String) → Dict.lookup k m' ≡ read_of (Dict.lookup k m))
  pub some_bytes : (m : Dict JobSnapshot) → codec.marshal m ≢ some []

-- What a start reads of the file.
abbrev pub file_read : Option (List ℕ) → FileRead
file_read none = missing
file_read (some bytes) = contents bytes

-- A start that reads the file has the same jobs, as they are read back.
pub record OnDisk (codec : Codec) (s : JsonFileStore) : Type 0 where
  pub reopened : JsonFileStore
  pub reads :
      load_from_disk codec (empty_store s.history_limit s.history_ttl s.file) (file_read s.file)
      ≡ (reopened, true)
  pub same : (k : String) → Dict.lookup k reopened.jobs ≡ read_of (Dict.lookup k s.jobs)

-- A store that is not dirty is on the disk.
abbrev pub Saved : Codec → JsonFileStore → Type 0
Saved codec s = s.dirty ≡ false → OnDisk codec s

written_lem :
    (codec : Codec) (laws : CodecLaws codec) (s : JsonFileStore) (bytes : List ℕ)
    → codec.marshal s.jobs ≡ some bytes
    → OnDisk codec (record s { file = some bytes; dirty = false; flush_seq = s.flush_seq + 1 })
unfolding load_from_disk
written_lem codec laws s [] e = absurd (laws.some_bytes s.jobs e)
written_lem codec laws s (b ∷ bytes) e =
    let (m, reads, same) = laws.round_trip s.jobs (b ∷ bytes) e in
    record {
      reopened = record (empty_store s.history_limit s.history_ttl (some (b ∷ bytes))) { jobs = m };
      reads = rw (reads, load_from_disk) refl;
      same = same;
    }

-- What Flush gives: the state and whether there was no error.
pub data Flushed (codec : Codec) (s : JsonFileStore) : JsonFileStore × Bool → Type 0 where
  clean : s.dirty ≡ false → Flushed codec s (s, true)
  wrote :
      (s' : JsonFileStore)
      → s.dirty ≡ true
      → s'.dirty ≡ false
      → s'.jobs ≡ s.jobs
      → OnDisk codec s'
      → Flushed codec s (s', true)
  failed : s.dirty ≡ true → Flushed codec s (s, false)

-- Flush, where encoding/json reads back what it wrote, but for bytes of a preview that are no UTF-8. It
-- does nothing if the store is not dirty. If it reports no error, the jobs are the same, the store is not
-- dirty, and a start reads the same jobs from the file, with such bytes replaced. If it reports one, of
-- the encoding, the write or the rename, nothing has changed, and the store is still dirty.
pub flush_locked_lem :
    (codec : Codec) (laws : CodecLaws codec) (s : JsonFileStore) (disk : DiskAnswers)
    → Flushed codec s (flush_locked codec s disk)
unfolding flush_locked flush_dirty
flush_locked_lem codec laws s disk = elim (Bool-cases s.dirty) [
  | inr quiet ↦
      subst (λ (b : Bool). Flushed codec s (if b then (s, true) else flush_dirty codec s disk))
        (sym (ap not quiet)) (clean quiet)
  | inl dirty ↦
      subst (λ (b : Bool). Flushed codec s (if b then (s, true) else flush_dirty codec s disk))
        (sym (ap not dirty))
        (elim (Option-cases (codec.marshal s.jobs)) [
          | inl bad ↦ rw (bad, flush_dirty) (failed dirty)
          | inr (bytes, good) ↦
              rw (good, flush_dirty)
                (elim (Bool-cases (disk.written && disk.renamed)) [
                  | inl fine ↦
                      rw fine (wrote _ dirty refl refl (written_lem codec laws s bytes good))
                  | inr broken ↦ rw broken (failed dirty)
                ])
        ])
]

-- Writes and flushes of a store.
pub data DiskStep (codec : Codec) (s : JsonFileStore) : JsonFileStore → Type 0 where
  updated : (now : ℕ) (snap : JobSnapshot) → DiskStep codec s (update s now snap)
  deleted : (id : String) → DiskStep codec s (delete s id)
  flushed : (disk : DiskAnswers) → DiskStep codec s (flush_locked codec s disk).0

dirty-update : (s : JsonFileStore) (now : ℕ) (snap : JobSnapshot) → (update s now snap).dirty ≡ true
unfolding update trim_after_write_locked trim_terminal_locked
dirty-update s now snap = ground arith

-- After each write and each flush, a store that is not dirty is on the disk, if it was so before and
-- encoding/json reads back what it wrote: a start reads the same jobs from the file, but for bytes of a
-- preview that are no UTF-8, which are replaced.
pub DiskStep-Saved :
    (codec : Codec) (laws : CodecLaws codec) {s s' : JsonFileStore}
    → DiskStep codec s s'
    → Saved codec s
    → Saved codec s'
unfolding delete
DiskStep-Saved codec laws {s} (updated now snap) v clean_now =
    let d = dirty-update s now snap in absurd (cc)
DiskStep-Saved codec laws (deleted id) v clean_now = absurd (cc)
DiskStep-Saved codec laws {s} (flushed disk) v clean_now =
    saved_after (flush_locked codec s disk) (flush_locked_lem codec laws s disk) clean_now
  where
    saved_after : (r : JsonFileStore × Bool) → Flushed codec s r → Saved codec r.0
    saved_after _ (clean q) = v
    saved_after _ (wrote t d q same on_disk) = λ _. on_disk
    saved_after _ (failed d) = v
