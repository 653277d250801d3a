-- ===== src/JsonStore/Tests.antt =====
-- The theorems on the JSON file store at concrete stores and files.
use native.Mathlib.Decide.{ℕ_discrete}
use mathlib.Core.Option.{some_inj}
use godelayq.Text.{to_valid_utf8, replace_invalid, rune_size}
use godelayq.Prelude.{
  Bool, String, string_discrete, ite, if_pos, if_neg, sym, ap, ◌∙◌, ℕ, ◌≡◌, ◌≢◌, refl, ◌⊎◌, List,
  [], ◌∷◌, false, true, none, some,
}
use godelayq.Dict
use godelayq.Dict.{Dict}
use godelayq.Job.{JobSnapshot, is_terminal, status_success, zero_job, to_snapshot}
use godelayq.JsonStore.{
  JsonFileStore, Codec, DiskAnswers, empty_store, update, flush_dirty, flush_locked,
}
use godelayq.JsonStore.Trim.{Sound, Retained, update-Retained}
use godelayq.JsonStore.Disk.{
  exec_read, as_read, read_of, CodecLaws, Saved, Flushed, flush_locked_lem, flushed, DiskStep-Saved,
}

-- One finished job, at most, is kept.
abbrev small : JsonFileStore
small = empty_store 1 0 none

small-Sound : Sound small
small-Sound = record { distinct = tt; keyed = tt }

abbrev done_mail : JobSnapshot
done_mail = to_snapshot (record zero_job { id = "7"; status = status_success; updated_at = 40 })

update-Retained_example :
    ((is_terminal done_mail.status ≡ false)
      × ((update small 50 done_mail).jobs ≡ Dict.insert done_mail.id done_mail small.jobs)
      × Sound (update small 50 done_mail))
    ⊎ ((is_terminal done_mail.status ≡ true)
        × Retained 1 0 50 (Dict.insert done_mail.id done_mail []) (update small 50 done_mail).jobs)
update-Retained_example = update-Retained small 50 done_mail small-Sound

-- A preview that was cut inside a character.
abbrev cut_mail : JobSnapshot
cut_mail = record done_mail {
  exec = some (record {
    kind = "script";
    profile = "mail";
    exit_code = 0;
    signal = "";
    http_status = 0;
    duration_ms = 5;
    out_bytes = 3;
    err_bytes = 0;
    truncated = true;
    permanent = false;
    preview = 0xad ∷ 0x62 ∷ [];
    artifact = "";
  });
}

abbrev mails : Dict JobSnapshot
mails = ("7", cut_mail) ∷ []

preview_read :
    exec_read cut_mail.exec
    ≡ some (record {
      kind = "script";
      profile = "mail";
      exit_code = 0;
      signal = "";
      http_status = 0;
      duration_ms = 5;
      out_bytes = 3;
      err_bytes = 0;
      truncated = true;
      permanent = false;
      preview = 0xef ∷ 0xbf ∷ 0xbd ∷ 0x62 ∷ [];
      artifact = "";
    })
unfolding to_valid_utf8 replace_invalid rune_size
preview_read = refl

same_jobs : Discrete (Dict JobSnapshot)
same_jobs = hlevel (string_discrete, ℕ_discrete)

-- Writes two maps, that of the finished mail as one byte and the empty one as two.
abbrev small_codec : Codec
small_codec = record {
  marshal = λ m.
      ite (same_jobs m mails) (some (1 ∷ [])) (ite (same_jobs m []) (some (123 ∷ 125 ∷ [])) none);
  unmarshal = λ bytes m. elim bytes [
    | [] ↦ none
    | b ∷ rest ↦ elim rest [ [] ↦ some (("7", as_read cut_mail) ∷ m) | _ ↦ some m ]
  ];
}

one_read :
    {A : Type 0} (d : Dec A)
    → ite d (some (as_read cut_mail)) none ≡ read_of (ite d (some cut_mail) none)
one_read (yes a) = refl
one_read (no n) = refl

mails_read :
    (k : String) → Dict.lookup k (("7", as_read cut_mail) ∷ []) ≡ read_of (Dict.lookup k mails)
unfolding Dict.lookup
mails_read k = one_read (string_discrete "7" k)

nothing_read : (k : String) → Dict.lookup {V = JobSnapshot} k [] ≡ read_of (Dict.lookup k [])
unfolding Dict.lookup
nothing_read k = refl

small_codec-CodecLaws : CodecLaws small_codec
small_codec-CodecLaws = record { round_trip = reads; some_bytes = written }
  where
    reads :
        (m : Dict JobSnapshot) (bytes : List ℕ)
        → small_codec.marshal m ≡ some bytes
        → (m' : Dict JobSnapshot) × (small_codec.unmarshal bytes [] ≡ some m')
          × ((k : String) → Dict.lookup k m' ≡ read_of (Dict.lookup k m))
    reads m bytes e = elim (same_jobs m mails) [
      | yes full ↦
          let one : 1 ∷ [] ≡ bytes = some_inj.0 (rw (if_pos (same_jobs m mails) full) at e) in
          (
            ("7", as_read cut_mail) ∷ [],
            rw (sym one) refl,
            λ k. mails_read k ∙ ap (λ n. read_of (Dict.lookup k n)) (sym full),
          )
      | no other ↦
          let f = rw (if_neg (same_jobs m mails) other) at e in
          elim (same_jobs m []) [
            | yes empty ↦
                let two : 123 ∷ 125 ∷ [] ≡ bytes =
                  some_inj.0 (rw (if_pos (same_jobs m []) empty) at f) in
                (
                  [],
                  rw (sym two) refl,
                  λ k. nothing_read k ∙ ap (λ n. read_of (Dict.lookup k n)) (sym empty),
                )
            | no neither ↦ let g = rw (if_neg (same_jobs m []) neither) at f in absurd (cc)
          ]
    ]

    written : (m : Dict JobSnapshot) → small_codec.marshal m ≢ some []
    written m e = elim (same_jobs m mails) [
      | yes full ↦ let f = rw (if_pos (same_jobs m mails) full) at e in absurd (cc)
      | no other ↦
          let f = rw (if_neg (same_jobs m mails) other) at e in
          elim (same_jobs m []) [
            | yes empty ↦ let g = rw (if_pos (same_jobs m []) empty) at f in absurd (cc)
            | no neither ↦ let g = rw (if_neg (same_jobs m []) neither) at f in absurd (cc)
          ]
    ]

abbrev dirty_store : JsonFileStore
dirty_store = record small { jobs = mails; dirty = true }

abbrev disk_free : DiskAnswers
disk_free = record { written = true; renamed = true }

mails_marshal : small_codec.marshal mails ≡ some (1 ∷ [])
mails_marshal = if_pos (same_jobs mails mails) refl _ _

mail_written : (flush_locked small_codec dirty_store disk_free).0.file ≡ some (1 ∷ [])
unfolding flush_locked flush_dirty
mail_written = rw (mails_marshal, flush_dirty) refl

flush_locked_lem_example :
    Flushed small_codec dirty_store (flush_locked small_codec dirty_store disk_free)
flush_locked_lem_example = flush_locked_lem small_codec small_codec-CodecLaws dirty_store disk_free

DiskStep-Saved_example : Saved small_codec (flush_locked small_codec dirty_store disk_free).0
DiskStep-Saved_example =
    DiskStep-Saved small_codec small_codec-CodecLaws {s = dirty_store} (flushed disk_free)
      (λ (e : Path Bool true false). absurd (cc))
