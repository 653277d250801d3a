-- ===== src/Named/Kinds.antt =====
-- The two stores, of the groups and of the profiles, in and out of their files.
mod Tests
use godelayq.Prelude.{
  ◌≡◌, refl, sym, ap, ◌∙◌, inl, inr, Option, some, String, List, ℕ, Bool-cases, Option-cases,
}
use godelayq.Text.{trim_text, is_blank_text}
use godelayq.Named.Agree.{Agree}
use godelayq.Named.Alike.{AlikeLaws}
use godelayq.Dict.{Dict}
use godelayq.JsonStore.{FileRead, negative64}
use godelayq.Named.{ListCodec, NamedStore, load_groups, load_profiles}
use godelayq.Named.Groups.{Group, group_kind, good_group}
use godelayq.Named.Profiles.{
  ExecutorProfileRecord, Durations, profile_kind, check_profile_record, command,
}
use godelayq.Named.Reopen.{KindLaws, ListLaws}
use godelayq.Named.Survives.{NamedSteps, Acked, Survives}
use godelayq.Named.Opened.{every_record_read, good_records_read}

group_kind-KindLaws : KindLaws group_kind
unfolding good_group
group_kind-KindLaws = record { name-stamped = λ g c u. refl; good-stamped = λ g c u. refl }

profile_kind-KindLaws : (durations : Durations) → KindLaws (profile_kind durations)
unfolding check_profile_record command
profile_kind-KindLaws durations = record {
  name-stamped = λ r c u. refl;
  good-stamped = λ r c u. refl;
}

-- A group is read back as it was written.
group_kind-AlikeLaws : AlikeLaws group_kind (λ g h. g ≡ h)
group_kind-AlikeLaws = record {
  one_name = λ g h e. ap (λ x. x.name) (sym e);
  one_check = λ g h e. ap good_group (sym e);
}

-- A profile is read back with the entries of its two maps, of which the file keeps no order, and with
-- the rest as it was written.
pub record SameProfile (r q : ExecutorProfileRecord) : Type 0 where
  pub rest : q ≡ record r { env = q.env; headers = q.headers }
  pub env : Agree r.env q.env
  pub headers : Agree r.headers q.headers

maps_unchecked :
    (durations : Durations) (r : ExecutorProfileRecord) (env : Dict String)
    (headers : Dict (List String))
    → check_profile_record durations (record r { env = env; headers = headers })
      ≡ check_profile_record durations r
unfolding check_profile_record command
maps_unchecked durations r env headers = elim (Bool-cases (is_blank_text (trim_text r.timeout))) [
  | inl blank ↦ rw (blank, command) refl
  | inr text ↦
      rw (text, command)
        (elim (Option-cases (durations.parse (trim_text r.timeout))) [
          | inl bad ↦ rw (bad, command) refl
          | inr (t, good) ↦
              rw (good, command)
                (elim (Bool-cases (negative64 t)) [
                  | inl low ↦ rw low refl
                  | inr fine ↦ rw fine refl
                ])
        ])
]

profile_kind-AlikeLaws : (durations : Durations) → AlikeLaws (profile_kind durations) SameProfile
profile_kind-AlikeLaws durations = record {
  one_name = λ r q same. ap (λ x. x.name) same.rest;
  one_check = λ r q same.
      ap (check_profile_record durations) same.rest ∙ maps_unchecked durations r q.env q.headers;
}

-- After the file of the groups was opened and any calls were made, a Save or Delete that gives no error
-- leaves a file that, opened again, gives under every name what the store gives now, given that
-- encoding/json reads back the groups it writes.
pub groups_survive :
    (lower : String → String) (codec : ListCodec Group) (read : FileRead) (m : Dict Group)
    (file : Option (List ℕ)) (s s1 : NamedStore Group)
    → ListLaws (λ g h. g ≡ h) codec
    → load_groups group_kind lower codec read ≡ some m
    → NamedSteps group_kind lower codec (record { records = m; file = file }) s
    → Acked group_kind lower codec s s1
    → Survives group_kind lower codec (λ g h. g ≡ h) (load_groups group_kind lower codec) s1
groups_survive lower codec read m file s s1 back opened calls last =
    every_record_read group_kind lower codec (λ g h. g ≡ h) read m file s s1 group_kind-KindLaws
      group_kind-AlikeLaws back opened calls last

-- After the file of the profiles was opened and any calls were made, a Save or Delete that gives no
-- error leaves a file that the load, which refuses bad records and a second one of a name, takes, and it
-- gives under every name what the store gives now, or nothing where the store has nothing: the entries of
-- the environment and of the headers in any order, all else equal. That is given that encoding/json reads
-- back the profiles it writes, but for the order of the entries of their maps.
pub profiles_survive :
    (durations : Durations) (lower : String → String) (codec : ListCodec ExecutorProfileRecord)
    (read : FileRead) (m : Dict ExecutorProfileRecord) (file : Option (List ℕ))
    (s s1 : NamedStore ExecutorProfileRecord)
    → ListLaws SameProfile codec
    → load_profiles (profile_kind durations) lower codec read ≡ some m
    → NamedSteps (profile_kind durations) lower codec (record { records = m; file = file }) s
    → Acked (profile_kind durations) lower codec s s1
    → Survives
        (profile_kind durations)
        lower
        codec
        SameProfile
        (load_profiles (profile_kind durations) lower codec)
        s1
profiles_survive durations lower codec read m file s s1 back opened calls last =
    good_records_read (profile_kind durations) lower codec SameProfile read m file s s1
      (profile_kind-KindLaws durations) (profile_kind-AlikeLaws durations) back opened calls last
