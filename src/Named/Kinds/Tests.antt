-- ===== src/Named/Kinds/Tests.antt =====
-- A profile that is saved, and read from the file again.
use Prim.Native.String.{String}
use godelayq.Prelude.{
  ℕ, ◌≡◌, ◌⊎◌, refl, sym, ap, true, false, none, some, List, [], ◌∷◌, arith, Option, ite,
  string_discrete, if_pos, if_neg, subst, inl, inr, ◌∙◌,
}
use mathlib.Core.Option.{some_inj}
use godelayq.Text.{trim_text, trim_front, trim_back, is_space}
use godelayq.Dict
use godelayq.JsonStore.{missing}
use godelayq.Named.{
  ListCodec, NamedStore, Answer, done, insert_named, sort_named, stamp, write_all, save_named,
  load_named, load_profiles,
}
use godelayq.Named.Groups.{good_name, all_of}
use godelayq.Named.Profiles.{
  ExecutorProfileRecord, profile_kind, new_executor_profile_record, command, check_profile_record,
}
use native.Mathlib.Decide.{ℕ_discrete}
use godelayq.Named.Alike.{Each, ends, follows}
use godelayq.Named.Reopen.{ListLaws}
use godelayq.Named.Survives.{no_call, Acked, Survives}
use godelayq.Named.Kinds.{SameProfile, profiles_survive}
use godelayq.Named.Tests.{lower_demo, good_disk, count, demo_durations, copy_record}

-- The profile with two entries in its environment, and as it is read back.
abbrev stored : ExecutorProfileRecord
stored = record copy_record { env = ("BB", "c") ∷ ("A", "b") ∷ []; updated_at = 9; created_at = 5 }

abbrev sorted : ExecutorProfileRecord
sorted = record stored { env = ("A", "b") ∷ ("BB", "c") ∷ [] }

abbrev fresh_profile : ExecutorProfileRecord
fresh_profile = record stored { created_at = 5; updated_at = 0 }

swapped :
    (k : String) (x y : Option String) (a : Dec ("A" ≡ k)) (b : Dec ("BB" ≡ k))
    → ite b x (ite a y none) ≡ ite a y (ite b x none)
swapped k x y (yes p) (yes q) =
    let lengths : Path ℕ 1 2 = ap count (p ∙ sym q) in absurd (omega (arith, lengths))
swapped k x y (yes p) (no q) = refl
swapped k x y (no p) (yes q) = refl
swapped k x y (no p) (no q) = refl

swapped_env : (k : String) → Dict.lookup k stored.env ≡ Dict.lookup k sorted.env
unfolding Dict.lookup
swapped_env k = swapped k (some "c") (some "b") (string_discrete "A" k) (string_discrete "BB" k)

stored-SameProfile : SameProfile stored sorted
stored-SameProfile = record { rest = refl; env = swapped_env; headers = λ k. refl }

same_profiles : Discrete (List ExecutorProfileRecord)
same_profiles = hlevel (string_discrete, ℕ_discrete)

-- Writes two lists, that of the stored profile as one byte and the empty one as two.
abbrev profile_codec : ListCodec ExecutorProfileRecord
profile_codec = record {
  marshal = λ l.
      ite (same_profiles l (stored ∷ [])) (some (49 ∷ []))
        (ite (same_profiles l []) (some (91 ∷ 93 ∷ [])) none);
  blank = λ bytes. elim bytes [ [] ↦ true | _ ↦ false ];
  unmarshal = λ bytes. elim bytes [
    | [] ↦ none
    | c ∷ rest ↦ elim rest [ [] ↦ some (sorted ∷ []) | _ ↦ some [] ]
  ];
}

profile_codec_cases :
    (l : List ExecutorProfileRecord) (bytes : List ℕ)
    → profile_codec.marshal l ≡ some bytes
    → ((l ≡ stored ∷ []) × (49 ∷ [] ≡ bytes)) ⊎ ((l ≡ []) × (91 ∷ 93 ∷ [] ≡ bytes))
profile_codec_cases l bytes e = elim (same_profiles l (stored ∷ [])) [
  | yes full ↦ inl (full, some_inj.0 (rw (if_pos (same_profiles l (stored ∷ [])) full) at e))
  | no other ↦
      let f = rw (if_neg (same_profiles l (stored ∷ [])) other) at e in
      elim (same_profiles l []) [
        | yes empty ↦ inr (empty, some_inj.0 (rw (if_pos (same_profiles l []) empty) at f))
        | no neither ↦ let g = rw (if_neg (same_profiles l []) neither) at f in absurd (cc)
      ]
]

profile_codec-ListLaws : ListLaws SameProfile profile_codec
profile_codec-ListLaws = record { not_blank = text; read_back = back }
  where
    text :
        (l : List ExecutorProfileRecord) (bytes : List ℕ)
        → profile_codec.marshal l ≡ some bytes
        → profile_codec.blank bytes ≡ false
    text l bytes e = elim (profile_codec_cases l bytes e) [
      | inl x ↦ rw (sym x.1) refl
      | inr x ↦ rw (sym x.1) refl
    ]

    back :
        (l : List ExecutorProfileRecord) (bytes : List ℕ)
        → profile_codec.marshal l ≡ some bytes
        → (l' : List ExecutorProfileRecord) × (profile_codec.unmarshal bytes ≡ some l')
          × Each SameProfile l l'
    back l bytes e = elim (profile_codec_cases l bytes e) [
      | inl x ↦ (
        sorted ∷ [],
        rw (sym x.1) refl,
        subst (λ k. Each SameProfile k (sorted ∷ [])) (sym x.0)
            (follows stored sorted [] [] stored-SameProfile ends),
      )
      | inr x ↦ ([], rw (sym x.1) refl, subst (λ k. Each SameProfile k []) (sym x.0) ends)
    ]

abbrev no_profiles : NamedStore ExecutorProfileRecord
no_profiles = record { records = []; file = none }

none_read : load_profiles (profile_kind demo_durations) lower_demo profile_codec missing ≡ some []
unfolding load_named
none_read = refl

abbrev profile_saved : NamedStore ExecutorProfileRecord × Answer
profile_saved =
    save_named (profile_kind demo_durations) lower_demo profile_codec no_profiles fresh_profile 9
      good_disk

profile_good : check_profile_record demo_durations fresh_profile ≡ true
unfolding check_profile_record command new_executor_profile_record good_name all_of trim_text
    trim_front trim_back is_space
profile_good = refl

profile_written : profile_codec.marshal (stored ∷ []) ≡ some (49 ∷ [])
profile_written = if_pos (same_profiles (stored ∷ []) (stored ∷ [])) refl _ _

profile_done : profile_saved.1 ≡ done
unfolding save_named write_all sort_named insert_named stamp Dict.insert Dict.lookup
profile_done = rw (profile_good, profile_written, write_all) refl

profiles_survive_example :
    Survives
      (profile_kind demo_durations)
      lower_demo
      profile_codec
      SameProfile
      (load_profiles (profile_kind demo_durations) lower_demo profile_codec)
      profile_saved.0
profiles_survive_example =
    profiles_survive demo_durations lower_demo profile_codec missing [] none no_profiles
      profile_saved.0 profile_codec-ListLaws none_read no_call
      (Acked.saved fresh_profile 9 good_disk profile_done)
