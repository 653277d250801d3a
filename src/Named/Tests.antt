-- ===== src/Named/Tests.antt =====
-- The theorems on the named records at a group, a profile and small codecs.
use Prim.Native.String.{String}
use godelayq.Prelude.{
  ℕ, zero, suc, ◌≡◌, ◌≢◌, ◌⊎◌, refl, ap, Bool, true, false, none, some, [], ◌∷◌, arith, ite,
  string_discrete, ◌&&◌,
}
use godelayq.Int64.{positive64}
use godelayq.Text.{trim_text, trim_front, trim_back, is_space, is_blank_text}
use godelayq.Dict
use godelayq.JsonStore.{DiskAnswers, contents}
use godelayq.Named.{
  ListCodec, NamedStore, refused, done, insert_named, sort_named, stamp, take_each, write_all,
  save_named, delete_named, load_named, load_groups,
}
use godelayq.Named.Groups.{
  Group, group_kind, good_group, good_name, good_color, all_of, is_hex_color,
}
use godelayq.Named.Profiles.{
  ExecutorCommand, ExecutorProfileRecord, Durations, new_executor_profile_record, command,
}
use godelayq.Named.Commands.{DurationLaws, command_round_trip}
use godelayq.Named.Updates.{Put, save_named_lem}

-- A codec that reads one record, and writes only the empty list.
abbrev one_codec : {R : Type 0} → R → ListCodec R
one_codec r = record {
  marshal = λ l. elim l [ [] ↦ some (91 ∷ 93 ∷ []) | _ ↦ none ];
  blank = λ bytes. elim bytes [ [] ↦ true | _ ↦ false ];
  unmarshal =
      λ bytes. elim bytes [ [] ↦ none | c ∷ rest ↦ elim rest [ [] ↦ some (r ∷ []) | _ ↦ some [] ] ];
}

abbrev pub lower_demo : String → String
lower_demo s = ite (string_discrete s "OPS") "ops" s

abbrev ops : Group
ops = record { name = "ops"; description = ""; color = "#a0f"; created_at = 3; updated_at = 3 }

abbrev ops_again : Group
ops_again = record {
  name = "OPS";
  description = "on call";
  color = "#a0f";
  created_at = 0;
  updated_at = 0;
}

abbrev pub good_disk : DiskAnswers
good_disk = record { written = true; renamed = true }

abbrev full_disk : DiskAnswers
full_disk = record { written = false; renamed = true }

abbrev opened_groups : NamedStore Group
opened_groups = record { records = ("ops", ops) ∷ []; file = some (49 ∷ []) }

groups_read :
    load_groups group_kind lower_demo (one_codec ops) (contents (49 ∷ []))
    ≡ some (("ops", ops) ∷ [])
unfolding load_named take_each Dict.insert string_discrete
groups_read = refl

abbrev after_failure : NamedStore Group
after_failure =
    (save_named group_kind lower_demo (one_codec ops) opened_groups ops_again 7 full_disk).0

group_deleted :
    (delete_named group_kind lower_demo (one_codec ops) after_failure "ops" good_disk).1 ≡ done
unfolding delete_named save_named write_all sort_named insert_named stamp good_group good_name
    good_color is_hex_color all_of Dict.insert Dict.lookup Dict.delete string_discrete
group_deleted = refl

save_named_lem_example :
    ((group_kind.good ops_again ≡ true)
      × Put group_kind lower_demo opened_groups after_failure ops_again 7
      × ((save_named group_kind lower_demo (one_codec ops) opened_groups ops_again 7 full_disk).1
          ≢ refused))
    ⊎ ((group_kind.good ops_again ≡ false)
        × (save_named group_kind lower_demo (one_codec ops) opened_groups ops_again 7 full_disk
            ≡ (opened_groups, refused)))
save_named_lem_example =
    save_named_lem group_kind lower_demo (one_codec ops) opened_groups ops_again 7 full_disk

abbrev unary : ℕ → String
unary zero = ""
unary (suc n) = String.◌∷◌ "x" (unary n)

abbrev pub count : String → ℕ
count String.[] = 0
count (String.◌∷◌ c s) = suc (count s)

abbrev pub demo_durations : Durations
demo_durations = record { parse = λ s. some (count s); print = unary }

count-unary : (n : ℕ) → count (unary n) ≡ n
count-unary zero = refl
count-unary (suc n) = ap suc (count-unary n)

no_blank : (b : Bool) → (b && false) ≡ false
no_blank true = refl
no_blank false = refl

trim_back-unary : (n : ℕ) → trim_back (unary n) ≡ unary n
unfolding trim_back is_space
trim_back-unary zero = refl
trim_back-unary (suc n) =
    rw (no_blank (is_blank_text (trim_back (unary n))))
      (ap (λ s. String.◌∷◌ "x" s) (trim_back-unary n))

trim_text-unary : (n : ℕ) → trim_text (unary n) ≡ unary n
unfolding trim_text trim_front is_space
trim_text-unary zero = trim_back-unary zero
trim_text-unary (suc n) = trim_back-unary (suc n)

blank-unary : (n : ℕ) → positive64 n ≡ true → is_blank_text (unary n) ≡ false
blank-unary zero e = absurd (cc)
blank-unary (suc n) e = refl

demo-DurationLaws : DurationLaws demo_durations
demo-DurationLaws = record {
  parse-print = λ t e. ap some (count-unary t);
  trim-print = λ t e. trim_text-unary t;
  not_blank = blank-unary;
}

abbrev copy : ExecutorCommand
copy = record {
  name = "copy";
  kind = "command";
  runtime = "";
  script = "";
  program = "/bin/cp";
  fixed_args = "-a" ∷ [];
  args =
      record {
        name = "from";
        required = true;
        default = "";
        pattern = "";
        secret = false;
        allow_dash = false;
      }
      ∷ [];
  args_render = "{from}" ∷ [];
  positional = some (record { max = 2; pattern = "" });
  cwd = "/";
  env = ("A", "b") ∷ [];
  env_allow = [];
  timeout = 3;
  max_parallel = 2;
  retry_on_exit = 75 ∷ [];
  method = "";
  url_template = "";
  allowed_hosts = [];
  headers = [];
  header_allow = [];
  body = "";
  expect_status = [];
  capture_response = false;
  max_body_bytes = 0;
  max_redirects = 0;
  deny_private = some true;
}

command_round_trip_example :
    command demo_durations (new_executor_profile_record demo_durations copy) ≡ some copy
command_round_trip_example = command_round_trip demo_durations copy demo-DurationLaws (omega arith)

abbrev pub copy_record : ExecutorProfileRecord
copy_record = new_executor_profile_record demo_durations copy
