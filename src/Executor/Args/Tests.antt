-- ===== src/Executor/Args/Tests.antt =====
-- The theorems on the arguments at one profile.
use godelayq.Int64.{positive64}
use godelayq.Prelude.{
  ◌≢◌, ◌⊎◌, ℕ, ◌≡◌, ◌≤◌, ◌<◌, refl, List, [], ◌∷◌, true, false, Option, none, some, String,
  string_discrete,
}
use godelayq.Text.{has_prefix, trim_text, trim_front, trim_back, is_space}
use godelayq.Dict
use godelayq.Dict.{Dict}
use godelayq.Executor.Args.{
  ArgSpec, Profile, check_arg_value, check_positional_value, each_positional, take_positional,
  contains_control, find_arg, all_given, fill_each, fill_values, parse_timeout,
  check_timeout_within_profile, timeout_within, positive_or, default_exec_max_timeout,
}
use godelayq.Executor.Args.Safe.{Filled, fill_values_lem}
use godelayq.Executor.Args.Timeouts.{timeout_within_lem}

abbrev copy_args : List ArgSpec
copy_args =
    record { name = "from"; required = true; matches = λ v. true; allow_dash = false }
    ∷ record { name = "flag"; required = false; matches = λ v. true; allow_dash = true }
    ∷ []

abbrev copy_profile : Profile
copy_profile = record {
  args = copy_args;
  positional = some (record { max = 1; matches = λ v. true });
  timeout = 60000000000;
}

-- A value is its text.
abbrev as_text : String → Option String
as_text s = some s

abbrev payload : Dict String
payload = ("from", "a.txt") ∷ ("flag", "-v") ∷ []

payload_filled : fill_values as_text copy_profile payload ≡ some payload
unfolding fill_values fill_each all_given find_arg check_arg_value contains_control has_prefix
    Dict.insert Dict.lookup string_discrete
payload_filled = refl

fill_values_lem_example : Filled as_text copy_profile payload payload
fill_values_lem_example = fill_values_lem as_text copy_profile payload payload payload_filled

-- An option in the place of the name is refused.
option_refused : fill_values as_text copy_profile (("from", "-rf") ∷ []) ≡ none
unfolding fill_values fill_each find_arg check_arg_value contains_control has_prefix string_discrete
option_refused = refl

too_many :
    take_positional {E = String}
      (λ e. some ("a" ∷ "b" ∷ []))
      copy_profile
      (("_positional", "") ∷ [])
    ≡ none
unfolding take_positional each_positional check_positional_value contains_control has_prefix
    Dict.lookup string_discrete
too_many = refl

abbrev half_a_minute : String → Option ℕ
half_a_minute s = some 30000000000

asked : check_timeout_within_profile half_a_minute copy_profile "30s" ≡ some 30000000000
unfolding check_timeout_within_profile parse_timeout trim_text trim_front trim_back is_space
asked = refl

timeout_within_lem_example :
    (0 < timeout_within 0 0 copy_profile 30000000000)
    × (timeout_within 0 0 copy_profile 30000000000 ≤ positive_or 0 default_exec_max_timeout)
    × ((positive64 60000000000 ≡ false)
        ⊎ (check_timeout_within_profile half_a_minute copy_profile "30s" ≢ some 30000000000)
        ⊎ (timeout_within 0 0 copy_profile 30000000000 ≤ 60000000000))
timeout_within_lem_example = timeout_within_lem half_a_minute 0 0 copy_profile "30s" 30000000000
