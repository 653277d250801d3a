-- ===== src/Executor/Args.antt =====
-- executor/args.go: the check of the arguments of a payload and of its timeout. The JSON of a value is
-- read by the argument `scalar`, the array of the positional values by `strings`, and a pattern is its
-- test; the texts of the errors, for which alone an argument is secret, are left out.
pub mod Safe
pub mod Timeouts
mod Tests
use godelayq.Prelude.{
  ℕ, List, [], ◌∷◌, Bool, true, false, ◌&&◌, ◌||◌, not, Option, none, some, String, leb, ltb,
  if◌then◌else◌, length, ite, string_discrete, ◌>>=◌,
}
use godelayq.Int64.{positive64}
use godelayq.JsonStore.{negative64}
use godelayq.Text.{codes, has_prefix, trim_text, is_blank_text}
use godelayq.Dict
use godelayq.Dict.{Dict}

pub record ArgSpec : Type 0 where
  pub name : String
  pub required : Bool
  pub matches : String → Bool
  pub allow_dash : Bool

pub record PositionalSpec : Type 0 where
  pub max : ℕ
  pub matches : String → Bool

-- What this code reads of a profile, whose timeout is not negative.
pub record Profile : Type 0 where
  pub args : List ArgSpec
  pub positional : Option PositionalSpec
  pub timeout : ℕ

abbrev pub positional_key : String
positional_key = "_positional"

abbrev pub max_arg_value_len : ℕ
max_arg_value_len = 256

-- unicode.IsControl.
unfoldable pub contains_control : List ℕ → Bool
contains_control [] = false
contains_control (c ∷ s) = leb c 0x1f || (leb 0x7f c && leb c 0x9f) || contains_control s

abbrev pub starts_with_dash : String → Bool
starts_with_dash value = has_prefix (codes value) (codes "-")

unfoldable pub check_positional_value : PositionalSpec → String → Bool
check_positional_value spec value =
    leb (length (codes value)) max_arg_value_len
    && not (contains_control (codes value))
    && spec.matches value
    && not (starts_with_dash value)

unfoldable pub check_arg_value : ArgSpec → String → Bool
check_arg_value arg value =
    leb (length (codes value)) max_arg_value_len
    && not (contains_control (codes value))
    && arg.matches value
    && (arg.allow_dash || not (starts_with_dash value))

unfoldable pub find_arg : List ArgSpec → String → Option ArgSpec
find_arg [] name = none
find_arg (a ∷ l) name = ite (string_discrete a.name name) (some a) (find_arg l name)

-- The loop over the required arguments.
unfoldable pub all_given : List ArgSpec → Dict String → Bool
all_given [] target = true
all_given (a ∷ l) target =
    let rest = all_given l target in
    if a.required then elim (Dict.lookup a.name target) [ none ↦ false | some _ ↦ rest ] else rest

module _ {E : Type 0} (scalar : E → Option String) where
  -- The loop over the values of the payload.
  unfoldable pub fill_each : List ArgSpec → Dict E → Dict String → Option (Dict String)
  fill_each args [] target = some target
  fill_each args ((name, encoded) ∷ source) target =
      ite (string_discrete name positional_key) (fill_each args source target) (
        scalar encoded >>= λ value. find_arg args name >>= λ arg.
        if check_arg_value arg value
        then fill_each args source (Dict.insert name value target)
        else none)

  unfoldable pub fill_values : Profile → Dict E → Option (Dict String)
  fill_values p source =
      fill_each p.args source [] >>= λ target. if all_given p.args target then some target else none

unfoldable pub each_positional : PositionalSpec → List String → Bool
each_positional spec [] = true
each_positional spec (v ∷ l) = check_positional_value spec v && each_positional spec l

unfoldable pub take_positional :
    {E : Type 0} → (E → Option (List String)) → Profile → Dict E → Option (List String)
take_positional strings p args = elim (Dict.lookup positional_key args) [
  | none ↦ some []
  | some encoded ↦ elim p.positional [
    | none ↦ none
    | some spec ↦ strings encoded >>= λ values.
        if leb (length values) spec.max && each_positional spec values then some values else none
  ]
]

-- None is an error of the text, or a negative duration; `parse` is time.ParseDuration.
unfoldable pub parse_timeout : (String → Option ℕ) → String → Option ℕ
parse_timeout parse raw =
    if is_blank_text (trim_text raw)
    then some 0
    else (parse raw >>= λ t. if negative64 t then none else some t)

unfoldable pub check_timeout_within_profile : (String → Option ℕ) → Profile → String → Option ℕ
check_timeout_within_profile parse p raw = parse_timeout parse raw >>= λ requested.
    if ltb p.timeout requested then none else some requested

abbrev pub default_exec_default_timeout : ℕ
default_exec_default_timeout = 300000000000

abbrev pub default_exec_max_timeout : ℕ
default_exec_max_timeout = 1800000000000

-- A number that is positive as an int64, or the other.
abbrev pub positive_or : ℕ → ℕ → ℕ
positive_or a b = if positive64 a then a else b

-- value > ceiling, of two int64 that are positive.
unfoldable pub timeout_within : ℕ → ℕ → Profile → ℕ → ℕ
timeout_within default_timeout max_timeout p requested =
    let floor = positive_or default_timeout default_exec_default_timeout in
    let ceiling = positive_or max_timeout default_exec_max_timeout in
    let value = positive_or requested (positive_or p.timeout floor) in
    let capped = if ltb ceiling value then ceiling else value in
    positive_or capped default_exec_default_timeout
