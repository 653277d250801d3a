-- ===== src/Named/Commands.antt =====
-- A profile of the configuration, written as a record and read back.
use godelayq.Prelude.{
  ◌≡◌, refl, ap, ◌∙◌, inl, inr, ℕ, List, [], ◌∷◌, map, Bool, true, false, Option, none, some,
  String, arith, Bool-cases, if◌then◌else◌, ◌<◌,
}
use godelayq.Int64.{two63, positive64}
use godelayq.Text.{trim_text, trim_front, trim_back, is_blank_text}
use godelayq.JsonStore.{negative64}
use godelayq.Named.Profiles.{
  ExecutorCommand, ExecutorProfileRecord, ExecutorArg, ExecutorPositional, Durations, arg_record,
  arg_of, positional_record, positional_of, new_executor_profile_record, command_with, command,
}

-- The text of a positive duration is read back, has no blanks around it, and is not empty.
pub record DurationLaws (durations : Durations) : Type 0 where
  pub parse-print : (t : ℕ) → positive64 t ≡ true → durations.parse (durations.print t) ≡ some t
  pub trim-print : (t : ℕ) → positive64 t ≡ true → trim_text (durations.print t) ≡ durations.print t
  pub not_blank : (t : ℕ) → positive64 t ≡ true → is_blank_text (durations.print t) ≡ false

args_back : (l : List ExecutorArg) → map arg_of (map arg_record l) ≡ l
args_back [] = refl
args_back (a ∷ l) = ap (λ rest. a ∷ rest) (args_back l)

positional_back : (p : Option ExecutorPositional) → positional_of (positional_record p) ≡ p
positional_back none = refl
positional_back (some p) = refl

fields_back :
    (durations : Durations) (cmd : ExecutorCommand) (t : ℕ)
    → t ≡ cmd.timeout
    → command_with durations (new_executor_profile_record durations cmd) t ≡ cmd
unfolding new_executor_profile_record
fields_back durations cmd t same i = record cmd {
  args = args_back cmd.args i;
  positional = positional_back cmd.positional i;
  timeout = same i;
}

command_timed :
    (durations : Durations) (r : ExecutorProfileRecord) (text : String) (t : ℕ)
    → r.timeout ≡ text
    → trim_text text ≡ text
    → is_blank_text text ≡ false
    → durations.parse text ≡ some t
    → negative64 t ≡ false
    → command durations r ≡ some (command_with durations r t)
unfolding command
command_timed durations r text t written trimmed named read positive =
    let timed : trim_text r.timeout ≡ text = ap trim_text written ∙ trimmed in
    rw (timed, named, read, command, positive) refl

command_untimed :
    (durations : Durations) (r : ExecutorProfileRecord)
    → r.timeout ≡ ""
    → command durations r ≡ some (command_with durations r 0)
unfolding command trim_text trim_front trim_back
command_untimed durations r none_given =
    let blank : is_blank_text (trim_text r.timeout) ≡ true =
      ap (λ s. is_blank_text (trim_text s)) none_given in
    rw blank refl

timeout_written :
    (durations : Durations) (cmd : ExecutorCommand) (t : Bool)
    → positive64 cmd.timeout ≡ t
    → (new_executor_profile_record durations cmd).timeout
      ≡ (if t then durations.print cmd.timeout else "")
unfolding new_executor_profile_record
timeout_written durations cmd t e =
    ap (λ (b : Bool). if b then durations.print cmd.timeout else "") e

-- The record of a profile of the configuration, whose duration is an int64 and not negative, read back
-- gives the profile, given that the text of a positive duration is read back, has no blanks around it,
-- and is not empty.
pub command_round_trip :
    (durations : Durations) (cmd : ExecutorCommand)
    → DurationLaws durations
    → cmd.timeout < two63
    → command durations (new_executor_profile_record durations cmd) ≡ some cmd
command_round_trip durations cmd laws small = elim (Bool-cases (positive64 cmd.timeout)) [
  | inl positive ↦
      let r = new_executor_profile_record durations cmd in
      command_timed durations r (durations.print cmd.timeout) cmd.timeout
        (timeout_written durations cmd true positive) (laws.trim-print _ positive)
        (laws.not_blank _ positive) (laws.parse-print _ positive) (ground arith)
      ∙ ap some (fields_back durations cmd cmd.timeout refl)
  | inr zero_time ↦
      command_untimed durations (new_executor_profile_record durations cmd)
        (timeout_written durations cmd false zero_time)
      ∙ ap some (fields_back durations cmd 0 (ground arith))
]
