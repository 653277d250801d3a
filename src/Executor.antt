-- ===== src/Executor.antt =====
-- executor/exit.go: the verdict on a run that failed, and whether it may be tried again. What os/exec
-- and the checks of the arguments give as an error is `D`; what errors.Is and errors.As find in such
-- an error is an argument.
pub mod Verdict
pub mod Args
mod Tests
use Prim.Native.String.{◌++◌ as str_append}
use godelayq.Prelude.{
  string_discrete, ite, ℕ, List, [], ◌∷◌, Bool, true, false, ◌&&◌, ◌||◌, not, Option, none, some,
  String, ltb, leb, ◌==◌, if◌then◌else◌,
}
use godelayq.Int64.{two63}
use godelayq.Scheduler.Execute.{Failure}

pub data FailureClass : Type 0 where
  invalid_submission profile_unavailable not_allowed timeout permit_wait interrupted exit_code
        http_status address_refused transport :
      FailureClass

-- An error of os/exec or of a check.
pub record ErrorKinds (D : Type 0) : Type 0 where
  pub is_wait_delay : D → Bool
  pub is_exit_status : D → Bool
  pub is_deadline : D → Bool
  pub is_canceled : D → Bool
  pub text : D → String
  pub quote : String → String  -- strconv.Quote

pub record ExitError (D : Type 0) : Type 0 where
  pub profile : String
  pub code : ℕ
  pub signal : String
  pub timed_out : Bool
  pub cancelled : Bool
  pub retryable : Bool
  pub reason : String
  pub detail : Option D

-- The sentinel errors that Is is asked for.
pub data Target : Type 0 where
  deadline_exceeded canceled other_error : Target

-- What is read of a Profile.
pub record ProfileView : Type 0 where
  pub name : String
  pub retry_on_exit : List ℕ

-- The loop of exitCodeIn.
unfoldable pub listed : List ℕ → ℕ → Bool
listed [] code = false
listed (c ∷ cs) code = c == code || listed cs code

unfoldable pub exit_code_in : List ℕ → ℕ → Bool
unfolding listed
exit_code_in retry_on_exit code = if code == 0 then false else listed retry_on_exit code

-- The status is an int: a pattern from 2 ^ 63 on is negative.
unfoldable pub http_status_retryable : ℕ → Bool
http_status_retryable status =
    if status == 408 || status == 429 then true else leb 500 status && ltb status two63

unfoldable pub classify_exit : FailureClass → ℕ → List ℕ → Bool
classify_exit timeout code retry_on_exit = true
classify_exit permit_wait code retry_on_exit = true
classify_exit exit_code code retry_on_exit = exit_code_in retry_on_exit code
classify_exit http_status code retry_on_exit = http_status_retryable code
classify_exit transport code retry_on_exit = true
classify_exit invalid_submission code retry_on_exit = false
classify_exit profile_unavailable code retry_on_exit = false
classify_exit not_allowed code retry_on_exit = false
classify_exit address_refused code retry_on_exit = false
classify_exit interrupted code retry_on_exit = false

abbrev pub is_timeout_class : FailureClass → Bool
is_timeout_class class = elim class [ timeout ↦ true | permit_wait ↦ true | _ ↦ false ]

abbrev pub is_interrupted_class : FailureClass → Bool
is_interrupted_class class = elim class [ interrupted ↦ true | _ ↦ false ]

module _ {D : Type 0} where
  unfoldable pub is : ExitError D → Target → Bool
  is e deadline_exceeded = e.timed_out
  is e canceled = e.cancelled && not e.timed_out
  is e other_error = false

  unfoldable pub permanent : ExitError D → Bool
  permanent e = not e.retryable

  unfoldable pub new_failure : ProfileView → FailureClass → ℕ → String → Option D → ExitError D
  new_failure p class code reason detail = record {
    profile = p.name;
    code = code;
    signal = "";
    timed_out = is_timeout_class class;
    cancelled = is_interrupted_class class;
    retryable = classify_exit class code p.retry_on_exit;
    reason = reason;
    detail = detail;
  }

  unfoldable pub new_status_failure :
      ProfileView → FailureClass → ℕ → String → Option D → ExitError D
  new_status_failure p class status reason detail = record {
    profile = p.name;
    code = 0;
    signal = "";
    timed_out = false;
    cancelled = false;
    retryable = classify_exit class status [];
    reason = reason;
    detail = detail;
  }

module _ {D : Type 0} (kinds : ErrorKinds D) where
  abbrev pub detail_is : Option D → Target → Bool
  detail_is none target = false
  detail_is (some d) deadline_exceeded = kinds.is_deadline d
  detail_is (some d) canceled = kinds.is_canceled d
  detail_is (some d) other_error = false

  abbrev pub reason_text : String → Option D → String
  reason_text reason none = ite (string_discrete reason "") "command failed" reason
  reason_text reason (some d) =
      ite (string_discrete reason "") (kinds.text d)
        (str_append reason (str_append ": " (kinds.text d)))

  unfoldable pub error_text : ExitError D → String
  error_text e =
      let label =
        ite (string_discrete e.profile "") "profile"
          (str_append "profile " (kinds.quote e.profile)) in
      str_append label (str_append ": " (reason_text e.reason e.detail))

  -- errors.Is: the error itself, and then what Unwrap gives.
  unfoldable pub errors_is : ExitError D → Target → Bool
  errors_is e target = is e target || detail_is e.detail target

  unfoldable pub summary_permanent : Option (ExitError D) → Bool
  summary_permanent none = false
  summary_permanent (some e) = if errors_is e canceled then false else permanent e

  -- The state of a process is its exit code and the name of its signal; the error of the context is
  -- told by whether it is the deadline.
  unfoldable pub classify_run : ProfileView → D → ℕ → Option Bool → ExitError D
  classify_run p run_err code (some true) = new_failure p timeout code "timed out" (some run_err)
  classify_run p run_err code (some false) =
      new_failure p interrupted code "cancelled" (some run_err)
  classify_run p run_err code none =
      if kinds.is_wait_delay run_err
      then new_failure p exit_code code "output stayed open past the wait limit" (some run_err)
      else if kinds.is_exit_status run_err
      then new_failure p exit_code code "" (some run_err)
      else new_failure p profile_unavailable 0 "cannot start the process" (some run_err)

  abbrev pub state_code : Option (ℕ × String) → ℕ
  state_code none = 0
  state_code (some (code, signal)) = code

  abbrev pub state_signal : Option (ℕ × String) → String
  state_signal none = ""
  state_signal (some (code, signal)) = signal

  unfoldable pub classify_failure :
      ProfileView → Option D → Option (ℕ × String) → Option Bool → Option (ExitError D)
  classify_failure p none state ctx_err = none
  classify_failure p (some run_err) state ctx_err =
      let failure = classify_run p run_err (state_code state) ctx_err in
      some (record failure { signal = state_signal state })

  -- What the scheduler reads of the error.
  unfoldable pub as_failure : ExitError D → Failure
  as_failure e = record {
    message = error_text e;
    canceled = errors_is e canceled;
    deadline_exceeded = errors_is e deadline_exceeded;
    permanent = permanent e;
  }
