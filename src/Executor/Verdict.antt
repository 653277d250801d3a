-- ===== src/Executor/Verdict.antt =====
-- Which failures of a process are tried again, and what the scheduler makes of them.
use godelayq.Prelude.{
  ℕ, ◌≡◌, refl, ap, ◌∙◌, inl, inr, Bool, true, false, ◌&&◌, ◌||◌, not, Option, none, some, String,
  arith, ◌==◌, Returns, Returns-map, Bool-cases, subst,
}
use godelayq.Job.{Job, job_item, status_failed, to_snapshot}
use godelayq.Scheduler.{Env, Scheduler, store_update}
use godelayq.Scheduler.Execute.{Failure, handle_failure, with_status}
use godelayq.Scheduler.Execute.Outcomes.{
  Running, FailureOutcome, gave_up, retried, handle_failure_lem,
}
use godelayq.Executor.{
  ErrorKinds, ExitError, ProfileView, listed, exit_code_in, classify_exit, permanent, new_failure,
  classify_run, state_code, state_signal, classify_failure, as_failure,
}

module _ {D : Type 0} (kinds : ErrorKinds D) where
  -- The run of a process that `d` ended. It may be tried again exactly if its deadline passed, or its
  -- context did not end and it left with a code, not 0, that the profile lists.
  abbrev pub worth_retrying : ProfileView → D → ℕ → Option Bool → Bool
  worth_retrying p d code (some deadline) = deadline
  worth_retrying p d code none =
      (kinds.is_wait_delay d || kinds.is_exit_status d)
      && not (code == 0)
      && listed p.retry_on_exit code

  pub record Verdict (p : ProfileView) (d : D) (state : Option (ℕ × String)) (ctx_err : Option Bool)
      (e : ExitError D) : Type 0 where
    pub retryable : e.retryable ≡ worth_retrying p d (state_code kinds state) ctx_err
    pub timed_out : e.timed_out ≡ (elim ctx_err [ some deadline ↦ deadline | none ↦ false ])
    pub cancelled : e.cancelled ≡ (elim ctx_err [ some deadline ↦ not deadline | none ↦ false ])
    pub signal : e.signal ≡ state_signal kinds state
    pub detail : e.detail ≡ some d
    pub profile : e.profile ≡ p.name

  run_lem :
      (p : ProfileView) (d : D) (code : ℕ) (ctx_err : Option Bool)
      → let e = classify_run kinds p d code ctx_err in
        (e.retryable ≡ worth_retrying p d code ctx_err)
        × (e.timed_out ≡ (elim ctx_err [ some deadline ↦ deadline | none ↦ false ]))
        × (e.cancelled ≡ (elim ctx_err [ some deadline ↦ not deadline | none ↦ false ]))
        × (e.detail ≡ some d)
        × (e.profile ≡ p.name)
  unfolding classify_run new_failure classify_exit exit_code_in
  run_lem p d code (some true) = (refl, refl, refl, refl, refl)
  run_lem p d code (some false) = (refl, refl, refl, refl, refl)
  run_lem p d code none = elim (Bool-cases (kinds.is_wait_delay d)) [
    | inl w ↦ rw w (ground arith, refl, refl, refl, refl)
    | inr w ↦ rw w (elim (Bool-cases (kinds.is_exit_status d)) [
      | inl x ↦ rw x (ground arith, refl, refl, refl, refl)
      | inr x ↦ rw x (refl, refl, refl, refl, refl)
    ])
  ]

  -- classifyFailure of a process that succeeded gives nothing. Of one that ended with an error it gives
  -- a verdict that says so and that may be tried again exactly if the deadline of its context passed,
  -- or the context did not end and the process left with a code, not 0, that the profile lists. It is
  -- a timeout exactly if that deadline passed, and cancelled exactly if the context ended otherwise.
  pub classify_failure_lem :
      (p : ProfileView) (d : D) (state : Option (ℕ × String)) (ctx_err : Option Bool)
      → (classify_failure kinds p none state ctx_err ≡ none)
        × ((e : ExitError D) × (classify_failure kinds p (some d) state ctx_err ≡ some e)
            × Verdict p d state ctx_err e)
  unfolding classify_failure
  classify_failure_lem p d state ctx_err =
      let (retry, timed, cancelled, detail, profile) =
        run_lem p d (state_code kinds state) ctx_err in
      (
        refl,
        (
          record (classify_run kinds p d (state_code kinds state) ctx_err) {
            signal = state_signal kinds state;
          },
          refl,
          record {
            retryable = retry;
            timed_out = timed;
            cancelled = cancelled;
            signal = refl;
            detail = detail;
            profile = profile;
          },
        ),
      )

  permanent_of :
      (p : ProfileView) (d : D) (state : Option (ℕ × String)) (ctx_err : Option Bool)
      (e : ExitError D)
      → Verdict p d state ctx_err e
      → worth_retrying p d (state_code kinds state) ctx_err ≡ false
      → (as_failure kinds e).permanent ≡ true
  unfolding as_failure permanent
  permanent_of p d state ctx_err e v w = ap not (v.retryable ∙ w)

  module _ {S : Type 0} (env : Env S) where
    marked :
        (s : Scheduler S) (j : Job) (f : Failure) (now : ℕ)
        → f.permanent ≡ true
        → (s' : Scheduler S) → FailureOutcome env s j f now s'
        → s' ≡ store_update env s now (to_snapshot (with_status j status_failed now))
    marked s j f now e _ (gave_up why) = refl
    marked s j f now e s' (retried s1 _ j' temporary few heap enq follows count delay cron) =
        absurd (cc)

    -- The run of a process that was not cancelled and is not worth another try ends as a failed job,
    -- however many tries the job has left: with the verdict of classifyFailure, handleFailure of a job
    -- that has an id, is not in the well-formed heap and is not to be force-paused writes its snapshot
    -- with the status failed, and schedules nothing.
    pub not_retried :
        (s : Scheduler S) (j : Job) (now : ℕ) (fresh : String)
        → (p : ProfileView) (d : D) (state : Option (ℕ × String)) (ctx_err : Option Bool)
          (e : ExitError D)
        → Running env s j
        → classify_failure kinds p (some d) state ctx_err ≡ some e
        → e.cancelled ≡ false
        → worth_retrying p d (state_code kinds state) ctx_err ≡ false
        → Returns
            (λ s'. s' ≡ store_update env s now (to_snapshot (with_status j status_failed now)))
            (handle_failure env s j (as_failure kinds e) now fresh)
    not_retried s j now fresh p d state ctx_err e running found own w =
        let (nothing, (e1, found1, verdict)) = classify_failure_lem p d state ctx_err in
        let same : e1 ≡ e = cc in
        let v = subst (Verdict p d state ctx_err) same verdict in
        Returns-map (handle_failure_lem env s j (as_failure kinds e) now fresh running)
          (marked s j (as_failure kinds e) now (permanent_of p d state ctx_err e v w))
