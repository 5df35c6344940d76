-- ===== src/Tasks/Leases.antt =====
-- Every lease that a run takes is given back.
use rack_ai.Common.{
  ℕ, Bool, true, false, ◌≡◌, refl, ◌∙◌, ok, err, if◌then◌else◌, count_if, ◌+◌, arith,
}
use rack_ai.Domain.Runs.{RunState}
use rack_ai.Tasks.Specs.{TaskError, Answer, has_dag}
use rack_ai.Tasks.Effects.{
  Services, TaskExecutionRequest, LeaseHandle, Call, Calls, Log, perform, return, proceed, ◌>>=◌,
  succeeded, attempt_calls,
}
use rack_ai.Tasks.Effects.Counting.{
  Kind, Silent, Quiet, is_selecting, is_settling, perform-Quiet, return-Quiet, >>=-Quiet, >>-Quiet,
}
use rack_ai.Tasks.Selection.{SelectedTask, Selection, select_task}
use rack_ai.Tasks.Resolution.{RunNextOutcome}
use rack_ai.Tasks.Attempt.{
  AttemptInput, Attempted, prepare_dag, prepare_linear, invoke, run_dag, run_linear,
  execute_dag_task, execute_linear_task, result_of,
}
use rack_ai.Tasks.Running.{
  acquire_for, restore_run, restored, conclude, run_selected, with_leases, run_selection, execute,
}
use rack_ai.Tasks.Silence.{
  select_task-Quiet, resolve_linear_execution-Quiet, resolve_dag_execution-Quiet,
}

-- The leases that are granted, and those that are given back.
abbrev pub is_grant : Kind
is_grant (Call.acquire request, b) = b
is_grant _ = false

abbrev pub is_release : Kind
is_release (Call.release handle, b) = true
is_release _ = false

grant-selecting : Silent is_grant is_selecting
grant-selecting (Call.acquire r) b h = absurd (ground arith)
grant-selecting _ b h = refl

grant-settling : Silent is_grant is_settling
grant-settling (Call.acquire r) b h = absurd (ground arith)
grant-settling _ b h = refl

release-selecting : Silent is_release is_selecting
release-selecting (Call.release r) b h = absurd (ground arith)
release-selecting _ b h = refl

release-settling : Silent is_release is_settling
release-settling (Call.release r) b h = absurd (ground arith)
release-settling _ b h = refl

-- What holds of a kind that neither selection, nor execution, nor settling counts.
module _ (services : Services) (p : Kind) (selecting : Silent p is_selecting)
    (settling : Silent p is_settling)
    (unexecuted : (r : TaskExecutionRequest) (b : Bool) → p (Call.execute r, b) ≡ false) where
  invoke-Quiet : (request : TaskExecutionRequest) → Quiet p (invoke services request)
  unfolding invoke
  invoke-Quiet request = record { same = λ log. rw (unexecuted request _) refl }

  prepare_linear-Quiet : (input : AttemptInput) → Quiet p (prepare_linear services input)
  unfolding prepare_linear
  prepare_linear-Quiet input =
      >>-Quiet p (perform-Quiet p _ _ (λ b. selecting (Call.save _) b refl)) (return-Quiet p _)

  prepare_dag-Quiet : (input : AttemptInput) → Quiet p (prepare_dag services input)
  unfolding prepare_dag
  prepare_dag-Quiet input = >>=-Quiet p (return-Quiet p _) (λ id.
      >>=-Quiet p (return-Quiet p _) (λ d. >>=-Quiet p (return-Quiet p _) (λ marked.
        >>-Quiet p (perform-Quiet p _ _ (λ b. selecting (Call.save _) b refl)) (
          >>=-Quiet p (return-Quiet p _)
            (λ execution. >>=-Quiet p (return-Quiet p _) (λ json. return-Quiet p _))))))

  run_linear-same :
      (input : AttemptInput) (prepared : Answer (RunState × TaskExecutionRequest) × Log)
      → count_if p (run_linear services input prepared).2 ≡ count_if p prepared.1
  unfolding run_linear
  run_linear-same input (err e, log) = refl
  run_linear-same input (ok (run, request), log) =
      (>>=-Quiet p (invoke-Quiet request)
          (λ e. resolve_linear_execution-Quiet services p settling (result_of input run e))).same
        log

  run_dag-same :
      (input : AttemptInput) (prepared : Answer (RunState × ℕ × TaskExecutionRequest) × Log)
      → count_if p (run_dag services input prepared).2 ≡ count_if p prepared.1
  unfolding run_dag
  run_dag-same input (err e, log) = refl
  run_dag-same input (ok (run, id, request), log) =
      (>>=-Quiet p (invoke-Quiet request)
          (λ e. resolve_dag_execution-Quiet services p settling (result_of input run e) id)).same
        log

  attempt-same :
      (input : AttemptInput) (log : Log) (b : Bool)
      → count_if p
          (if b
            then execute_dag_task services input log
            else execute_linear_task services input log).2
        ≡ count_if p log
  unfolding execute_dag_task execute_linear_task
  attempt-same input log true =
      run_dag-same input (prepare_dag services input log) ∙ (prepare_dag-Quiet input).same log
  attempt-same input log false =
      run_linear-same input (prepare_linear services input log)
      ∙ (prepare_linear-Quiet input).same log

  restored-Quiet :
      (s : SelectedTask) (result : Answer RunNextOutcome) (was_invoked : Bool)
      → Quiet p (restored services s result was_invoked)
  unfolding restore_run
  restored-Quiet s (ok outcome) was_invoked = return-Quiet p _
  restored-Quiet s (err e) true = return-Quiet p _
  restored-Quiet s (err e) false =
      >>=-Quiet p (perform-Quiet p _ _ (λ b. settling (Call.requeue _) b refl)) (λ queued.
        >>=-Quiet p (perform-Quiet p _ _ (λ b. settling Call.now b refl))
          (λ at. perform-Quiet p _ _ (λ b. settling (Call.save _) b refl)))

  -- After the attempt, the one call that may be counted is the release.
  conclude-count :
      (s : SelectedTask) (handle : LeaseHandle) (tried : Attempted)
      → count_if p (conclude services s handle tried).1
        ≡ count_if p (perform (Call.release handle) (services.release_lease handle) tried.2).1
  unfolding conclude
  conclude-count s handle (result, was_invoked, log) =
      (>>=-Quiet p (restored-Quiet s result was_invoked)
          (λ u. >>=-Quiet p (return-Quiet p _) (λ v. return-Quiet p _))).same
        _

  -- And over the run of a selected task with its lease.
  run_selected-count :
      (b : Bool)
      → ((h : LeaseHandle) (c : Bool) → p (Call.release h, c) ≡ b)
      → (s : SelectedTask) (started : ℕ) (handle : LeaseHandle) (log : Log)
      → count_if p (run_selected services s (started, handle) log).1
        ≡ (if b then 1 else 0) + count_if p log
  unfolding run_selected perform
  run_selected-count b releases s started handle log =
      let input : AttemptInput = record {
        selected = s;
        started = started;
        leases = handle.paths;
      } in
      let tried : Attempted =
        if has_dag s.task_spec
        then execute_dag_task services input log
        else execute_linear_task services input log in
      ground (
        arith,
        conclude-count s handle tried,
        releases handle (succeeded (services.release_lease handle tried.2)),
        attempt-same input log (has_dag s.task_spec),
      )

module _ (services : Services) where
  -- A lease is granted exactly if the acquisition succeeds, and none is given back meanwhile.
  acquired_grants :
      (s : SelectedTask) (log : Log)
      → (count_if is_grant (acquire_for services s log).1
          ≡ (if succeeded (acquire_for services s log).0 then 1 else 0) + count_if is_grant log)
        × (count_if is_release (acquire_for services s log).1 ≡ count_if is_release log)
  unfolding acquire_for ◌>>=◌ proceed perform return
  acquired_grants s log = ground arith

  refused-Quiet :
      (p : Kind)
      → Silent p is_settling
      → (s : SelectedTask) (e : TaskError) → Quiet p (with_leases services s (err e))
  unfolding with_leases
  refused-Quiet p settling s e =
      >>=-Quiet p (perform-Quiet p _ _ (λ b. settling (Call.requeue _) b refl))
        (λ t. return-Quiet p _)

  selected_balance :
      (s : SelectedTask) (acquired : Answer (ℕ × LeaseHandle)) (log : Log)
      → (count_if is_release (with_leases services s acquired log).1
          ≡ (if succeeded acquired then 1 else 0) + count_if is_release log)
        × (count_if is_grant (with_leases services s acquired log).1 ≡ count_if is_grant log)
  unfolding with_leases
  selected_balance s (ok (started, handle)) log = (
    run_selected-count services is_release release-selecting release-settling (λ r b. refl) true
        (λ h c. refl) s started handle log,
    omega (
      arith,
      run_selected-count services is_grant grant-selecting grant-settling (λ r b. refl) false
          (λ h c. refl) s started handle log,
    ),
  )
  selected_balance s (err e) log = (
    omega (arith, (refused-Quiet is_release release-settling s e).same log),
    omega (arith, (refused-Quiet is_grant grant-settling s e).same log),
  )

  -- The difference of the two counts stays.
  abbrev Balanced : {A : Type 0} → Calls A → Log → Type 0
  Balanced m log =
      count_if is_release (m log).1 + count_if is_grant log
      ≡ count_if is_release log + count_if is_grant (m log).1

  run_selection-Balanced :
      (selection : Selection) (log : Log) → Balanced (run_selection services selection) log
  unfolding run_selection ◌>>=◌ proceed return attempt_calls
  run_selection-Balanced Selection.none_queued log = omega arith
  run_selection-Balanced Selection.none_admissible log = omega arith
  run_selection-Balanced (Selection.selected s) log = ground (
    arith,
    acquired_grants s log,
    selected_balance s (acquire_for services s log).0 (acquire_for services s log).1,
  )

  execute_after :
      (selection : Answer Selection) (log : Log)
      → Balanced (proceed selection (run_selection services)) log
  unfolding proceed
  execute_after (ok selection) log = run_selection-Balanced selection log
  execute_after (err e) log = omega arith

  -- Whatever the services answer, a run of the next task gives back as many leases as it was
  -- granted.
  pub execute-releases :
      (log : Log)
      → count_if is_release (execute services log).1 + count_if is_grant log
        ≡ count_if is_release log + count_if is_grant (execute services log).1
  unfolding execute ◌>>=◌
  execute-releases log = omega (
    arith,
    execute_after (select_task services log).0 (select_task services log).1,
    (select_task-Quiet services is_grant grant-selecting).same log,
    (select_task-Quiet services is_release release-selecting).same log,
  )
