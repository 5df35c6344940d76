-- ===== src/Lib.antt =====
-- The authority of Rack AI's runtime: who may use which resource of the rack, and which call runs.
--
-- The runtime (crates/rack_ai_runtime) keeps one document: the claims on resources, the demands
-- (reservations of one service each), the calls under them, remembered refusals, workspace scopes
-- and warm backends. Every operation is one update of that document under a lock; an update that
-- fails stores nothing. Workers and HTTP handlers take turns, so that a run of the program is a
-- sequence of updates in any order, made with views of a demand or a call that may be stale.
--
-- How the parts interact. An acquisition (admission.rs) asks the planner (planner.rs) whether it may
-- go on and fences it: incumbents of a lower priority drain, or the resources are claimed at once. A
-- reservation of several services (reservation_admission.rs) fences all its members together, and its
-- missing ones may be tried again (reservation_refresh.rs). A transition worker (transition.rs) stops
-- each victim, moves the claims, announces the start of the backend, records its process and commits
-- its readiness (reservation.rs). Ready demands accept calls (inference.rs, work.rs), within the
-- bounds of capacity.rs. Workers start them one at a time (workers.rs, dispatch.rs) and save their
-- end. Activity moves deadlines forward (activity_retention.rs), idleness ends demands (idle.rs),
-- owners renew, release or cancel (control.rs), a closed scope cancels its calls
-- (workspace_scope.rs), and a released demand retires (retirement.rs). A supervisor
-- (supervisor.rs) reconsiders the document at each tick, and a restart recovers it (service.rs).
--
-- Beside the runtime, the command line runs queued tasks (crates/rack_ai_application), and the media
-- gateway (crates/rack_ai_media) lets an operator sign in by a browser.
--
-- Files and what they model; sources of the runtime are under crates/rack_ai_runtime/src:
-- - Common: tests on numbers and lists, results, and `BTreeMap` as an ordered association list.
-- - Runtime/Types, Types/Enums, Types/Messages, Config: types.rs, config.rs, work_payload.rs and the
--   texts of errors; priorities and capabilities are those of
--   crates/rack_ai_application/src/generic_routing.rs.
-- - Runtime/Service: `owned`, `active`, `owns`, `inflight` and `recover` of service.rs;
--   Service/Recovery is about its result, Service/Holding about `active` and `owns`.
-- - Runtime/Invocations: `Invocation::cancel` and `cancel_queued_as_superseded` of types.rs.
-- - Runtime/Residency, Residency/Cache: residency.rs, the updates of its adoption, cache and eviction
--   one by one; Residency/Apart has their invariant.
-- - Runtime/Planner, Planner/Group: `refusal`, `fence`, `fence_group` and `transfer` of planner.rs;
--   Planner/Claims, Fence, Acquisition, Reserved and Transfer hold their contracts.
-- - Runtime/Reservation: `root`, `members`, `select`, `ready` and `commit_ready` of reservation.rs;
--   Reservation/Publication has the contract of the commit.
-- - Runtime/Transition: one definition for each update that transition.rs itself makes; the calls that
--   it hands on to media_recovery.rs and the other recoveries are not modelled.
-- - Runtime/Retirement: retirement.rs.
-- - Runtime/Scopes, Scopes/Controller: workspace_scope.rs; Scopes/Permanence says what its controller
--   leaves as it is.
-- - Runtime/Idle, Retention, Capacity, Control: idle.rs, activity_retention.rs, capacity.rs with the
--   commitments of payload_store.rs, and control.rs; Idle/Eligibility and Reaping,
--   Retention/Extension, Capacity/Sufficiency and Control/Closing hold their contracts.
-- - Runtime/Admission, Admission/Demands, Admission/Decisions: admission.rs; Admission/Again is about
--   an acquisition that is sent twice.
-- - Runtime/Reserving, Reserving/Views, Reserving/Refreshing: reservation_admission.rs,
--   reservation_view.rs and reservation_refresh.rs; Reserving/Together and Reserving/Uniform hold what
--   is proved of an admission and of a view, Reserving/Members and Reserving/Stored the lemmas on the
--   demands before and after the fence.
-- - Runtime/Submission, Submission/Replay: `Submission::submit` of inference.rs; Submission/Acceptance
--   says which calls it accepts, and Submission/Earlier and Matching what a call accepted before is.
-- - Runtime/Dispatch, Dispatch/Completion: `eligible` of workers.rs, the start of a call and
--   `Completion::save` of dispatch.rs; Dispatch/Order says which call starts.
-- - Runtime/Supervisor: `reconsider` and the record of a failed transition of supervisor.rs, and
--   `quarantine` of recovery.rs.
-- - Runtime/Ownership: the invariant of the claims, update by update; Ownership/Reach is the relation
--   of these updates and of the documents that they reach. Not among them, since not modelled, are the
--   updates of recovery.rs (but for `quarantine`), media_recovery.rs, workspace_recovery.rs, the other
--   parts of the recovery of backends, and history_archive.rs.
-- - Runtime/Flight: at most one call in flight for each reservation, update by update.
-- - Domain/Names, Names/Canonical, Paths and its children, Dag, Runs: the checked texts (Names/Canonical
--   is about all but the allowed paths), the allowed paths, and the states of a task's graph and run,
--   of crates/rack_ai_domain/src.
-- - Tasks: the run of the next queued task of crates/rack_ai_application/src/run_next_task.rs and its
--   modules. Tasks/Effects has the services that it calls, whose answers may depend on all calls before
--   and so stand for any queue, executor or store, and the log of the calls; Tasks/Selection,
--   Resolution, Attempt and Running are planning.rs, resolution.rs, attempt.rs and `execute`;
--   Tasks/Specs and Submitting are task_spec.rs, task_dag.rs and submit_task.rs. Tasks/Once, Leases,
--   Order, Attempts and Results hold what is proved.
-- - Media/Throttle: login_throttle.rs and browser_attempt.rs of crates/rack_ai_media/src;
--   Throttle/Doubling, Refinement and Waiting say what it makes of a sequence of attempts.
-- - Media/Access: the sessions, the login and the change of the password of browser_sessions.rs and
--   browser_access.rs, with the checks of password_kdf.rs; Access/Revocation has what is proved.
-- - Media/Sessions: `SessionAdmission` of admission.rs; Sessions/Single has what is proved of it.
-- - Examples: a run from the empty document to a running call, and other concrete inputs.
--
-- Conventions. An identifier or another text that the code only compares is a number, and a text
-- that it clears or measures is a list of characters. Times are arguments: `at` in seconds and `ms`
-- in milliseconds; the clock is read once in an update, where the code may read it several times.
-- Plain additions of `u64` wrap around (`add64`), the saturating ones stop at the largest value, and
-- `saturating_sub` is the subtraction of natural numbers. No definition needs fuel: every loop of the
-- code runs over a list or a map. Identifiers that are drawn, serialised lengths, digests, files, the
-- archive of ended reservations, the public form of a demand, the directory of legacy leases, and the
-- outcome of a start, a stop or a call of a backend are arguments, as they come from outside of the
-- document. Protocol payloads (protocol.rs) and the check of retained audio (speech.rs) are arguments
-- of a submission.
--
-- Not modelled: HTTP interfaces and gateways, hosting and processes, the files of payloads and of
-- ended reservations, media and speech services, the supervisor's loop, and of the other crates
-- campaigns, the execution of changes, infrastructure, the rest of the media gateway and the command
-- line: they are effects, parsing, or components of their own.
mod Common
pub mod Domain
pub mod Tasks
pub mod Runtime
pub mod Media
pub mod Examples
