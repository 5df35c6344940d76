-- ===== src/Runtime/Flight/Reach.antt =====
-- Every update of the document keeps one call in flight per reservation.
use rack_ai.Common.{ℕ, ◌≡◌, refl, arith}
use rack_ai.Common.Map.{lookup}
use rack_ai.Runtime.Types.{Document}
use rack_ai.Runtime.Idle.{reap}
use rack_ai.Runtime.Ownership.{Owned}
use rack_ai.Runtime.Ownership.Reach.{
  reconsiders, fails, Step, Reach, acquires, preflights, preempts, transfers, announces,
  starts_process, commits, retires, controls, applies, cancels_call, fails_readiness,
  prepares_again, observes_process, reaps, refreshes, closes, recovers, submits, dispatches,
  completes, reserves, retries_services, scopes, caches, takes_over, evicts, marks_evicting,
  removes_record, proves_ready, here, next, Reach-Owned, empty_document,
}
use rack_ai.Runtime.Flight.{SingleFlight, Calmer-SingleFlight, same-Calmer}
use rack_ai.Runtime.Residency.Cache.{mark_evicting, prove_ready}
use rack_ai.Runtime.Flight.Reserving.{reserve-Quiet, refresh_reservation-Quiet}
use rack_ai.Runtime.Flight.Warm.{
  cache_after_release-SameCalls, adopt-SameCalls, evict_incompatible-SameCalls,
  remove_if_unchanged-SameCalls, control_scope-Quiet,
}
use rack_ai.Runtime.Flight.Steps.{cancel_closed-Calmer}
use rack_ai.Runtime.Flight.Starts.{start-SingleFlight, refresh-calls}
use rack_ai.Runtime.Flight.Submits.{submit-SingleFlight}
use rack_ai.Runtime.Flight.Supervision.{reconsider-Calmer, record_failure-calls}
use rack_ai.Runtime.Flight.Ends.{save-Calmer}
use rack_ai.Runtime.Flight.Transitions.{
  finish_preflight-SameCalls, mark_preempted-SameCalls, claim_drained-SameCalls,
  announce_start-SameCalls, record_process-SameCalls, commit_readiness-SameCalls,
  commit_retirement-SameCalls, fail_readiness-SameCalls, restart_preparation-SameCalls,
  refresh_process-SameCalls,
}
use rack_ai.Runtime.Flight.Calls.{
  Quiet, apply-Quiet, reservation_control-Quiet, cancel_invocation-Quiet, recover-Quiet,
  acquire-Quiet,
}

same-Quiet : (s t : Document) → t.invocations ≡ s.invocations → Quiet s t
same-Quiet s t e = same-Calmer s.invocations t.invocations e

Quiet-SingleFlight :
    (s t : Document) → Quiet s t → SingleFlight s.invocations → SingleFlight t.invocations
Quiet-SingleFlight s t q = Calmer-SingleFlight s.invocations t.invocations q

reap-same : (s : Document) (seconds at : ℕ) → (reap s seconds at).invocations ≡ s.invocations
unfolding reap
reap-same s seconds at = refl

pub Step-SingleFlight :
    {s t : Document} → Step s t → Owned s → SingleFlight s.invocations → SingleFlight t.invocations
unfolding mark_evicting prove_ready
Step-SingleFlight {s} {t} (acquires at env config source ids legacy request new h) o =
    Quiet-SingleFlight s t (acquire-Quiet at env config source ids legacy s request h)
Step-SingleFlight {s} {t} (preflights at d h) o =
    Quiet-SingleFlight s t (same-Quiet s t (finish_preflight-SameCalls at s d h))
Step-SingleFlight {s} {t} (preempts id victim h) o =
    Quiet-SingleFlight s t (same-Quiet s t (mark_preempted-SameCalls s id victim h))
Step-SingleFlight {s} {t} (transfers d h) o =
    Quiet-SingleFlight s t (same-Quiet s t (claim_drained-SameCalls s d h))
Step-SingleFlight {s} {t} (announces at d h) o =
    Quiet-SingleFlight s t (same-Quiet s t (announce_start-SameCalls at s d h))
Step-SingleFlight {s} {t} (starts_process d p h) o =
    Quiet-SingleFlight s t (same-Quiet s t (record_process-SameCalls s d p h))
Step-SingleFlight {s} {t} (commits at d p h) o =
    Quiet-SingleFlight s t (same-Quiet s t (commit_readiness-SameCalls at s d p h))
Step-SingleFlight {s} {t} (retires at d h) o =
    Quiet-SingleFlight s t (same-Quiet s t (commit_retirement-SameCalls at s d h))
Step-SingleFlight {s} {t} (controls at ms max_ttl owner id action h) o =
    Quiet-SingleFlight s t (reservation_control-Quiet at ms max_ttl s owner id action h)
Step-SingleFlight {s} {t} (applies at max_ttl owner id generation action h) o =
    Quiet-SingleFlight s t (apply-Quiet at max_ttl s owner id generation action h)
Step-SingleFlight {s} {t} (cancels_call at ms owner id h) o =
    Quiet-SingleFlight s t (cancel_invocation-Quiet at ms s owner id h)
Step-SingleFlight {s} {t} (fails_readiness d error h) o =
    Quiet-SingleFlight s t (same-Quiet s t (fail_readiness-SameCalls s d error h))
Step-SingleFlight {s} {t} (prepares_again at d h) o =
    Quiet-SingleFlight s t (same-Quiet s t (restart_preparation-SameCalls at s d h))
Step-SingleFlight {s} {t} (observes_process d p h) o =
    Quiet-SingleFlight s t (same-Quiet s t (refresh_process-SameCalls s d p h))
Step-SingleFlight {s} {t} (reaps seconds at) o =
    Quiet-SingleFlight s t (same-Quiet s t (reap-same s seconds at))
Step-SingleFlight {s} {t} (refreshes seconds at h) o =
    Quiet-SingleFlight s t (same-Quiet s t (refresh-calls s seconds at h))
Step-SingleFlight {s} {t} (closes at ms) o = Quiet-SingleFlight s t (cancel_closed-Calmer at ms s)
Step-SingleFlight {s} {t} (reconsiders at ms idle receipts h) o =
    Quiet-SingleFlight s t (reconsider-Calmer at ms idle receipts s h)
Step-SingleFlight {s} {t} (fails at error seen h) o =
    Quiet-SingleFlight s t (same-Quiet s t (record_failure-calls at error s seen h))
Step-SingleFlight {s} {t} (recovers placement port h) o =
    Quiet-SingleFlight s t (recover-Quiet placement port s h)
Step-SingleFlight {s} {t} (submits k owner request h) o = submit-SingleFlight k s owner request h
Step-SingleFlight {s} {t} (dispatches k generation id h) o =
    start-SingleFlight k generation s id h o.keyed
Step-SingleFlight {s} {t} (completes k seen d result h) o =
    Quiet-SingleFlight s t (save-Calmer k s seen d result h)
Step-SingleFlight {s} {t} (reserves k request draws h) o =
    Quiet-SingleFlight s t (reserve-Quiet k request s h)
Step-SingleFlight {s} {t} (retries_services k owner id h) o =
    Quiet-SingleFlight s t (refresh_reservation-Quiet k owner id s h)
Step-SingleFlight {s} {t} (scopes k access operation h) o =
    Quiet-SingleFlight s t (control_scope-Quiet k s access operation h)
Step-SingleFlight {s} {t} (caches at d w h) o =
    Quiet-SingleFlight s t (same-Quiet s t (cache_after_release-SameCalls at s d w h))
Step-SingleFlight {s} {t} (takes_over d seen h) o =
    Quiet-SingleFlight s t (same-Quiet s t (adopt-SameCalls s d seen h))
Step-SingleFlight {s} {t} (evicts d h) o =
    Quiet-SingleFlight s t (same-Quiet s t (evict_incompatible-SameCalls s d h))
Step-SingleFlight {s} {t} (marks_evicting seen) o = Quiet-SingleFlight s t (same-Quiet s t refl)
Step-SingleFlight {s} {t} (removes_record seen) o =
    Quiet-SingleFlight s t (same-Quiet s t (remove_if_unchanged-SameCalls s seen))
Step-SingleFlight {s} {t} (proves_ready at seen) o = Quiet-SingleFlight s t (same-Quiet s t refl)

empty_document-SingleFlight : SingleFlight empty_document.invocations
unfolding empty_document lookup
empty_document-SingleFlight j k a b ea eb fa fb r = absurd (ground arith)

-- In every document that the modelled updates reach from the empty one, at most one call of a
-- reservation, workspaces apart, is running or of unknown outcome: two such calls are stored
-- under the same identifier.
pub Reach-SingleFlight : {s : Document} → Reach empty_document s → SingleFlight s.invocations
Reach-SingleFlight here = empty_document-SingleFlight
Reach-SingleFlight (next reach step) =
    Step-SingleFlight step (Reach-Owned reach) (Reach-SingleFlight reach)
