-- ===== src/Examples/Reserving.antt =====
-- A reservation of one service, and the state that two services show.
use rack_ai.Common.{ℕ, ◌+◌, ◌*◌, Bool, false, Option, some, none, List, ◌∷◌, [], ◌≡◌, refl, ok, All}
use rack_ai.Common.Map.{lookup, insert, values}
use rack_ai.Runtime.Types.{Document}
use rack_ai.Runtime.Types.Enums.{DemandState, Priority}
use rack_ai.Runtime.Admission.Decisions.{purge_decisions}
use rack_ai.Runtime.Reserving.{GroupContext, reserve}
use rack_ai.Runtime.Reserving.Views.{ReservationView, Aggregate, aggregate_state}
use rack_ai.Runtime.Reserving.Together.{Together}
use rack_ai.Runtime.Reserving.Uniform.{aggregate_state-All}
use rack_ai.Runtime.Ownership.Reach.{empty_document}
use rack_ai.Examples.{from_ok, environment, config, source, identities, fresh}
use rack_ai.Examples.Documents.{reservation, demand}

abbrev group_context : GroupContext
group_context = record {
  at = 100;
  env = environment;
  config = config;
  source = source;
  legacy = ok [];
  member_acquisition = λ _ _ tag. tag;
  group_digest = λ _. ok 1;
  claims_digest = λ _. ok 1;
  unavailable_root = λ _ _. 0;
  archived = λ _ _. ok none;
  identities = λ n. identities (n + 1);
  fence_identities = fresh;
  public = λ d. ok d.id;
}

abbrev refused_view : ReservationView
refused_view = record {
  id = 0;
  priority = Priority.low;
  state = Aggregate.uniform DemandState.unavailable;
  acquisition_id = none;
  requested_services = none;
  services = [];
}

abbrev reserved : Document × ReservationView
reserved = from_ok (empty_document, refused_view) (reserve group_context reservation empty_document)

now_claimed : (reserved.0).claims ≡ (0, 1) ∷ []
unfolding rack_ai.Runtime.Reserving.validate_reserve rack_ai.Runtime.Reserving.prepare_services
    rack_ai.Runtime.Reserving.service_map rack_ai.Runtime.Reserving.admit_group
    rack_ai.Runtime.Reserving.decide_group rack_ai.Runtime.Reserving.admit_services
    rack_ai.Runtime.Reserving.reserve_new rack_ai.Runtime.Reserving.reserve_archived
    rack_ai.Runtime.Reserving.reserve rack_ai.Runtime.Reserving.Views.project
    rack_ai.Runtime.Reserving.Views.view rack_ai.Runtime.Planner.refusal
    rack_ai.Runtime.Planner.supersede rack_ai.Runtime.Planner.claim_all
    rack_ai.Runtime.Planner.begin_preparation rack_ai.Runtime.Planner.Group.fence_group_victims
    rack_ai.Runtime.Planner.Group.fence_group rack_ai.Runtime.Residency.backend_activation_for
    rack_ai.Runtime.Residency.retained_host_mib rack_ai.Runtime.Service.owned
    rack_ai.Runtime.Reservation.members rack_ai.Runtime.Admission.Demands.eligibility
    rack_ai.Runtime.Admission.Demands.prepare rack_ai.Runtime.Admission.Decisions.purge_decisions
    rack_ai.Runtime.Capacity.retention rack_ai.Runtime.Capacity.Compaction.compact_terminal_requests
    rack_ai.Runtime.Capacity.Compaction.compact_terminal_payloads rack_ai.Common.Map.lookup
    rack_ai.Common.Map.insert rack_ai.Common.Map.modify rack_ai.Common.Map.retain
    rack_ai.Common.Map.update_all rack_ai.Common.Map.values
    rack_ai.Runtime.Ownership.Reach.empty_document
now_claimed = refl

aggregate_state-All_example :
    (aggregate_state demand (DemandState.ready ∷ DemandState.ready ∷ [])
        ≡ Aggregate.uniform DemandState.ready
      → All (λ a. a ≡ DemandState.ready) (DemandState.ready ∷ DemandState.ready ∷ []))
    × (All (λ a. a ≡ DemandState.ready) (DemandState.ready ∷ DemandState.ready ∷ [])
        → aggregate_state demand (DemandState.ready ∷ DemandState.ready ∷ [])
          ≡ Aggregate.uniform DemandState.ready)
aggregate_state-All_example =
    aggregate_state-All demand DemandState.ready (DemandState.ready ∷ []) DemandState.ready refl
