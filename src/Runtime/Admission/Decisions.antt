-- ===== src/Runtime/Admission/Decisions.antt =====
-- Refusals that are remembered for a moment: `decision_key`, `decision_environment` and
-- `purge_decisions` of crates/rack_ai_runtime/src/admission.rs.
use rack_ai.Common.{
  ℕ, ◌-◌, Option, some, none, List, ◌∷◌, [], map, ltb, leb, if◌then◌else◌, length, take, sort_by,
}
use rack_ai.Common.Map.{lookup, retain, remove}
use rack_ai.Runtime.Types.{Document, Demand, AcquisitionDecision, Map}
use rack_ai.Runtime.Config.{DecisionMaterial, OwnerMaterial}

abbrev pub decision_cache_seconds : ℕ
decision_cache_seconds = 2

abbrev pub max_decision_cache_entries : ℕ
max_decision_cache_entries = 128

unfoldable pub decision_material : ℕ → Demand → DecisionMaterial
decision_material owner d = record {
  owner = owner;
  tag = d.request.tag;
  priority = d.priority;
  capabilities = d.request.capabilities;
  context_tokens = d.request.context_tokens;
  ttl_seconds = d.request.ttl_seconds;
  qualification = d.request.qualification;
  profile_hash = d.profile_hash;
}

unfoldable pub incumbent_of : Document → ℕ → Option Demand
incumbent_of s r = elim (lookup r s.claims) [ none ↦ none | some id ↦ lookup id s.demands ]

unfoldable pub owner_material : Document → ℕ → OwnerMaterial
unfolding incumbent_of
owner_material s r = record {
  resource = r;
  claim = lookup r s.claims;
  state = elim (incumbent_of s r) [ none ↦ none | some d ↦ some d.state ];
  priority = elim (incumbent_of s r) [ none ↦ none | some d ↦ some d.priority ];
  generation = elim (incumbent_of s r) [ none ↦ none | some d ↦ some d.generation ];
}

unfoldable pub owner_materials : Document → List ℕ → List OwnerMaterial
unfolding owner_material
owner_materials s = map (owner_material s)

unfoldable pub remove_keys : List (ℕ × ℕ) → Map AcquisitionDecision → Map AcquisitionDecision
remove_keys [] m = m
remove_keys ((e, key) ∷ es) m = remove_keys es (remove key m)

-- When each decision expires, with its key.
unfoldable pub expiries : Map AcquisitionDecision → List (ℕ × ℕ)
expiries [] = []
expiries ((key, d) ∷ m) = (d.expires_at, key) ∷ expiries m

unfoldable pub purge : ℕ → Map AcquisitionDecision → Map AcquisitionDecision
unfolding remove_keys expiries
purge at decisions =
    let live = retain (λ d. ltb at d.expires_at) decisions in
    if leb (length live) max_decision_cache_entries
    then live
    else remove_keys
        (take (length live - max_decision_cache_entries) (sort_by (λ e. e) (expiries live))) live

unfoldable pub purge_decisions : ℕ → Document → Document
unfolding purge
purge_decisions at s = record s { acquisition_decisions = purge at s.acquisition_decisions }
