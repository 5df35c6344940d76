-- ===== src/Runtime/Admission/Demands.antt =====
-- The demand that an acquisition asks for: `validate_request`, `eligibility` and `prepare` of
-- crates/rack_ai_runtime/src/admission.rs, with `valid_id` of types.rs.
use rack_ai.Common.{
  ℕ, Bool, true, false, not, ◌&&◌, ◌||◌, Option, some, none, List, ◌∷◌, [], ltb, leb, if◌then◌else◌,
  ◌==◌, nat_eq, option_eq, list_eq, all, any, member, find, length, unwrap_or, ok, err, ok_or,
  ◌>>=◌, ◌>>◌, bool_eq, add64,
}
use rack_ai.Runtime.Types.{Demand, Acquire, Profile, Text, Result}
use rack_ai.Runtime.Types.Enums.{
  DemandState, Priority, Capability, capability_eq, priority_eq, demand_state_eq,
}
use rack_ai.Runtime.Types.Messages.{Failure}
use rack_ai.Runtime.Config.{Config, Environment, Source}
use rack_ai.Runtime.Planner.{Fresh}

unfoldable pub is_id_character : ℕ → Bool
is_id_character c =
    (leb b'0' c && leb c b'9')
    || ((leb b'A' c && leb c b'Z')
        || ((leb b'a' c && leb c b'z') || (c == b'-' || (c == b'_' || c == b'.'))))

unfoldable pub valid_id : Text → Bool
unfolding is_id_character
valid_id t = not (length t == 0) && (leb (length t) 128 && all is_id_character t)

unfoldable pub has_duplicate : List Capability → Bool
has_duplicate [] = false
has_duplicate (c ∷ cs) = member c cs || has_duplicate cs

unfoldable pub is_empty {ℓ} : {A : Type ℓ} → List A → Bool
is_empty [] = true
is_empty (x ∷ xs) = false

unfoldable pub validate_request : Environment → Acquire → ℕ → Result (Unit {0})
unfolding valid_id has_duplicate is_empty
validate_request env r max_ttl =
    if not (r.schema == env.version)
      || (not (valid_id (env.text r.acquisition_id))
          || (not (valid_id (env.text r.work_id))
              || (r.ttl_seconds == 0
                  || (ltb max_ttl r.ttl_seconds
                      || (r.context_tokens == 0
                          || (is_empty r.capabilities || has_duplicate r.capabilities))))))
    then err Failure.invalid_request
    else ok tt

unfoldable pub eligibility : Demand → Option Failure
eligibility d =
    if not d.profile.qualified && not d.request.qualification
    then some Failure.unqualified_profile
    else if ltb d.profile.context_tokens d.request.context_tokens
        || any (λ c. not (member c d.profile.capabilities)) d.request.capabilities
    then some Failure.capability_or_context_unqualified
    else none

-- The identities that an acquisition draws: for the demand, and for its fence.
pub record Identities : Type 0 where
  pub id : Result ℕ
  pub generation : Result ℕ
  pub access_key : Result ℕ
  pub fence : Fresh

unfoldable pub new_demand : ℕ → Source → Acquire → ℕ → Profile → ℕ → ℕ → ℕ → ℕ → Demand
new_demand at source request order profile hash id generation access_key = record {
  reservation_id = none;
  services = [];
  reserve_request = none;
  reservation_closed = none;
  recovery_reconciliation = none;
  recovery_error = none;
  id = id;
  owner = source.source;
  request = request;
  priority = unwrap_or request.priority Priority.low;
  profile = profile;
  profile_hash = hash;
  state = DemandState.preparing;
  reason = none;
  retry_after = none;
  preempted_by = none;
  ready_checked = false;
  accepted_calls = 0;
  generation = generation;
  access_key = access_key;
  backend_activation = none;
  created = at;
  last_activity_at = none;
  order = order;
  deadline = add64 at request.ttl_seconds;
  transition_deadline = 0;
  victims = [];
  process = none;
  effect_started = false;
  preflight_done = false;
  released = false;
}

unfoldable pub prepare :
    ℕ → Environment → Config → Source → Identities → Acquire → ℕ → Result Demand
unfolding validate_request new_demand
prepare at env config source ids request order = do
  validate_request env request config.max_ttl_seconds
  if request.qualification && not source.qualification
      then err Failure.qualification_mode_denied
      else (do
        profile ← ok_or (find (λ p. p.tag == request.tag) config.profiles) Failure.unknown_tag
        hash ← env.profile_digest profile
        id ← ids.id
        generation ← ids.generation
        access_key ← ids.access_key
        ok (new_demand at source request order profile hash id generation access_key))
