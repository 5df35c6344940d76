-- ===== src/Runtime/Residency/Cache.antt =====
-- The updates that keep a backend warm, give it to a demand, and evict it: `cache_after_release`,
-- `adopt_or_evict`, `evict_incompatible`, `reconcile_on_start` and their helpers in
-- crates/rack_ai_runtime/src/residency.rs. What a backend answers and its stop are outside of the
-- document, between the updates.
use rack_ai.Common.{
  ℕ, Bool, true, false, not, ◌&&◌, Option, some, none, List, ◌∷◌, [], map, if◌then◌else◌, ◌==◌,
  nat_eq, option_eq, any, is_none, is_some_and, unwrap_or, ok, err, ok_or, ◌>>=◌, keep,
}
use rack_ai.Common.Map.{lookup, insert, modify, remove, retain, values}
use rack_ai.Runtime.Types.{Document, Demand, Process, WarmResidency, Map, Result}
use rack_ai.Runtime.Types.Enums.{DemandState, WarmState, demand_state_eq, warm_state_eq}
use rack_ai.Runtime.Types.Messages.{Failure, Message}
use rack_ai.Runtime.Service.{owns}
use rack_ai.Runtime.Reservation.{current}
use rack_ai.Runtime.Retirement.{retired}
use rack_ai.Runtime.Residency.{supported, compatible, overlaps}

abbrev pub process_beq : Process → Process → Bool
process_beq a b =
    a.pid == b.pid
    && (a.boot == b.boot
        && (a.start == b.start
            && (a.activation == b.activation
                && (a.unit == b.unit
                    && (a.container == b.container && a.invocation == b.invocation)))))

-- `Demand::backend_activation`.
unfoldable pub backend_activation : Demand → ℕ
backend_activation d = unwrap_or d.backend_activation d.generation

abbrev pub ends_by_force : Option Message → Bool
ends_by_force none = false
ends_by_force (some Message.cancelled_by_owner) = true
ends_by_force (some Message.preempted_by_higher_priority) = true
ends_by_force (some m) = false

unfoldable pub cache_candidate : Demand → Bool
cache_candidate d =
    supported d.profile
    && (not (is_none d.process)
        && (d.effect_started && (d.state == DemandState.releasing && not (ends_by_force d.reason))))

unfoldable pub cache_record : ℕ → Demand → Process → WarmResidency
cache_record at d process = record {
  id = process.activation;
  profile_hash = d.profile_hash;
  profile = d.profile;
  backend = d.profile.backend;
  driver = d.profile.driver;
  model = d.profile.model;
  resources = d.profile.resources;
  endpoint = d.profile.endpoint;
  process = process;
  cached_at = at;
  last_ready_at = at;
  state = WarmState.resident;
}

-- The record is still what the demand would leave behind.
unfoldable pub may_cache : Demand → WarmResidency → Demand → Bool
unfolding cache_candidate backend_activation
may_cache d r saved =
    saved.generation == d.generation
    && (is_some_and saved.process (λ p. process_beq p r.process)
        && (cache_candidate saved && backend_activation saved == r.id))

unfoldable pub occupied_warm : Document → WarmResidency → Demand → Bool
occupied_warm s r saved =
    any (λ e. not (e.id == r.id) && overlaps e saved) (values s.warm_residencies)

-- The update of `cache_after_release`: the backend stays, and the demand ends.
unfoldable pub cache_after_release :
    ℕ → Document → Demand → WarmResidency → Result (Document × Bool)
unfolding may_cache occupied_warm
cache_after_release at s d r = do
  saved ← ok_or (lookup d.id s.demands) Failure.missing_transition
  if not (may_cache d r saved)
      then ok (s, false)
      else if occupied_warm s r saved
      then err Failure.warm_residency_overlap
      else (current s d >>= λ c. ok (
        record s {
          warm_residencies = insert r.id r s.warm_residencies;
          demands = modify d.id (retired at) s.demands;
          claims = retain (λ owner. not (owner == d.id)) s.claims;
        },
        true,
      ))

-- The demand still prepares on resources that it owns.
unfoldable pub still_preparing : Document → Demand → Demand → Bool
still_preparing s d saved =
    saved.generation == d.generation && (saved.state == DemandState.preparing && owns s saved)

abbrev pub adopts : Document → Demand → WarmResidency → WarmResidency → Bool
adopts s d r live =
    live.state == WarmState.resident && (process_beq live.process r.process && compatible live d)

unfoldable pub adopted : WarmResidency → Demand → Demand
adopted r d = record d {
  backend_activation = some r.id;
  process = some r.process;
  effect_started = true;
}

unfoldable pub adopt_live : Document → Demand → WarmResidency → Result (Document × Bool)
unfolding still_preparing adopted
adopt_live s d r = do
  saved ← ok_or (lookup d.id s.demands) Failure.missing_transition
  if not (still_preparing s d saved)
      then ok (s, false)
      else (current s d >>= λ c. ok (
        record s {
          warm_residencies = remove r.id s.warm_residencies;
          demands = modify d.id (adopted r) s.demands;
        },
        true,
      ))

-- The update of `adopt_or_evict`, once the backend has been verified: the demand takes it over.
unfoldable pub adopt : Document → Demand → WarmResidency → Result (Document × Bool)
unfolding adopt_live
adopt s d r = elim (lookup r.id s.warm_residencies) [
  | none ↦ ok (s, false)
  | some live ↦ if adopts s d r live then adopt_live s d r else ok (s, false)
]

unfoldable pub evicting : WarmResidency → WarmResidency
evicting r = record r { state = WarmState.evicting }

unfoldable pub evict_entries : Demand → Map WarmResidency → Map WarmResidency
evict_entries saved [] = []
evict_entries saved ((id, r) ∷ m) =
    (
      id,
      if r.state == WarmState.resident && (overlaps r saved && not (compatible r saved))
          then evicting r
          else r,
    )
    ∷ evict_entries saved m

-- The first update of `evict_incompatible`.
unfoldable pub evict_incompatible : Document → Demand → Result Document
unfolding still_preparing evict_entries
evict_incompatible s d = do
  saved ← ok_or (lookup d.id s.demands) Failure.missing_transition
  if not (still_preparing s d saved)
      then ok s
      else ok (record s { warm_residencies = evict_entries saved s.warm_residencies })

-- `f` on the record, if its process is still the one that was seen.
abbrev pub if_same_process :
    WarmResidency → (WarmResidency → WarmResidency) → WarmResidency → WarmResidency
if_same_process r f saved = if process_beq saved.process r.process then f saved else saved

unfoldable pub mark_evicting : Document → WarmResidency → Document
unfolding evicting
mark_evicting s r = record s {
  warm_residencies = modify r.id (if_same_process r evicting) s.warm_residencies;
}

unfoldable pub remove_if_unchanged : Document → WarmResidency → Document
remove_if_unchanged s r =
    if is_some_and (lookup r.id s.warm_residencies) (λ saved. process_beq saved.process r.process)
    then record s { warm_residencies = remove r.id s.warm_residencies }
    else s

abbrev pub proven : ℕ → WarmResidency → WarmResidency
proven at r = if r.state == WarmState.resident then record r { last_ready_at = at } else r

-- The update of `reconcile_on_start` for a backend that answers.
unfoldable pub prove_ready : ℕ → Document → WarmResidency → Document
prove_ready at s r = record s {
  warm_residencies = modify r.id (if_same_process r (proven at)) s.warm_residencies;
}

unfoldable pub matching_processes : Document → Demand → List Process
matching_processes s d =
    map (λ r. r.process) (keep (λ r. compatible r d) (values s.warm_residencies))
