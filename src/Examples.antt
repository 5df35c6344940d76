-- ===== src/Examples.antt =====
-- Fixtures for runs of the runtime: two services on one device, and the code around the document
-- as constant functions.
pub mod Documents
pub mod Planning
pub mod Runs
pub mod Activity
pub mod Reservations
pub mod Tasks
pub mod Names
pub mod Reserving
pub mod Scopes
pub mod Warm
pub mod Media
pub mod Sessions
use rack_ai.Common.{
  ℕ, Bool, true, false, Option, some, none, List, ◌∷◌, [], ◌≡◌, refl, Outcome, ok, err,
}
use rack_ai.Runtime.Types.{
  Document, Demand, Acquire, Profile, Inference, Work, Process, StoredPayloadRef, Result, Text,
}
use rack_ai.Runtime.Types.Enums.{
  DemandState, InvocationState, Priority, Capability, Backend, Driver,
}
use rack_ai.Runtime.Types.Messages.{Failure}
use rack_ai.Runtime.Config.{
  Environment, Limits, Config, Source, DecisionMaterial, OwnerMaterial, default_limits,
}
use rack_ai.Runtime.Planner.{Fresh}
use rack_ai.Runtime.Admission.{Identities, new_demand}

abbrev pub from_ok {ℓ} : {A : Type ℓ} → A → Outcome Failure A → A
from_ok a (ok b) = b
from_ok a (err e) = a

abbrev pub is_ok {ℓ} : {A : Type ℓ} → Outcome Failure A → Bool
is_ok (ok b) = true
is_ok (err e) = false

pub from_ok-eq {ℓ} :
    {A : Type ℓ} (a : A) (m : Outcome Failure A) → is_ok m ≡ true → m ≡ ok (from_ok a m)
from_ok-eq a (ok b) h = refl
from_ok-eq a (err e) h = cc

abbrev pub chat_profile : Profile
chat_profile = record {
  tag = 7;
  model = 70;
  backend = Backend.vllm;
  driver = Driver.fixture;
  qualified = true;
  capabilities = Capability.coding ∷ [];
  context_tokens = 4096;
  max_output_tokens = 512;
  resources = 0 ∷ [];
  host_mib = 100;
  endpoint = 1;
  startup_seconds = 30;
  drain_seconds = 20;
  stop_seconds = 10;
  inference_seconds = 60;
}

abbrev pub acquire_chat : ℕ → Priority → Acquire
acquire_chat id priority = record {
  schema = 1;
  source_system = 5;
  work_id = id;
  acquisition_id = id;
  tag = 7;
  priority = some priority;
  capabilities = Capability.coding ∷ [];
  context_tokens = 1024;
  ttl_seconds = 600;
  qualification = false;
}

abbrev pub source : Source
source = record { source = 5; qualification = false }

abbrev pub small_limits : Limits
small_limits = record {
  max_pending = 8;
  max_pending_per_reservation = 4;
  legacy_max_calls_per_reservation = none;
  max_dispatch_workers = 2;
  max_transition_workers = 2;
  max_gateway_waiters = 2;
  max_wait_seconds = 300;
  max_response_bytes = 1024;
  retention_admission_bytes = 1000000;
  terminal_evidence_bytes = 70000;
}

abbrev pub config : Config
config = record {
  max_ttl_seconds = 3600;
  idle_timeout_seconds = 900;
  host_capacity_mib = 1000;
  limits = small_limits;
  profiles = chat_profile ∷ [];
}

-- Every text is "a", every length 10, every digest 1.
abbrev pub environment : Environment
environment = record {
  version = 1;
  text = λ _. 97 ∷ [];
  request_length = λ _. ok 10;
  request_digest = λ _. 1;
  work_length = λ _. ok 10;
  work_digest = λ _. 1;
  value_length = λ _. ok 10;
  value_digest = λ _. 1;
  document_length = λ _. ok 10;
  profile_digest = λ _. ok 1;
  decision_digest = λ _. ok 1;
  owners_digest = λ _. ok 1;
  unavailable_digest = λ _ _ _. 1;
  unavailable_id = λ _. 1;
}

abbrev pub fresh : ℕ → Fresh
fresh n = record { generation = ok n; access_key = ok n; activation = ok n }

abbrev pub identities : ℕ → Identities
identities n = record { id = ok n; generation = ok n; access_key = ok n; fence = fresh n }

-- The demand `id` of an acquisition, before its fence.
abbrev pub candidate : ℕ → Priority → Demand
unfolding new_demand
candidate id priority = new_demand 100 source (acquire_chat id priority) 0 chat_profile 1 id id id

abbrev pub process : Process
process = record {
  pid = 10;
  boot = 1;
  start = 1;
  activation = 1;
  unit = none;
  container = none;
  invocation = none;
}
