-- ===== src/Runtime/Types/Enums.antt =====
-- The enumerations of crates/rack_ai_runtime/src/types.rs and config.rs, and the priorities and
-- capabilities of crates/rack_ai_application/src/generic_routing.rs, with their equality tests.
use rack_ai.Common.{ℕ, ◌≡◌, ◌↔◌, true, Eq, nat_beq, arith}

pub data DemandState : Type 0 where
  unavailable preparing ready preempting preempted releasing released cancelled expired
        recovery_required :
      DemandState

pub data InvocationState : Type 0 where
  queued running completed cancelled failed expired uncertain : InvocationState

pub data WarmState : Type 0 where
  resident evicting recovery_required : WarmState

pub data Priority : Type 0 where
  low medium high paramount : Priority

pub data Capability : Type 0 where
  reasoning coding visual audio : Capability

pub data Backend : Type 0 where
  vllm llama_cpp strata comfyui chatterbox ninfer : Backend

pub data Driver : Type 0 where
  systemd docker fixture : Driver

-- The position of a constructor in its declaration: by it two values are compared, as the derived
-- `PartialEq` and `Ord` of the source do.
abbrev pub demand_state_rank : DemandState → ℕ
demand_state_rank DemandState.unavailable = 0
demand_state_rank DemandState.preparing = 1
demand_state_rank DemandState.ready = 2
demand_state_rank DemandState.preempting = 3
demand_state_rank DemandState.preempted = 4
demand_state_rank DemandState.releasing = 5
demand_state_rank DemandState.released = 6
demand_state_rank DemandState.cancelled = 7
demand_state_rank DemandState.expired = 8
demand_state_rank DemandState.recovery_required = 9

pub demand_state_rank_iff :
    (a b : DemandState) → (nat_beq (demand_state_rank a) (demand_state_rank b) ≡ true) ↔ (a ≡ b)
demand_state_rank_iff a b = (λ h. ground arith, λ h. ground arith)

instance abbrev pub demand_state_eq : Eq DemandState
demand_state_eq = record {
  beq = λ a b. nat_beq (demand_state_rank a) (demand_state_rank b);
  beq_iff = demand_state_rank_iff;
}

abbrev pub invocation_state_rank : InvocationState → ℕ
invocation_state_rank InvocationState.queued = 0
invocation_state_rank InvocationState.running = 1
invocation_state_rank InvocationState.completed = 2
invocation_state_rank InvocationState.cancelled = 3
invocation_state_rank InvocationState.failed = 4
invocation_state_rank InvocationState.expired = 5
invocation_state_rank InvocationState.uncertain = 6

pub invocation_state_rank_iff :
    (a b : InvocationState)
    → (nat_beq (invocation_state_rank a) (invocation_state_rank b) ≡ true) ↔ (a ≡ b)
invocation_state_rank_iff a b = (λ h. ground arith, λ h. ground arith)

instance abbrev pub invocation_state_eq : Eq InvocationState
invocation_state_eq = record {
  beq = λ a b. nat_beq (invocation_state_rank a) (invocation_state_rank b);
  beq_iff = invocation_state_rank_iff;
}

abbrev pub warm_state_rank : WarmState → ℕ
warm_state_rank WarmState.resident = 0
warm_state_rank WarmState.evicting = 1
warm_state_rank WarmState.recovery_required = 2

pub warm_state_rank_iff :
    (a b : WarmState) → (nat_beq (warm_state_rank a) (warm_state_rank b) ≡ true) ↔ (a ≡ b)
warm_state_rank_iff a b = (λ h. ground arith, λ h. ground arith)

instance abbrev pub warm_state_eq : Eq WarmState
warm_state_eq = record {
  beq = λ a b. nat_beq (warm_state_rank a) (warm_state_rank b);
  beq_iff = warm_state_rank_iff;
}

abbrev pub priority_rank : Priority → ℕ
priority_rank Priority.low = 0
priority_rank Priority.medium = 1
priority_rank Priority.high = 2
priority_rank Priority.paramount = 3

pub priority_rank_iff :
    (a b : Priority) → (nat_beq (priority_rank a) (priority_rank b) ≡ true) ↔ (a ≡ b)
priority_rank_iff a b = (λ h. ground arith, λ h. ground arith)

instance abbrev pub priority_eq : Eq Priority
priority_eq = record {
  beq = λ a b. nat_beq (priority_rank a) (priority_rank b);
  beq_iff = priority_rank_iff;
}

abbrev pub capability_rank : Capability → ℕ
capability_rank Capability.reasoning = 0
capability_rank Capability.coding = 1
capability_rank Capability.visual = 2
capability_rank Capability.audio = 3

pub capability_rank_iff :
    (a b : Capability) → (nat_beq (capability_rank a) (capability_rank b) ≡ true) ↔ (a ≡ b)
capability_rank_iff a b = (λ h. ground arith, λ h. ground arith)

instance abbrev pub capability_eq : Eq Capability
capability_eq = record {
  beq = λ a b. nat_beq (capability_rank a) (capability_rank b);
  beq_iff = capability_rank_iff;
}

abbrev pub backend_rank : Backend → ℕ
backend_rank Backend.vllm = 0
backend_rank Backend.llama_cpp = 1
backend_rank Backend.strata = 2
backend_rank Backend.comfyui = 3
backend_rank Backend.chatterbox = 4
backend_rank Backend.ninfer = 5

pub backend_rank_iff :
    (a b : Backend) → (nat_beq (backend_rank a) (backend_rank b) ≡ true) ↔ (a ≡ b)
backend_rank_iff a b = (λ h. ground arith, λ h. ground arith)

instance abbrev pub backend_eq : Eq Backend
backend_eq = record {
  beq = λ a b. nat_beq (backend_rank a) (backend_rank b);
  beq_iff = backend_rank_iff;
}

abbrev pub driver_rank : Driver → ℕ
driver_rank Driver.systemd = 0
driver_rank Driver.docker = 1
driver_rank Driver.fixture = 2

pub driver_rank_iff : (a b : Driver) → (nat_beq (driver_rank a) (driver_rank b) ≡ true) ↔ (a ≡ b)
driver_rank_iff a b = (λ h. ground arith, λ h. ground arith)

instance abbrev pub driver_eq : Eq Driver
driver_eq = record {
  beq = λ a b. nat_beq (driver_rank a) (driver_rank b);
  beq_iff = driver_rank_iff;
}
