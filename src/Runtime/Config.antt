-- ===== src/Runtime/Config.antt =====
-- What the operations read of the configuration (crates/rack_ai_runtime/src/config.rs, the `Limits`
-- of capacity.rs), and the serialisation and digests that they take from other packages.
use rack_ai.Common.{ℕ, ◌*◌, Bool, ◌||◌, List, ltb, nat_eq, if◌then◌else◌, ok, err, Option, none}
use rack_ai.Runtime.Types.{Document, Profile, Inference, Work, Result, Text}
use rack_ai.Runtime.Types.Enums.{DemandState, Priority, Capability}
use rack_ai.Runtime.Types.Messages.{Failure}

pub record Limits : Type 0 where
  pub max_pending : ℕ
  pub max_pending_per_reservation : ℕ
  pub legacy_max_calls_per_reservation : Option ℕ
  pub max_dispatch_workers : ℕ
  pub max_transition_workers : ℕ
  pub max_gateway_waiters : ℕ
  pub max_wait_seconds : ℕ
  pub max_response_bytes : ℕ
  pub retention_admission_bytes : ℕ
  pub terminal_evidence_bytes : ℕ

-- `Limits::default`.
unfoldable pub default_limits : Limits
default_limits = record {
  max_pending = 32;
  max_pending_per_reservation = 16;
  legacy_max_calls_per_reservation = none;
  max_dispatch_workers = 4;
  max_transition_workers = 8;
  max_gateway_waiters = 32;
  max_wait_seconds = 300;
  max_response_bytes = 3 * 1024 * 1024;
  retention_admission_bytes = 30 * 1024 * 1024;
  terminal_evidence_bytes = 8 * 1024 * 1024;
}

-- Outside of the range from `lo` to `hi`, both included.
abbrev pub outside : ℕ → ℕ → ℕ → Bool
outside lo hi x = ltb x lo || ltb hi x

unfoldable pub validate : Limits → Result (Unit {0})
validate l =
    if outside 1 1024 l.max_pending
      || (outside 1 l.max_pending l.max_pending_per_reservation
          || (outside 1 64 l.max_dispatch_workers
              || (outside 1 64 l.max_transition_workers
                  || (outside 1 128 l.max_gateway_waiters
                      || (outside 1 86400 l.max_wait_seconds
                          || (outside 1024 (4 * 1024 * 1024) l.max_response_bytes
                              || (outside (256 * 1024) (30 * 1024 * 1024)
                                    l.retention_admission_bytes
                                  || outside (64 * 1024) (30 * 1024 * 1024)
                                      l.terminal_evidence_bytes)))))))
    then err Failure.invalid_runtime_capacity_limits
    else ok tt

pub record Source : Type 0 where
  pub source : ℕ
  pub qualification : Bool

pub record Config : Type 0 where
  pub max_ttl_seconds : ℕ
  pub idle_timeout_seconds : ℕ
  pub host_capacity_mib : ℕ
  pub limits : Limits
  pub profiles : List Profile

-- What the digest of an acquisition decision is made of: the acquisition's identifier is not in it.
pub record DecisionMaterial : Type 0 where
  pub owner : ℕ
  pub tag : ℕ
  pub priority : Priority
  pub capabilities : List Capability
  pub context_tokens : ℕ
  pub ttl_seconds : ℕ
  pub qualification : Bool
  pub profile_hash : ℕ

-- The owner of one resource, as a decision depends on it.
pub record OwnerMaterial : Type 0 where
  pub resource : ℕ
  pub claim : Option ℕ
  pub state : Option DemandState
  pub priority : Option Priority
  pub generation : Option ℕ

-- Serialised lengths and digests (`serde_json`, `sha2`), and the texts behind the identifiers.
pub record Environment : Type 0 where
  pub version : ℕ
  pub text : ℕ → Text
  pub request_length : Inference → Result ℕ
  pub request_digest : Inference → ℕ
  pub work_length : Work → Result ℕ
  pub work_digest : Work → ℕ
  pub value_length : ℕ → Result ℕ
  pub value_digest : ℕ → ℕ
  pub document_length : Document → Result ℕ
  pub profile_digest : Profile → Result ℕ
  pub decision_digest : DecisionMaterial → Result ℕ
  pub owners_digest : List OwnerMaterial → Result ℕ
  -- the digest of "{source}/{acquisition_id}/{tag}", and "unavailable-" before its first 48 letters
  pub unavailable_digest : ℕ → ℕ → ℕ → ℕ
  pub unavailable_id : ℕ → ℕ
