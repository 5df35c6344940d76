-- ===== src/Runtime/Capacity/Sufficiency.antt =====
-- The room for active payloads is enough for every call that may wait.
use rack_ai.Common.{
  ℕ, ◌+◌, ◌*◌, ◌≤◌, ◌<◌, none, List, ◌∷◌, [], ◌≡◌, arith, map, keep, length, sum64, u64_mod,
  saturating_add, saturating_mul, ok, All, subst, ◌-◌,
}
use rack_ai.Common.Map.{values}
use rack_ai.Runtime.Types.{Document, Invocation}
use rack_ai.Runtime.Config.{Environment, Limits, validate}
use rack_ai.Runtime.Capacity.{
  is_pending, request_bytes, response_storage_commitment, response_storage_bound,
  active_payload_commitment, active_payload_capacity, check_capacity, api_request_body_bytes,
}

-- The ranges that a validated configuration keeps, as far as the room for payloads reads them.
validated_ranges :
    (l : Limits)
    → validate l ≡ ok tt
    → (l.max_pending ≤ 1024)
      × (1 ≤ l.max_dispatch_workers)
      × (l.max_dispatch_workers ≤ 64)
      × (l.max_response_bytes ≤ 4194304)
unfolding validate
validated_ranges l h = (ground arith, ground arith, ground arith, ground arith)

-- The room for one call.
abbrev pub call_room : Limits → ℕ
call_room l = 1048576 + (l.max_response_bytes * 2 + 4096)

-- A call that holds no result yet, within the bounds of the interface and of the configuration.
pub record Fits (env : Environment) (l : Limits) (i : Invocation) : Type 0 where
  pub request_fits : request_bytes env i ≤ 1048576
  pub response_fits : i.response_bytes ≤ l.max_response_bytes
  pub no_result : i.result_ref ≡ none
  pub no_late_result : i.late_result_ref ≡ none

room_bound : (l : Limits) → l.max_response_bytes ≤ 4194304 → call_room l ≤ 9441280
room_bound l h = omega arith

commitment_bound :
    (env : Environment) (l : Limits) (i : Invocation)
    → Fits env l i
    → l.max_response_bytes ≤ 4194304
    → active_payload_commitment env i ≤ call_room l
unfolding active_payload_commitment response_storage_commitment response_storage_bound
commitment_bound env l i f h =
    let a = f.request_fits in
    let b = f.response_fits in let c = f.no_result in let d = f.no_late_result in ground arith

-- A product grows with its first factor.
mul_grows : (a k c : ℕ) → a * c ≤ (a + k) * c
mul_grows a k c = omega arith

mul_mono : (a b c : ℕ) → a ≤ b → a * c ≤ b * c
mul_mono a b c h =
    subst (λ x. a * c ≤ x * c) {x = a + (b - a)} (omega arith) (mul_grows a (b - a) c)

-- Many commitments of at most `r` do not wrap around, while their bound does not.
sum_bound :
    (env : Environment) (l : Limits) (r : ℕ) (is : List Invocation)
    → All (λ i. active_payload_commitment env i ≤ r) is
    → length is * r < u64_mod
    → sum64 (map (active_payload_commitment env) is) ≤ length is * r
sum_bound env l r [] h b = omega arith
sum_bound env l r (i ∷ is) h b =
    let x : length is * r + r ≡ length (i ∷ is) * r = omega arith in
    let rest = sum_bound env l r is h.1 (omega arith) in let a = h.0 in omega arith

All-Fits :
    (env : Environment) (l : Limits) (is : List Invocation)
    → l.max_response_bytes ≤ 4194304
    → All (Fits env l) is
    → All (λ i. active_payload_commitment env i ≤ call_room l) is
All-Fits env l [] h f = tt
All-Fits env l (i ∷ is) h f = (commitment_bound env l i f.0 h, All-Fits env l is h f.1)

-- The room, computed without saturation or wrap-around.
capacity_value :
    (l : Limits)
    → l.max_pending ≤ 1024
    → l.max_dispatch_workers ≤ 64
    → l.max_response_bytes ≤ 4194304
    → active_payload_capacity l ≡ l.max_pending * call_room l + l.max_dispatch_workers * 65536
unfolding active_payload_capacity response_storage_bound
capacity_value l p w h =
    let a : l.max_pending * call_room l ≤ 1024 * call_room l =
      mul_mono l.max_pending 1024 (call_room l) p in
    let b = room_bound l h in
    let inner : saturating_add api_request_body_bytes
          (saturating_add (saturating_mul l.max_response_bytes 2) 4096)
        ≡ call_room l =
      ground arith in
    ground (arith, inner)

-- The calls that wait or run.
abbrev pub pending_calls : Document → List Invocation
pending_calls s = keep (λ i. is_pending i.state) (values s.invocations)

-- Under validated limits the check of the capacity passes, provided that at most `max_pending` calls
-- wait or run; that each of these has a request of at most 1 MiB (task and payload together), a
-- response bound of at most `max_response_bytes`, and no result yet; and that the document is shorter
-- than its limit by the 64 KiB kept for a completion. Calls of speech, whose bound is fixed, and calls
-- whose task and payload together exceed 1 MiB may not meet these conditions.
pub check_capacity-total :
    (env : Environment) (l : Limits) (s : Document) (n : ℕ)
    → validate l ≡ ok tt
    → length (pending_calls s) ≤ l.max_pending
    → All (Fits env l) (pending_calls s)
    → env.document_length s ≡ ok n
    → n + 65536 ≤ l.retention_admission_bytes
    → check_capacity env l s ≡ ok tt
unfolding check_capacity
check_capacity-total env l s n v count fits len room =
    let (p, one, w, h) = validated_ranges l v in
    let c = capacity_value l p w h in
    let b = room_bound l h in
    let m = mul_mono l.max_pending 1024 (call_room l) p in
    let k = mul_mono (length (pending_calls s)) l.max_pending (call_room l) count in
    let sum =
      sum_bound env l (call_room l) (pending_calls s) (All-Fits env l (pending_calls s) h fits)
        (omega arith) in
    ground arith
