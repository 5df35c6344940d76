-- ===== src/Runtime/Capacity/Compaction.antt =====
-- Terminal requests and payloads give way to their digests: `compact_terminal_requests` and
-- `compact_terminal_payloads` of crates/rack_ai_runtime/src/capacity.rs.
use rack_ai.Common.{
  ℕ, ◌-◌, Bool, true, false, Option, some, none, List, ◌∷◌, [], map, leb, if◌then◌else◌,
  get_or_insert, unwrap_or, add64, sum64, sort_by, ok, ◌>>=◌, ok_or,
}
use rack_ai.Common.Map.{lookup, insert}
use rack_ai.Runtime.Types.{Invocation, Inference, Work, WorkPayload, Map, Result}
use rack_ai.Runtime.Types.Enums.{InvocationState}
use rack_ai.Runtime.Types.Messages.{Failure}
use rack_ai.Runtime.Config.{Environment}

-- Work whose outcome is known: neither waiting, nor running, nor uncertain.
unfoldable pub is_terminal : InvocationState → Bool
is_terminal InvocationState.queued = false
is_terminal InvocationState.running = false
is_terminal InvocationState.uncertain = false
is_terminal _ = true

unfoldable pub compact_payload : WorkPayload → WorkPayload
compact_payload (WorkPayload.inference_payload prompt m t) = WorkPayload.inference_payload [] m t
compact_payload (WorkPayload.workspace_payload w) =
    WorkPayload.workspace_payload (record w { objective = [] })

unfoldable pub compact_work : Option Work → Option Work
unfolding compact_payload
compact_work none = none
compact_work (some w) = some (record w { payload = compact_payload w.payload })

unfoldable pub compact_request : Inference → Inference
unfolding compact_work
compact_request r = record r { prompt = []; payload = none; work = compact_work r.work }

-- The digest and the length of the work, where there is one.
unfoldable pub keep_work : Environment → Option Work → Invocation → Result Invocation
keep_work env none i = ok i
keep_work env (some w) i = do
  bytes ← env.work_length w
  ok (record i {
    work_digest = get_or_insert i.work_digest (env.work_digest w);
    work_bytes = get_or_insert i.work_bytes bytes;
  })

unfoldable pub compact_terminal_request : Environment → Invocation → Result Invocation
unfolding compact_request keep_work
compact_terminal_request env i = do
  original ← env.request_length i.request
  compacted ← env.request_length (compact_request i.request)
  if leb original compacted
      then ok i
      else (keep_work env i.request.work (record i {
        request_digest = get_or_insert i.request_digest (env.request_digest i.request);
        request_bytes = get_or_insert i.request_bytes original;
      })
          >>= λ j. ok (record j { request = compact_request i.request }))

unfoldable pub compact_terminal_requests : Environment → Map Invocation → Result (Map Invocation)
unfolding compact_terminal_request is_terminal
compact_terminal_requests env [] = ok []
compact_terminal_requests env ((id, i) ∷ m) = do
  j ← if is_terminal i.state then compact_terminal_request env i else ok i
  m' ← compact_terminal_requests env m
  ok ((id, j) ∷ m')

pub record Entry : Type 0 where
  pub started : ℕ
  pub id : ℕ
  pub bytes : ℕ

abbrev pub value_bytes : Environment → Option ℕ → Result ℕ
value_bytes env none = ok 0
value_bytes env (some v) = env.value_length v

unfoldable pub payload_entries : Environment → Map Invocation → Result (List Entry)
unfolding is_terminal
payload_entries env [] = ok []
payload_entries env ((id, i) ∷ m) =
    let rest = payload_entries env m in
    if is_terminal i.state
    then (do
      result ← value_bytes env i.result
      late ← value_bytes env i.late_result
      es ← rest
      ok (record { started = unwrap_or i.started 0; id = id; bytes = add64 result late } ∷ es))
    else rest

-- The result of a call gives way to its digest, then its late result; the total falls with them.
unfoldable pub drop_result : Environment → ℕ → Invocation → Result (ℕ × Invocation)
drop_result env total i = elim i.result [
  | none ↦ ok (total, i)
  | some v ↦ do
    bytes ← env.value_length v
    ok (total - bytes, record i { result = none; result_digest = some (env.value_digest v) })
]

unfoldable pub drop_late_result : Environment → ℕ → Invocation → Result (ℕ × Invocation)
drop_late_result env total i = elim i.late_result [
  | none ↦ ok (total, i)
  | some v ↦ do
    bytes ← env.value_length v
    ok (
      total - bytes,
      record i { late_result = none; late_result_digest = some (env.value_digest v) },
    )
]

unfoldable pub drop_payloads : Environment → ℕ → ℕ → Invocation → Result (ℕ × Invocation)
unfolding drop_result drop_late_result
drop_payloads env limit total i = do
  r ← drop_result env total i
  if leb r.0 limit then ok r else drop_late_result env r.0 r.1

unfoldable pub drop_oldest :
    Environment → ℕ → ℕ → List Entry → Map Invocation → Result (ℕ × Map Invocation)
unfolding drop_payloads
drop_oldest env limit total [] m = ok (total, m)
drop_oldest env limit total (e ∷ es) m = elim (leb total limit) [
  | true ↦ ok (total, m)
  | false ↦ do
    i ← ok_or (lookup e.id m) Failure.missing_invocation
    r ← drop_payloads env limit total i
    drop_oldest env limit r.0 es (insert e.id r.1 m)
]

unfoldable pub compact_terminal_payloads :
    Environment → ℕ → Map Invocation → Result (Map Invocation)
unfolding payload_entries drop_oldest
compact_terminal_payloads env limit m = do
  entries ← payload_entries env m
  let total = sum64 (map (λ e. e.bytes) entries)
  if leb total limit
      then ok m
      else (drop_oldest env limit total (sort_by (λ e. (e.started, e.id)) entries) m >>= λ r.
          ok r.1)
