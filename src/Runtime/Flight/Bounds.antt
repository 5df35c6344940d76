-- ===== src/Runtime/Flight/Bounds.antt =====
-- Bounding what is retained puts no call into flight: crates/rack_ai_runtime/src/capacity.rs.
use rack_ai.Common.{
  ℕ, ◌-◌, true, false, Option, some, none, List, ◌∷◌, [], ◌≡◌, refl, arith, inl, inr, if◌then◌else◌,
  ◌==◌, nat_eq, leb, ok, ◌>>=◌, ok_or, ok_or-eq-ok, >>=-eq-ok, ok-injective, subst, Bool-cases,
  branch, sym, ◌∙◌, sum64, sort_by, map,
}
use rack_ai.Common.Map.{lookup, insert, lookup-insert}
use rack_ai.Runtime.Types.{Document, Invocation, Work, Map, Result}
use rack_ai.Runtime.Types.Messages.{Failure}
use rack_ai.Runtime.Config.{Environment, Limits}
use rack_ai.Runtime.Service.{is_workspace, is_running_or_uncertain}
use rack_ai.Runtime.Capacity.{retention, check_capacity}
use rack_ai.Runtime.Capacity.Compaction.{
  compact_request, keep_work, compact_terminal_request, compact_terminal_requests, is_terminal,
  Entry, drop_result, drop_late_result, drop_payloads, drop_oldest, compact_terminal_payloads,
  payload_entries,
}
use rack_ai.Runtime.Flight.{in_flight, Calmer, Calmer-refl, Calmer-trans}

-- The call keeps its reservation, and is in flight only if it was.
abbrev pub Lands : Invocation → Invocation → Type 0
Lands i j =
    (j.request.reservation_id ≡ i.request.reservation_id)
    × (in_flight j ≡ true → in_flight i ≡ true)

terminal-grounded : (i : Invocation) → is_terminal i.state ≡ true → in_flight i ≡ false
unfolding is_terminal in_flight is_workspace is_running_or_uncertain
terminal-grounded i h = ground arith

-- What the digest of the work changes is neither the request nor the state.
keep_work-same :
    (env : Environment) (w : Option Work) (i : Invocation) {j : Invocation}
    → keep_work env w i ≡ ok j
    → (j.request ≡ i.request) × (j.state ≡ i.state)
unfolding keep_work
keep_work-same env none i h = let e = ok-injective h in (ground arith, ground arith)
keep_work-same env (some w) i h =
    let (b, hb, h1) = >>=-eq-ok (env.work_length w) _ h in
    let e = ok-injective h1 in (ground arith, ground arith)

compacted-Lands :
    (env : Environment) (i : Invocation) {j : Invocation}
    → is_terminal i.state ≡ true
    → compact_terminal_request env i ≡ ok j
    → Lands i j
unfolding compact_terminal_request compact_request is_terminal in_flight is_workspace
    is_running_or_uncertain
compacted-Lands env i {j} t h =
    let (original, ho, h1) = >>=-eq-ok (env.request_length i.request) _ h in
    let (compacted, hc, h2) = >>=-eq-ok (env.request_length (compact_request i.request)) _ h1 in
    branch (leb original compacted) _ _ h2
      (λ b e. let q = ok-injective e in (ground arith, λ f. ground arith))
      (λ b e.
        let (k, hk, e1) = >>=-eq-ok (keep_work env i.request.work _) _ e in
        let same = keep_work-same env i.request.work _ hk in
        let q = ok-injective e1 in (ground arith, λ f. absurd (ground arith)))

-- Each call after the compaction is there before it.
requests-Calmer :
    (env : Environment) (m : Map Invocation) {n : Map Invocation}
    → compact_terminal_requests env m ≡ ok n
    → Calmer m n
unfolding compact_terminal_requests lookup
requests-Calmer env [] h x b e = let q = ok-injective h in absurd (ground arith)
requests-Calmer env ((id, i) ∷ m) {n} h x b e =
    let (j, hj, h1) =
      >>=-eq-ok (if is_terminal i.state then compact_terminal_request env i else ok i) _ h in
    let (m', hm, h2) = >>=-eq-ok (compact_terminal_requests env m) _ h1 in
    let q : ◌≡◌ {A = Map Invocation} ((id, j) ∷ m') n = ok-injective h2 in
    let e' : lookup x ((id, j) ∷ m') ≡ some b =
      subst (λ (t : Map Invocation). lookup x t ≡ some b) (sym q) e in
    let l : Lands i j =
      branch (is_terminal i.state) _ _ hj (λ t c. compacted-Lands env i t c)
        (λ t c. subst (Lands i) (ok-injective c) (refl, λ f. f)) in
    elim (Bool-cases (x == id)) [
      | inl hit ↦
          let p : j ≡ b = ground arith in let k = subst (Lands i) p l in (i, ground arith, k.0, k.1)
      | inr miss ↦
          let (a, ea, ra, fa) = requests-Calmer env m hm x b (ground arith) in
          (a, ground arith, ra, fa)
    ]

module _ (env : Environment) (total : ℕ) (i : Invocation) where
  dropped_result :
      (o : Option ℕ) {r : ℕ × Invocation}
      → (elim o as (λ _. Result (ℕ × Invocation)) [
        | none ↦ ok (total, i)
        | some v ↦ env.value_length v >>= λ bytes.
            ok
              (total - bytes, record i { result = none; result_digest = some (env.value_digest v) })
      ])
        ≡ ok r
      → Lands i r.1
  unfolding in_flight is_workspace
  dropped_result none h =
      subst (λ (t : ℕ × Invocation). Lands i t.1) (ok-injective h) (refl, λ f. f)
  dropped_result (some v) h =
      let (bytes, hb, h1) = >>=-eq-ok (env.value_length v) _ h in
      subst (λ (t : ℕ × Invocation). Lands i t.1) (ok-injective h1) (refl, λ f. f)

  dropped_late_result :
      (o : Option ℕ) {r : ℕ × Invocation}
      → (elim o as (λ _. Result (ℕ × Invocation)) [
        | none ↦ ok (total, i)
        | some v ↦ env.value_length v >>= λ bytes. ok (
          total - bytes,
          record i { late_result = none; late_result_digest = some (env.value_digest v) },
        )
      ])
        ≡ ok r
      → Lands i r.1
  unfolding in_flight is_workspace
  dropped_late_result none h =
      subst (λ (t : ℕ × Invocation). Lands i t.1) (ok-injective h) (refl, λ f. f)
  dropped_late_result (some v) h =
      let (bytes, hb, h1) = >>=-eq-ok (env.value_length v) _ h in
      subst (λ (t : ℕ × Invocation). Lands i t.1) (ok-injective h1) (refl, λ f. f)

  drop_result-Lands : {r : ℕ × Invocation} → drop_result env total i ≡ ok r → Lands i r.1
  unfolding drop_result
  drop_result-Lands h = dropped_result i.result h

  drop_late_result-Lands : {r : ℕ × Invocation} → drop_late_result env total i ≡ ok r → Lands i r.1
  unfolding drop_late_result
  drop_late_result-Lands h = dropped_late_result i.late_result h

drop_payloads-Lands :
    (env : Environment) (limit total : ℕ) (i : Invocation) {r : ℕ × Invocation}
    → drop_payloads env limit total i ≡ ok r
    → Lands i r.1
unfolding drop_payloads
drop_payloads-Lands env limit total i {r} h =
    let (q, hq, h1) = >>=-eq-ok (drop_result env total i) _ h in
    let l = drop_result-Lands env total i hq in
    branch (leb q.0 limit) (ok q) (drop_late_result env q.0 q.1) h1
      (λ b e. subst (λ (t : ℕ × Invocation). Lands i t.1) (ok-injective e) l)
      (λ b e. let k = drop_late_result-Lands env q.0 q.1 e in (k.0 ∙ l.0, λ f. l.1 (k.1 f)))

-- A stored call gives way to one that lands.
insert-Calmer :
    (k : ℕ) (i j : Invocation) (m : Map Invocation)
    → lookup k m ≡ some i
    → Lands i j
    → Calmer m (insert k j m)
insert-Calmer k i j m stored l x b e = elim (Bool-cases (x == k)) [
  | inl hit ↦
      let q : j ≡ b = ground (arith, lookup-insert x k j m) in
      let n = subst (Lands i) q l in let p : lookup x m ≡ some i = ground arith in (i, p, n.0, n.1)
  | inr miss ↦ (b, ground (arith, lookup-insert x k j m), refl, λ f. f)
]

oldest-Calmer :
    (env : Environment) (limit total : ℕ) (es : List Entry) (m : Map Invocation)
    {r : ℕ × Map Invocation}
    → drop_oldest env limit total es m ≡ ok r
    → Calmer m r.1
unfolding drop_oldest
oldest-Calmer env limit total [] m h =
    subst (λ (t : ℕ × Map Invocation). Calmer m t.1) (ok-injective h) (Calmer-refl m)
oldest-Calmer env limit total (e ∷ es) m {r} h = elim (Bool-cases (leb total limit)) [
  | inl done ↦
      subst (λ (t : ℕ × Map Invocation). Calmer m t.1) {x = (total, m)} {y = r} (ground arith)
        (Calmer-refl m)
  | inr more ↦
      let h' : (ok_or (lookup e.id m) Failure.missing_invocation >>= λ i.
      drop_payloads env limit total i >>= λ q. drop_oldest env limit q.0 es (insert e.id q.1 m))
          ≡ ok r =
        ground arith in
      let (i, hi, h1) = >>=-eq-ok (ok_or (lookup e.id m) Failure.missing_invocation) _ h' in
      let (q, hq, h2) = >>=-eq-ok (drop_payloads env limit total i) _ h1 in
      Calmer-trans m (insert e.id q.1 m) r.1
        (insert-Calmer e.id i q.1 m (ok_or-eq-ok (lookup e.id m) Failure.missing_invocation hi)
          (drop_payloads-Lands env limit total i hq))
        (oldest-Calmer env limit q.0 es (insert e.id q.1 m) h2)
]

payloads-Calmer :
    (env : Environment) (limit : ℕ) (m : Map Invocation) {n : Map Invocation}
    → compact_terminal_payloads env limit m ≡ ok n
    → Calmer m n
unfolding compact_terminal_payloads
payloads-Calmer env limit m h =
    let (es, he, h1) = >>=-eq-ok (payload_entries env m) _ h in
    let total = sum64 (map (λ e. e.bytes) es) in
    let sorted = sort_by (λ e. (e.started, e.id)) es in
    branch (leb total limit) (ok m) (drop_oldest env limit total sorted m >>= λ r. ok r.1) h1
      (λ b e. subst (Calmer m) (ok-injective e) (Calmer-refl m))
      (λ b e.
        let (r, hr, e1) = >>=-eq-ok (drop_oldest env limit total sorted m) _ e in
        subst (Calmer m) (ok-injective e1) (oldest-Calmer env limit total sorted m hr))

pub retention-Calmer :
    (env : Environment) (l : Limits) (s : Document) {s' : Document}
    → retention env l s ≡ ok s'
    → Calmer s.invocations s'.invocations
unfolding retention
retention-Calmer env l s {s'} h =
    let (m, hm, h1) = >>=-eq-ok (compact_terminal_requests env s.invocations) _ h in
    let (n, hn, h2) = >>=-eq-ok (compact_terminal_payloads env _ m) _ h1 in
    let (u, hu, h3) = >>=-eq-ok (check_capacity env l (record s { invocations = n })) _ h2 in
    subst (λ (t : Document). Calmer s.invocations t.invocations) (ok-injective h3)
      (Calmer-trans s.invocations m n (requests-Calmer env s.invocations hm)
        (payloads-Calmer env _ m hn))
