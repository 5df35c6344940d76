-- ===== src/Runtime/Admission/Again.antt =====
-- An acquisition that comes again.
use rack_ai.Common.{
  ℕ, Bool, true, not, ◌&&◌, some, none, List, ◌∷◌, [], ◌≡◌, ◌≢◌, refl, arith, inl, inr, ◌==◌,
  nat_eq, option_eq, list_eq, bool_eq, find, length, ok, ok_or, ◌>>=◌, >>=-eq-ok, ok-injective,
  subst, Option-cases, Bool-cases, Outcome, branch, sym,
}
use rack_ai.Common.Map.{lookup, insert, modify, values}
use rack_ai.Runtime.Types.{Document, Demand, Acquire, Map}
use rack_ai.Runtime.Types.Enums.{
  DemandState, Priority, Capability, capability_eq, priority_eq, demand_state_eq,
}
use rack_ai.Runtime.Types.Messages.{Failure, Message}
use rack_ai.Runtime.Config.{Environment, Limits, Config, Source}
use rack_ai.Runtime.Planner.{Fresh, fence, fence_victims, displace, refusal, conflicts}
use rack_ai.Runtime.Planner.Fence.{fence_parts}
use rack_ai.Runtime.Capacity.{retention, check_capacity}
use rack_ai.Runtime.Capacity.Compaction.{compact_terminal_requests, compact_terminal_payloads}
use rack_ai.Runtime.Admission.{
  Identities, validate_request, new_demand, prepare, eligibility, make_unavailable, acquire_beq,
  previous, remembered, admit, decide, acquire_in, acquire,
}
use rack_ai.Runtime.Admission.Decisions.{decision_material, owner_materials, purge_decisions}

find-insert :
    (p : Demand → Bool) (k : ℕ) (v : Demand) (m : Map Demand)
    → find p (values m) ≡ none
    → p v ≡ true
    → find p (values (insert k v m)) ≡ some v
unfolding values insert
find-insert p k v [] h e = ground arith
find-insert p k v ((j, w) ∷ m) h e = ground (arith, find-insert p k v m)

find-modify :
    (p : Demand → Bool) (k : ℕ) (f : Demand → Demand) (m : Map Demand)
    → ((d : Demand) → p (f d) ≡ p d)
    → find p (values m) ≡ none
    → find p (values (modify k f m)) ≡ none
unfolding values modify
find-modify p k f [] same h = refl
find-modify p k f ((j, w) ∷ m) same h = ground (arith, find-modify p k f m same, same w)

find-fence_victims :
    (p : Demand → Bool) (at by : ℕ) (q : Priority) (ids : List ℕ) (m : Map Demand) {n : Map Demand}
    → ((d : Demand) → p (displace at by d) ≡ p d)
    → fence_victims at by q ids m ≡ ok n
    → find p (values m) ≡ none
    → find p (values n) ≡ none
unfolding fence_victims
find-fence_victims p at by q [] m same h e =
    subst (λ (x : Map Demand). find p (values x) ≡ none) (ok-injective h) e
find-fence_victims p at by q (id ∷ ids) m {n} same h e = elim (Option-cases (lookup id m)) [
  | inl x ↦ absurd (ground arith)
  | inr (v, x) ↦
      find-fence_victims p at by q ids (modify id (displace at by) m) same (ground arith)
        (find-modify p id (displace at by) m same e)
]

-- The demands that answer a source's acquisition.
abbrev pub is_previous : Source → Acquire → Demand → Bool
is_previous source request d =
    d.owner == source.source && d.request.acquisition_id == request.acquisition_id

retention-demands :
    (env : Environment) (l : Limits) (s : Document) {t : Document}
    → retention env l s ≡ ok t
    → t.demands ≡ s.demands
unfolding retention
retention-demands env l s h =
    let (m, hm, h1) = >>=-eq-ok (compact_terminal_requests env s.invocations) _ h in
    let (n, hn, h2) = >>=-eq-ok (compact_terminal_payloads env _ m) _ h1 in
    let (u, hu, h3) = >>=-eq-ok (check_capacity env l (record s { invocations = n })) _ h2 in
    let e = ok-injective h3 in ground arith

displace-is_previous :
    (source : Source) (request : Acquire) (at by : ℕ) (d : Demand)
    → is_previous source request (displace at by d) ≡ is_previous source request d
unfolding displace
displace-is_previous source request at by d = refl

prepared :
    (at : ℕ) (env : Environment) (config : Config) (source : Source) (ids : Identities)
    (request : Acquire) (order : ℕ) {d : Demand}
    → prepare at env config source ids request order ≡ ok d
    → (d.owner ≡ source.source) × (d.request ≡ request)
unfolding prepare new_demand
prepared at env config source ids request order {d} h =
    let (u, hu, h1) = >>=-eq-ok (validate_request env request config.max_ttl_seconds) _ h in
    branch (request.qualification && not source.qualification) _ _ h1 (λ b e. absurd (ground arith))
      (λ b e.
        let (p, hp, e1) =
          >>=-eq-ok (ok_or (find (λ p. p.tag == request.tag) config.profiles) Failure.unknown_tag) _
            e in
        let (hash, hh, e2) = >>=-eq-ok (env.profile_digest p) _ e1 in
        let (id, hid, e3) = >>=-eq-ok ids.id _ e2 in
        let (g, hg, e4) = >>=-eq-ok ids.generation _ e3 in
        let (k, hk, e5) = >>=-eq-ok ids.access_key _ e4 in
        let q = ok-injective e5 in (ground arith, ground arith))

-- The document answers the acquisition with that demand.
abbrev pub Answers : Source → Acquire → Document → Demand → Type 0
Answers source request t d =
    (find (is_previous source request) (values t.demands) ≡ some d) × (d.request ≡ request)

admit-Answers :
    (at : ℕ) (env : Environment) (config : Config) (source : Source) (request : Acquire)
    (fresh : Fresh) (s : Document) (d : Demand) {r : Document × Demand}
    → admit at env config fresh s d ≡ ok r
    → d.owner ≡ source.source
    → d.request ≡ request
    → find (is_previous source request) (values s.demands) ≡ none
    → Answers source request r.0 r.1
unfolding admit
admit-Answers at env config source request fresh s d {r} h owner same none_before =
    let p = is_previous source request in
    let (f, hf, h1) = >>=-eq-ok (fence at fresh s d) _ h in
    let (demands, claims, hd, hc, e, b) = fence_parts at fresh s d hf in
    let t : Document = record (f.0) { demands = insert (f.1).id f.1 (f.0).demands } in
    let (u, hu, h2) = >>=-eq-ok (retention env config.limits t) _ h1 in
    let same_request = b.same_request in
    let same_owner = b.same_owner in
    let before : find p (values (f.0).demands) ≡ none =
      subst (λ (x : Document). find p (values x.demands) ≡ none) (sym e)
        (find-fence_victims p at d.id d.priority (conflicts s d) s.demands
          (λ c. displace-is_previous source request at d.id c) hd none_before) in
    let mine : p f.1 ≡ true = ground arith in
    let found : find p (values u.demands) ≡ some f.1 =
      subst (λ (x : Map Demand). find p (values x) ≡ some f.1)
        (sym (retention-demands env config.limits t hu))
        (find-insert p (f.1).id f.1 (f.0).demands before mine) in
    subst (λ (x : Document × Demand). Answers source request x.0 x.1) (ok-injective h2)
      (found, ground arith)

acquire_beq_refl : (a : Acquire) → acquire_beq a a ≡ true
unfolding acquire_beq
acquire_beq_refl a =
    let c = (list_eq {A = Capability}).beq_iff a.capabilities a.capabilities in
    let o = (option_eq {A = Priority}).beq_iff a.priority a.priority in
    let b = bool_eq.beq_iff a.qualification a.qualification in ground arith

decide-Answers :
    (at : ℕ) (env : Environment) (config : Config) (source : Source) (request : Acquire)
    (fresh : Fresh) (legacy : Outcome ℕ (List ℕ)) (s : Document) (d : Demand)
    {r : Document × Demand}
    → decide at env config source fresh legacy s d ≡ ok r
    → (r.1).state ≢ DemandState.unavailable
    → d.owner ≡ source.source
    → d.request ≡ request
    → find (is_previous source request) (values s.demands) ≡ none
    → Answers source request r.0 r.1
unfolding decide purge_decisions make_unavailable
decide-Answers at env config source request fresh legacy s d {r} h kept owner same before =
    let (key, hk, h1) = >>=-eq-ok (env.decision_digest (decision_material source.source d)) _ h in
    let (environment, he, h2) =
      >>=-eq-ok (env.owners_digest (owner_materials s d.profile.resources)) _ h1 in
    let purged = purge_decisions at s in
    elim (Option-cases (remembered at source key environment purged)) [
      | inr (decision, e) ↦ absurd (kept (ground arith))
      | inl e ↦ elim (Option-cases (refusal config.host_capacity_mib legacy purged d)) [
        | inr (reason, f) ↦ absurd (kept (ground arith))
        | inl f ↦
            admit-Answers at env config source request fresh purged d {r = r} (ground arith) owner
              same before
      ]
    ]

acquire_in-Answers :
    (at : ℕ) (env : Environment) (config : Config) (source : Source) (ids : Identities)
    (legacy : Outcome ℕ (List ℕ)) (s : Document) (request : Acquire) {r : Document × Demand}
    → acquire_in at env config source ids legacy s request ≡ ok r
    → (r.1).state ≢ DemandState.unavailable
    → (previous source request r.0 ≡ some r.1) × (acquire_beq (r.1).request request ≡ true)
unfolding acquire_in previous make_unavailable
acquire_in-Answers at env config source ids legacy s request {r} h kept =
    elim (Option-cases (find (is_previous source request) (values s.demands))) [
      | inr (d, e) ↦ elim (Bool-cases (acquire_beq d.request request)) [
        | inl q ↦
            subst
              (λ (x : Document × Demand).
                (find (is_previous source request) (values (x.0).demands) ≡ some x.1)
                × (acquire_beq (x.1).request request ≡ true))
              {x = (s, d)} {y = r} (ground arith) (e, q)
        | inr q ↦ absurd (ground arith)
      ]
      | inl e ↦
          let (d, hd, h1) =
            >>=-eq-ok (prepare at env config source ids request (length s.demands)) _ (
              let k : (prepare at env config source ids request (length s.demands) >>= λ d.
              elim (eligibility d) [
                | some reason ↦
                    ok (s, make_unavailable at env source d (Message.failure reason) none)
                | none ↦ decide at env config source ids.fence legacy s d
              ])
                  ≡ ok r =
                ground arith in
              k) in
          let facts = prepared at env config source ids request (length s.demands) hd in
          elim (Option-cases (eligibility d)) [
            | inr (reason, f) ↦ absurd (kept (ground arith))
            | inl f ↦
                let a =
                  decide-Answers at env config source request ids.fence legacy s d {r = r}
                    (ground arith) kept facts.0 facts.1 e in
                (a.0, rw (a.1) (acquire_beq_refl request))
          ]
    ]

answered :
    (at : ℕ) (env : Environment) (config : Config) (source : Source) (ids : Identities)
    (legacy : Outcome ℕ (List ℕ)) (s : Document) (request : Acquire) (d : Demand)
    → previous source request s ≡ some d
    → acquire_beq d.request request ≡ true
    → acquire_in at env config source ids legacy s request ≡ ok (s, d)
unfolding acquire_in
answered at env config source ids legacy s request d p q = ground arith

-- An acquisition that was granted may be sent again, under any clock and for as long as the stored
-- demands are the same, whatever has become of claims, calls and the rest: the answer is the demand as
-- it is stored, and the document stays as it is.
pub acquire-again :
    (at later : ℕ) (env : Environment) (config : Config) (source : Source) (ids other : Identities)
    (legacy unused : Outcome ℕ (List ℕ)) (s t : Document) (request : Acquire)
    {r : Document × Demand}
    → acquire at env config source ids legacy s request ≡ ok r
    → (r.1).state ≢ DemandState.unavailable
    → t.demands ≡ (r.0).demands
    → acquire later env config source other unused t request ≡ ok (t, r.1)
unfolding acquire previous
acquire-again at later env config source ids other legacy unused s t request {r} h kept same =
    branch (not (request.source_system == source.source)) _ _ h (λ b e. absurd (ground arith))
      (λ b e.
        let (p, q) = acquire_in-Answers at env config source ids legacy s request e kept in
        let found : previous source request t ≡ some r.1 =
          subst (λ m. find (is_previous source request) (values m) ≡ some r.1) (sym same) p in
        rw b (answered later env config source other unused t request r.1 found q))
