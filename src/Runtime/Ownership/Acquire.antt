-- ===== src/Runtime/Ownership/Acquire.antt =====
-- An acquisition keeps the invariant, whatever it answers.
use rack_ai.Common.{
  ℕ, not, ◌&&◌, some, none, List, ◌≡◌, refl, arith, inl, inr, ◌==◌, nat_eq, ok, ok_or, ◌>>=◌,
  >>=-eq-ok, subst, Option-cases, Outcome, branch, length, find,
}
use rack_ai.Common.Map.{lookup}
use rack_ai.Runtime.Types.{Document, Demand, Acquire}
use rack_ai.Runtime.Types.Messages.{Failure, Message}
use rack_ai.Runtime.Config.{Environment, Config, Source}
use rack_ai.Runtime.Planner.{Fresh, refusal}
use rack_ai.Runtime.Admission.{
  Identities, prepare, new_demand, validate_request, eligibility, previous, remembered, remember,
  decide, acquire_in, acquire, make_unavailable,
}
use rack_ai.Runtime.Admission.Decisions.{
  purge_decisions, decision_material, owner_materials, decision_cache_seconds,
}
use rack_ai.Runtime.Ownership.{Owned, same-Owned}
use rack_ai.Runtime.Ownership.Calls.{admit-Owned}

purge_decisions-Owned : (at : ℕ) (s : Document) → Owned s → Owned (purge_decisions at s)
unfolding purge_decisions
purge_decisions-Owned at s o = same-Owned refl refl o

remember-Owned :
    (at : ℕ) (source : Source) (key environment : ℕ) (reason : Failure) (s : Document)
    → Owned s
    → Owned (remember at source key environment reason s)
unfolding remember
remember-Owned at source key environment reason s o = same-Owned refl refl o

decide-Owned :
    (at : ℕ) (env : Environment) (config : Config) (source : Source) (fresh : Fresh)
    (legacy : Outcome ℕ (List ℕ)) (s : Document) (d : Demand) {r : Document × Demand}
    → decide at env config source fresh legacy s d ≡ ok r
    → lookup d.id s.demands ≡ none
    → Owned s
    → Owned r.0
unfolding decide purge_decisions
decide-Owned at env config source fresh legacy s d {r} h new o =
    let (key, hk, h1) = >>=-eq-ok (env.decision_digest (decision_material source.source d)) _ h in
    let (environment, he, h2) =
      >>=-eq-ok (env.owners_digest (owner_materials s d.profile.resources)) _ h1 in
    let purged = purge_decisions at s in
    let op = purge_decisions-Owned at s o in
    elim (Option-cases (remembered at source key environment purged)) [
      | inr (decision, e) ↦
          subst (λ (t : Document × Demand). Owned t.0)
            {x = (
              purged,
              make_unavailable at env source d decision.reason (some decision.retry_after),
            )}
            {y = r} (ground arith) op
      | inl e ↦ elim (Option-cases (refusal config.host_capacity_mib legacy purged d)) [
        | inr (reason, f) ↦
            subst (λ (t : Document × Demand). Owned t.0)
              {x = (
                remember at source key environment reason purged,
                make_unavailable at env source d (Message.failure reason)
                    (some decision_cache_seconds),
              )}
              {y = r} (ground arith) (remember-Owned at source key environment reason purged op)
        | inl f ↦ admit-Owned at env config fresh purged d {r = r} (ground arith) new op
      ]
    ]

-- The identifier of a prepared demand is the one that was drawn.
prepare_id :
    (at : ℕ) (env : Environment) (config : Config) (source : Source) (ids : Identities)
    (request : Acquire) (order : ℕ) {d : Demand}
    → prepare at env config source ids request order ≡ ok d
    → ids.id ≡ ok d.id
unfolding prepare new_demand
prepare_id at env config source ids request order {d} h =
    let (u, hu, h1) = >>=-eq-ok (validate_request env request config.max_ttl_seconds) _ h in
    branch (request.qualification && not source.qualification) _ _ h1 (λ b e. absurd (ground arith))
      (λ b e.
        let (p, hp, e1) =
          >>=-eq-ok (ok_or (find (λ p. p.tag == request.tag) config.profiles) Failure.unknown_tag) _
            e in
        let (hash, hh, e2) = >>=-eq-ok (env.profile_digest p) _ e1 in
        let (id, hid, e3) = >>=-eq-ok ids.id _ e2 in
        let (g, hg, e4) = >>=-eq-ok ids.generation _ e3 in
        let (k, hk, e5) = >>=-eq-ok ids.access_key _ e4 in ground arith)

pub acquire-Owned :
    (at : ℕ) (env : Environment) (config : Config) (source : Source) (ids : Identities)
    (legacy : Outcome ℕ (List ℕ)) (s : Document) (request : Acquire) {r : Document × Demand}
    → acquire at env config source ids legacy s request ≡ ok r
    → ((id : ℕ) → ids.id ≡ ok id → lookup id s.demands ≡ none)
    → Owned s
    → Owned r.0
unfolding acquire acquire_in
acquire-Owned at env config source ids legacy s request {r} h new o =
    elim (Option-cases (previous source request s)) [
      | inr (d, e) ↦
          subst (λ (t : Document × Demand). Owned t.0) {x = (s, d)} {y = r} (ground arith) o
      | inl e ↦
          let (d, hd, h1) =
            >>=-eq-ok (prepare at env config source ids request (length s.demands)) _ (
              let k : (prepare at env config source ids request (length s.demands) >>= λ d.
              elim (eligibility d) [
                | some reason ↦
                    ok (s, make_unavailable at env source d (Message.failure reason) none)
                | none ↦ decide at env config source ids.fence legacy s d
              ])
                  ≡ ok r =
                ground arith in
              k) in
          elim (Option-cases (eligibility d)) [
            | inr (reason, f) ↦
                subst (λ (t : Document × Demand). Owned t.0)
                  {x = (s, make_unavailable at env source d (Message.failure reason) none)} {y = r}
                  (ground arith) o
            | inl f ↦
                decide-Owned at env config source ids.fence legacy s d {r = r} (ground arith)
                  (new d.id (prepare_id at env config source ids request (length s.demands) hd)) o
          ]
    ]
