-- ===== src/Runtime/Flight/Calls.antt =====
-- Control, recovery and acquisition put no call into flight.
use rack_ai.Common.{
  ℕ, true, false, not, ◌&&◌, some, none, List, ◌∷◌, [], ◌≡◌, arith, inl, inr, ◌==◌, nat_eq, ok,
  ◌>>=◌, >>=-eq-ok, ok-injective, subst, Bool-cases, Option-cases, branch, Outcome, length, is_none,
  is_some_and,
}
use rack_ai.Common.Map.{lookup, insert, modify}
use rack_ai.Runtime.Types.{Document, Demand, Invocation, Acquire}
use rack_ai.Runtime.Types.Enums.{DemandState, demand_state_eq}
use rack_ai.Runtime.Types.Messages.{Message}
use rack_ai.Runtime.Config.{Environment, Config, Source}
use rack_ai.Runtime.Service.{owned, recover}
use rack_ai.Runtime.Planner.{
  fence, Fresh, refusal, conflicts, fence_victims, fence_claims, begin_preparation,
}
use rack_ai.Runtime.Reservation.{root, members}
use rack_ai.Runtime.Capacity.{retention}
use rack_ai.Runtime.Control.{
  Action, apply, perform, renewed, apply_members, mark_closed, reservation_control, is_renew,
  cancel_invocation,
}
use rack_ai.Runtime.Invocations.{cancel}
use rack_ai.Runtime.Admission.{
  Identities, admit, decide, acquire, acquire_in, prepare, previous, remembered, remember,
  make_unavailable, eligibility,
}
use rack_ai.Runtime.Admission.Decisions.{
  decision_material, owner_materials, purge_decisions, decision_cache_seconds,
}
use rack_ai.Runtime.Flight.{Calmer, Calmer-refl, Calmer-trans, modify-Calmer}
use rack_ai.Runtime.Flight.Steps.{
  cancel-Calm, cancel_closed-Calmer, close_calls-Calmer, recover_all-Calmer, supersede-Calmer,
}
use rack_ai.Runtime.Flight.Bounds.{retention-Calmer}

-- No call of the second document was put into flight by the step from the first.
abbrev pub Quiet : Document → Document → Type 0
Quiet s t = Calmer s.invocations t.invocations

perform-Quiet :
    (at max_ttl : ℕ) (s : Document) (id : ℕ) (d : Demand) (action : Action) {r : Document × Demand}
    → perform at max_ttl s id d action ≡ ok r
    → Quiet s r.0
unfolding perform
perform-Quiet at max_ttl s id d (Action.renew ttl) h =
    let (d', hd, h1) = >>=-eq-ok (renewed at max_ttl ttl d) _ h in
    subst (λ (t : Document × Demand). Quiet s t.0) (ok-injective h1) (Calmer-refl s.invocations)
perform-Quiet at max_ttl s id d Action.release h =
    subst (λ (t : Document × Demand). Quiet s t.0) (ok-injective h)
      (close_calls-Calmer at false id s.invocations)
perform-Quiet at max_ttl s id d Action.cancel_all h =
    subst (λ (t : Document × Demand). Quiet s t.0) (ok-injective h)
      (close_calls-Calmer at true id s.invocations)

pub apply-Quiet :
    (at max_ttl : ℕ) (s : Document) (owner id generation : ℕ) (action : Action)
    {r : Document × Demand}
    → apply at max_ttl s owner id generation action ≡ ok r
    → Quiet s r.0
unfolding apply
apply-Quiet at max_ttl s owner id generation action {r} h =
    let (d, hd, h1) = >>=-eq-ok (owned s owner id) _ h in
    let P = λ (t : Document × Demand). Quiet s t.0 in
    let still : Quiet s s = Calmer-refl s.invocations in
    elim (Bool-cases (d.state == DemandState.unavailable)) [
      | inl u ↦ subst P {x = (s, d)} {y = r} (ground arith) still
      | inr u ↦ elim (Bool-cases (not (d.generation == generation))) [
        | inl g ↦ absurd (ground arith)
        | inr g ↦
            elim (Bool-cases (not (is_none d.recovery_reconciliation) && not (is_renew action))) [
              | inl k ↦ subst P {x = (s, d)} {y = r} (ground arith) still
              | inr k ↦ perform-Quiet at max_ttl s id d action {r = r} (ground arith)
            ]
      ]
    ]

apply_members-Quiet :
    (at max_ttl : ℕ) (s : Document) (owner : ℕ) (action : Action) (ids : List ℕ) {t : Document}
    → apply_members at max_ttl s owner action ids ≡ ok t
    → Quiet s t
unfolding apply_members
apply_members-Quiet at max_ttl s owner action [] h =
    subst (Quiet s) (ok-injective h) (Calmer-refl s.invocations)
apply_members-Quiet at max_ttl s owner action (id ∷ ids) {t} h =
    let (d, hd, h1) = >>=-eq-ok (owned s owner id) _ h in
    let (r, hr, h2) = >>=-eq-ok (apply at max_ttl s owner id d.generation action) _ h1 in
    Calmer-trans s.invocations (r.0).invocations t.invocations
      (apply-Quiet at max_ttl s owner id d.generation action hr)
      (apply_members-Quiet at max_ttl r.0 owner action ids h2)

mark_closed-same :
    (action : Action) (id : ℕ) (s : Document)
    → (mark_closed action id s).invocations ≡ s.invocations
unfolding mark_closed
mark_closed-same action id s = ground arith

pub reservation_control-Quiet :
    (at ms max_ttl : ℕ) (s : Document) (owner id : ℕ) (action : Action) {t : Document}
    → reservation_control at ms max_ttl s owner id action ≡ ok t
    → Quiet s t
unfolding reservation_control
reservation_control-Quiet at ms max_ttl s owner id action {t} h =
    let (d, hd, h1) = >>=-eq-ok (owned s owner id) _ h in
    let (r, hr, h2) = >>=-eq-ok (root s d) _ h1 in
    let (ids, hi, h3) = >>=-eq-ok (members s d) _ h2 in
    let marked = mark_closed action r.id s in
    let (u, hu, h4) = >>=-eq-ok (apply_members at max_ttl marked owner action ids) _ h3 in
    let q : Quiet s u =
      subst (λ m. Calmer m u.invocations) (mark_closed-same action r.id s)
        (apply_members-Quiet at max_ttl marked owner action ids hu) in
    subst (Quiet s) (ok-injective h4)
      (Calmer-trans s.invocations u.invocations _ q (cancel_closed-Calmer at ms u))

pub cancel_invocation-Quiet :
    (at ms : ℕ) (s : Document) (owner id : ℕ) {r : Document × Invocation}
    → cancel_invocation at ms s owner id ≡ ok r
    → Quiet s r.0
unfolding cancel_invocation
cancel_invocation-Quiet at ms s owner id {r} h = elim (Option-cases (lookup id s.invocations)) [
  | inl n ↦ absurd (ground arith)
  | inr (i, n) ↦
      branch (i.owner == owner) _ _ (rw (cancel_invocation, n) at h)
        (λ b e.
          let cancelled : Document = record s {
            invocations = modify id (cancel at) s.invocations;
          } in
          subst (λ (t : Document × Invocation). Quiet s t.0) (ok-injective e)
            (Calmer-trans s.invocations cancelled.invocations _
              (modify-Calmer id (cancel at) s.invocations (cancel-Calm at))
              (cancel_closed-Calmer at ms cancelled)))
        (λ b e. absurd (ground arith))
]

pub recover-Quiet :
    (placement port : ℕ) (s : Document) {t : Document} → recover placement port s ≡ ok t → Quiet s t
unfolding recover
recover-Quiet placement port s h =
    branch (is_some_and s.placement_hash (λ hash. not (hash == placement))) _ _ h
      (λ b e. absurd (ground arith))
      (λ b e. subst (Quiet s) (ok-injective e) (recover_all-Calmer s.invocations))

pub fence-Quiet :
    (at : ℕ) (fresh : Fresh) (s : Document) (d : Demand) {r : Document × Demand}
    → fence at fresh s d ≡ ok r
    → Quiet s r.0
unfolding fence
fence-Quiet at fresh s d h =
    let vs = conflicts s d in
    let (demands, hd, h1) = >>=-eq-ok (fence_victims at d.id d.priority vs s.demands) _ h in
    let (claims, hc, h2) = >>=-eq-ok (fence_claims vs d.id d.profile.resources s.claims) _ h1 in
    let (d', hp, h3) = >>=-eq-ok (begin_preparation at fresh _ (record d { victims = vs })) _ h2 in
    subst (λ (t : Document × Demand). Quiet s t.0) (ok-injective h3)
      (supersede-Calmer at vs s.invocations)

admit-Quiet :
    (at : ℕ) (env : Environment) (config : Config) (fresh : Fresh) (s : Document) (d : Demand)
    {r : Document × Demand}
    → admit at env config fresh s d ≡ ok r
    → Quiet s r.0
unfolding admit
admit-Quiet at env config fresh s d {r} h =
    let (f, hf, h1) = >>=-eq-ok (fence at fresh s d) _ h in
    let t : Document = record (f.0) { demands = insert (f.1).id f.1 (f.0).demands } in
    let (u, hu, h2) = >>=-eq-ok (retention env config.limits t) _ h1 in
    subst (λ (t : Document × Demand). Quiet s t.0) (ok-injective h2)
      (Calmer-trans s.invocations (f.0).invocations u.invocations (fence-Quiet at fresh s d hf)
        (retention-Calmer env config.limits t hu))

decide-Quiet :
    (at : ℕ) (env : Environment) (config : Config) (source : Source) (fresh : Fresh)
    (legacy : Outcome ℕ (List ℕ)) (s : Document) (d : Demand) {r : Document × Demand}
    → decide at env config source fresh legacy s d ≡ ok r
    → Quiet s r.0
unfolding decide purge_decisions remember
decide-Quiet at env config source fresh legacy s d {r} h =
    let (key, hk, h1) = >>=-eq-ok (env.decision_digest (decision_material source.source d)) _ h in
    let (environment, he, h2) =
      >>=-eq-ok (env.owners_digest (owner_materials s d.profile.resources)) _ h1 in
    let purged = purge_decisions at s in
    let P = λ (t : Document × Demand). Quiet s t.0 in
    elim (Option-cases (remembered at source key environment purged)) [
      | inr (decision, e) ↦
          subst P
            {x = (
              purged,
              make_unavailable at env source d decision.reason (some decision.retry_after),
            )}
            {y = r} (ground arith) (Calmer-refl s.invocations)
      | inl e ↦ elim (Option-cases (refusal config.host_capacity_mib legacy purged d)) [
        | inr (reason, f) ↦
            subst P
              {x = (
                remember at source key environment reason purged,
                make_unavailable at env source d (Message.failure reason)
                    (some decision_cache_seconds),
              )}
              {y = r} (ground arith) (Calmer-refl s.invocations)
        | inl f ↦ admit-Quiet at env config fresh purged d {r = r} (ground arith)
      ]
    ]

pub acquire-Quiet :
    (at : ℕ) (env : Environment) (config : Config) (source : Source) (ids : Identities)
    (legacy : Outcome ℕ (List ℕ)) (s : Document) (request : Acquire) {r : Document × Demand}
    → acquire at env config source ids legacy s request ≡ ok r
    → Quiet s r.0
unfolding acquire acquire_in
acquire-Quiet at env config source ids legacy s request {r} h =
    let P = λ (t : Document × Demand). Quiet s t.0 in
    elim (Option-cases (previous source request s)) [
      | inr (d, e) ↦ subst P {x = (s, d)} {y = r} (ground arith) (Calmer-refl s.invocations)
      | inl e ↦
          let (d, hd, h1) =
            >>=-eq-ok (prepare at env config source ids request (length s.demands)) _ (
              let k : (prepare at env config source ids request (length s.demands) >>= λ d.
              elim (eligibility d) [
                | some reason ↦
                    ok (s, make_unavailable at env source d (Message.failure reason) none)
                | none ↦ decide at env config source ids.fence legacy s d
              ])
                  ≡ ok r =
                ground arith in
              k) in
          elim (Option-cases (eligibility d)) [
            | inr (reason, f) ↦
                subst P {x = (s, make_unavailable at env source d (Message.failure reason) none)}
                  {y = r} (ground arith) (Calmer-refl s.invocations)
            | inl f ↦ decide-Quiet at env config source ids.fence legacy s d {r = r} (ground arith)
          ]
    ]
