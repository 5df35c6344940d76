-- ===== src/Runtime/Reservation/Publication.antt =====
-- A reservation of several services becomes ready as a whole.
use rack_ai.Common.{
  ℕ, ◌<◌, true, false, is_none, not, ◌&&◌, some, List, ◌∷◌, [], ◌≡◌, arith, inl, inr, ◌⊎◌,
  if◌then◌else◌, nat_eq, member, all-member, is_some_and, ok, >>=-eq-ok, ok-injective, Option-cases,
  branch, sym,
}
use mathlib.Core.Option
use rack_ai.Common.Map.{lookup, modify, lookup-modify}
use rack_ai.Runtime.Types.{Document, Demand, Map}
use rack_ai.Runtime.Types.Enums.{DemandState, demand_state_eq}
use rack_ai.Runtime.Service.{active, owns}
use rack_ai.Runtime.Service.Holding.{Holds, owns-Holds, active_lem}
use rack_ai.Runtime.Reservation.{
  root, members, may_commit, may_commit_all, publish, publish_all, publish_members, is_atomic,
  commit_members, commit_ready,
}

publish-publish : (d : Demand) → publish (publish d) ≡ publish d
unfolding publish
publish-publish d = ground arith

lookup-publish_all :
    (ids : List ℕ) (m : Map Demand) (j : ℕ) {n : Map Demand}
    → publish_all ids m ≡ ok n
    → lookup j n ≡ (if member j ids then Option.map publish (lookup j m) else lookup j m)
unfolding publish_all
lookup-publish_all [] m j h = ground arith
lookup-publish_all (id ∷ ids) m j {n} h = elim (Option-cases (lookup id m)) [
  | inl x ↦ absurd (ground arith)
  | inr (c, x) ↦
      let k : publish_all ids (modify id publish m) ≡ ok n = ground arith in
      elim (Option-cases (lookup j m)) [
        | inl y ↦
            ground (
              arith,
              lookup-publish_all ids (modify id publish m) j k,
              lookup-modify j id publish m,
            )
        | inr (d, y) ↦ ground (
          arith,
          lookup-publish_all ids (modify id publish m) j k,
          lookup-modify j id publish m,
          publish-publish d,
        )
      ]
]

-- The member was preparing with a backend that has a process and was found ready, had neither been
-- released nor elapsed, and held the claim of each of its resources; now it is ready.
pub record Committed (at : ℕ) (s t : Document) (j : ℕ) : Type 0 where
  pub before : Demand
  pub stored : lookup j s.demands ≡ some before
  pub was_preparing : before.state ≡ DemandState.preparing
  pub was_checked : before.ready_checked ≡ true
  pub had_process : is_none before.process ≡ false
  pub not_released : before.released ≡ false
  pub not_elapsed : at < before.deadline
  pub holding : Holds s.claims before
  pub is_ready : lookup j t.demands ≡ some (record before { state = DemandState.ready })

-- What lets a member become ready.
record Committable (at : ℕ) (s : Document) (m : Demand) : Type 0 where
  was_preparing : m.state ≡ DemandState.preparing
  was_checked : m.ready_checked ≡ true
  had_process : is_none m.process ≡ false
  was_active : active at m ≡ true
  owning : owns s m ≡ true

may_commit_lem :
    (at : ℕ) (s : Document) (m : Demand) → may_commit at s m ≡ true → Committable at s m
unfolding may_commit
may_commit_lem at s m h = record {
  was_preparing = ground arith;
  was_checked = ground arith;
  had_process = ground arith;
  was_active = ground arith;
  owning = ground arith;
}

committed-publish :
    (at : ℕ) (s : Document) (m : Demand)
    → may_commit at s m ≡ true
    → publish m ≡ record m { state = DemandState.ready }
unfolding may_commit publish
committed-publish at s m h = ground arith

publish_members-Committed :
    (at : ℕ) (s : Document) (ids : List ℕ) (j : ℕ) {t : Document}
    → may_commit_all at s ids ≡ true
    → publish_members s ids ≡ ok t
    → member j ids ≡ true
    → Committed at s t j
unfolding publish_members may_commit_all
publish_members-Committed at s ids j {t} may h k =
    let (n, hn, h1) = >>=-eq-ok (publish_all ids s.demands) _ h in
    let p : t.demands ≡ n = let q = ok-injective h1 in ground arith in
    let l = lookup-publish_all ids s.demands j hn in
    let c = all-member (λ id. is_some_and (lookup id s.demands) (may_commit at s)) ids j may k in
    elim (Option-cases (lookup j s.demands)) [
      | inl e ↦ absurd (ground arith)
      | inr (m, e) ↦
          let y : may_commit at s m ≡ true = ground arith in
          let z = committed-publish at s m y in
          let c = may_commit_lem at s m y in
          let a = active_lem at m c.was_active in
          record {
            before = m;
            stored = e;
            was_preparing = c.was_preparing;
            was_checked = c.was_checked;
            had_process = c.had_process;
            not_released = a.0;
            not_elapsed = a.1;
            holding = owns-Holds s m c.owning;
            is_ready = ground arith;
          }
    ]

-- The commit of a reservation of several services is all or nothing: the document stays as it is,
-- or every member was preparing with a process and a backend found ready, was neither released nor
-- elapsed, held the claim of each of its resources, and is ready afterwards.
pub commit_ready-atomic :
    (at : ℕ) (s : Document) (d r : Demand) (ids : List ℕ) {t : Document}
    → commit_ready at s d ≡ ok t
    → root s d ≡ ok r
    → members s r ≡ ok ids
    → is_atomic r ≡ true
    → (t ≡ s) ⊎ ((j : ℕ) → member j ids ≡ true → Committed at s t j)
unfolding commit_ready commit_members
commit_ready-atomic at s d r ids {t} h hr hm atomic =
    let h1 : commit_members at s r ids ≡ ok t = ground arith in
    branch (is_atomic r && not (may_commit_all at s ids)) (ok s) (publish_members s ids) h1
      (λ b e. inl (sym (ok-injective e)))
      (λ b e. inr (λ j. publish_members-Committed at s ids j (ground arith) e))
