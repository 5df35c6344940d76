-- ===== src/Runtime/Submission/Earlier.antt =====
-- Which calls answer a submission that comes again.
use rack_ai.Common.{
  ℕ, Bool, true, false, not, ◌||◌, Option, some, none, List, ◌∷◌, [], ◌≡◌, refl, sym, ap, ◌∙◌,
  subst, ◌⊎◌, inl, inr, arith, if◌then◌else◌, ◌==◌, nat_eq, option_eq, list_eq, find, ok, >>=-eq-ok,
  ok-injective, Bool-cases, Option-cases, branch,
}
use rack_ai.Common.Map.{values}
use rack_ai.Runtime.Types.{Document, Demand, Invocation, Inference, Work}
use rack_ai.Runtime.Config.{Environment}
use rack_ai.Runtime.Service.{owned, active}
use rack_ai.Runtime.Reservation.{select}
use rack_ai.Runtime.Submission.Replay.{
  request_matches, work_matches, find_work, find_submission, Archive,
  archived_identity_lookup_needed, answer, selected_service, archived_work, replayed_work, retry_of,
  replayed_submission, replayed,
}
use rack_ai.Runtime.Submission.Matching.{
  SameRequest, SameWork, request_matches-SameRequest, work_matches-SameWork,
}

-- The call is one of the list.
abbrev pub Among : Invocation → List Invocation → Type 0
Among i [] = ⊥
Among i (c ∷ cs) = (c ≡ i) ⊎ Among i cs

find-Among :
    (p : Invocation → Bool) (cs : List Invocation) {i : Invocation}
    → find p cs ≡ some i
    → Among i cs × (p i ≡ true)
find-Among p [] h = absurd (ground arith)
find-Among p (c ∷ cs) {i} h = elim (Bool-cases (p c)) [
  | inl e ↦ let q : c ≡ i = ground arith in (inl q, ground arith)
  | inr e ↦ let r = find-Among p cs {i = i} (ground arith) in (inr r.0, r.1)
]

-- The call that answers was accepted before: it is the owner's, stored in the document or kept by the
-- archive of ended reservations, and was made for the same work, or for the same request under the
-- same reservation and submission. A request that comes under another generation than the call's must
-- come under the current one of an active reservation.
pub data Earlier (at : ℕ) (env : Environment) (archive : Archive) (s : Document) (owner : ℕ)
    (request : Inference) (i : Invocation) : Type 0 where
  stored_work :
      (w v : Work)
      → request.work ≡ some w
      → Among i (values s.invocations)
      → i.owner ≡ owner
      → i.request.work ≡ some v
      → v.work_id ≡ w.work_id
      → SameWork env i w
      → Earlier at env archive s owner request i
  kept_work :
      (w : Work)
      → request.work ≡ some w
      → archive.lookup_work owner w.work_id ≡ ok (some i)
      → SameWork env i w
      → Earlier at env archive s owner request i
  stored_submission :
      Among i (values s.invocations)
      → i.owner ≡ owner
      → i.request.reservation_id ≡ request.reservation_id
      → i.request.submission_id ≡ request.submission_id
      → SameRequest env i (record request { generation = i.request.generation })
      → (request.generation ≡ i.request.generation)
        ⊎ ((d : Demand) × (owned s owner request.reservation_id ≡ ok d)
            × (active at d ≡ true)
            × (d.generation ≡ request.generation))
      → Earlier at env archive s owner request i
  kept_submission :
      archive.lookup_submission owner request.reservation_id request.submission_id ≡ ok (some i)
      → SameRequest env i request
      → Earlier at env archive s owner request i

answer_lem :
    (b : Bool) (c : Invocation) {i : Invocation} → answer b c ≡ ok (some i) → (b ≡ true) × (c ≡ i)
unfolding answer
answer_lem true c h = (refl, ground arith)
answer_lem false c h = absurd (ground arith)

find_work_lem :
    (s : Document) (owner id : ℕ) {i : Invocation}
    → find_work s owner id ≡ some i
    → Among i (values s.invocations)
      × (i.owner ≡ owner)
      × ((v : Work) × (i.request.work ≡ some v) × (v.work_id ≡ id))
unfolding find_work
find_work_lem s owner id {i} h =
    let f = find-Among _ (values s.invocations) h in
    let holds = f.1 in
    (
      f.0,
      ground arith,
      elim (Option-cases i.request.work) [
        | inl e ↦ absurd (ground arith)
        | inr (v, e) ↦ (v, e, ground arith)
      ],
    )

archived_work_lem :
    (env : Environment) (archive : Archive) (needed : Bool) (owner : ℕ) (w : Work) {i : Invocation}
    → archived_work env archive needed owner w ≡ ok (some i)
    → (archive.lookup_work owner w.work_id ≡ ok (some i)) × SameWork env i w
unfolding archived_work
archived_work_lem env archive needed owner w {i} h =
    let (found, hf, h1) =
      >>=-eq-ok (if needed then archive.lookup_work owner w.work_id else ok none) _ h in
    elim (Option-cases found) [
      | inl e ↦ absurd (ground arith)
      | inr (c, e) ↦
          let a = answer_lem (work_matches env c w) c {i = i} (ground arith) in
          let source = a.1 in
          let match = work_matches-SameWork env i w (ground arith) in
          elim (Bool-cases needed) [ inl n ↦ (ground arith, match) | inr n ↦ absurd (ground arith) ]
    ]

module _ (at : ℕ) (env : Environment) (archive : Archive) (s : Document) (owner : ℕ)
    (request : Inference) where
  selected_service_lem :
      (w : Work) {i : Invocation}
      → selected_service s owner request w ≡ ok (some i)
      → Earlier at env archive s owner request i
  unfolding selected_service
  selected_service_lem w {i} h =
      let (d, hd, h1) = >>=-eq-ok (select s owner w.reservation_id w.service) _ h in
      branch (not (d.id == request.reservation_id)) _ _ h1 (λ b e. absurd (ground arith))
        (λ b e. absurd (ground arith))

  replayed_work-Earlier :
      (needed : Bool) (o : Option Work) {i : Invocation}
      → request.work ≡ o
      → replayed_work env archive needed s owner request o ≡ ok (some i)
      → Earlier at env archive s owner request i
  unfolding replayed_work selected_service
  replayed_work-Earlier needed none e h = absurd (ground arith)
  replayed_work-Earlier needed (some w) {i} e h =
      elim (Option-cases (find_work s owner w.work_id)) [
        | inr (c, q) ↦
            let a = answer_lem (work_matches env c w) c {i = i} (ground arith) in
            let source = a.1 in
            let (among, own, (v, has, same)) =
              find_work_lem s owner w.work_id {i = i} (ground arith) in
            stored_work w v e among own has same (work_matches-SameWork env i w (ground arith))
        | inl q ↦
            let (found, hf, h1) =
              >>=-eq-ok (archived_work env archive needed owner w)
                (λ found. elim found [
                  | some i ↦ ok (some i)
                  | none ↦ selected_service s owner request w
                ])
                {r = some i} (ground arith) in
            elim (Option-cases found) [
              | inr (c, x) ↦
                  let k = archived_work_lem env archive needed owner w {i = i} (ground arith) in
                  kept_work w e k.0 k.1
              | inl x ↦ selected_service_lem w {i = i} (ground arith)
            ]
      ]

  retry_of_lem :
      (i : Invocation) {retry : Inference}
      → retry_of at s owner i request ≡ ok retry
      → (retry ≡ record request { generation = i.request.generation })
        × ((request.generation ≡ i.request.generation)
            ⊎ ((d : Demand) × (owned s owner request.reservation_id ≡ ok d)
                × (active at d ≡ true)
                × (d.generation ≡ request.generation)))
  unfolding retry_of
  retry_of_lem i {retry} h =
      branch (not (request.generation == i.request.generation)) _ _ h
        (λ b e.
          let (d, hd, e1) = >>=-eq-ok (owned s owner request.reservation_id) _ e in
          branch (not (active at d) || not (d.generation == request.generation)) _ _ e1
            (λ c f. absurd (ground arith))
            (λ c f. (sym (ok-injective f), inr (d, hd, ground arith, ground arith))))
        (λ b e.
          let same : request.generation ≡ i.request.generation = ground arith in
          let q = ok-injective e in
          (sym q ∙ ap (λ g. record request { generation = g }) same, inl same))

  replayed_submission-Earlier :
      (needed : Bool) {i : Invocation}
      → replayed_submission at env archive needed s owner request ≡ ok (some i)
      → Earlier at env archive s owner request i
  unfolding replayed_submission find_submission
  replayed_submission-Earlier needed {i} h = elim (Option-cases (find_submission s owner request)) [
    | inr (c, q) ↦
        let (retry, hr, h1) =
          >>=-eq-ok (retry_of at s owner c request)
            (λ retry. answer (request_matches env c retry) c) {r = some i} (ground arith) in
        let a = answer_lem (request_matches env c retry) c {i = i} h1 in
        let f = find-Among _ (values s.invocations) q in
        let holds = f.1 in
        let same = request_matches-SameRequest env c retry a.0 in
        let r = retry_of_lem c hr in
        subst (Earlier at env archive s owner request) a.1 (
          stored_submission f.0 (ground arith) (ground arith) (ground arith)
            (subst (SameRequest env c) r.0 same) r.1)
    | inl q ↦
        let (found, hf, h1) =
          >>=-eq-ok
            (if needed
              then archive.lookup_submission owner request.reservation_id request.submission_id
              else ok none)
            (λ found. elim found [
              | some i ↦ answer (request_matches env i request) i
              | none ↦ ok none
            ])
            {r = some i} (ground arith) in
        elim (Option-cases found) [
          | inl e ↦ absurd (ground arith)
          | inr (c, e) ↦
              let a = answer_lem (request_matches env c request) c {i = i} (ground arith) in
              let source = a.1 in
              let same = request_matches-SameRequest env i request (ground arith) in
              elim (Bool-cases needed) [
                | inl n ↦ kept_submission (ground arith) same
                | inr n ↦ absurd (ground arith)
              ]
        ]
  ]

  pub replayed-Earlier :
      {i : Invocation}
      → replayed at env archive s owner request ≡ ok (some i)
      → Earlier at env archive s owner request i
  unfolding replayed
  replayed-Earlier {i} h =
      let needed = archived_identity_lookup_needed at s owner request in
      let (found, hf, h1) =
        >>=-eq-ok (replayed_work env archive needed s owner request request.work) _ h in
      elim (Option-cases found) [
        | inr (c, e) ↦ replayed_work-Earlier needed request.work {i = i} refl (ground arith)
        | inl e ↦ replayed_submission-Earlier needed {i = i} (ground arith)
      ]
