-- ===== src/Runtime/Idle/Eligibility.antt =====
-- What `eligible` of crates/rack_ai_runtime/src/idle.rs says of a demand and of its peers.
use rack_ai.Common.{
  ℕ, ◌≤◌, ◌-◌, Bool, true, false, not, ◌||◌, some, List, ◌∷◌, [], ◌≡◌, ◌≢◌, refl, arith, ◌⊎◌, inl,
  inr, ◌==◌, nat_eq, any, any-member, member, member-tail, Bool-cases, Option-cases, ok, unwrap_or,
  is_some_and, Outcome-cases,
}
use rack_ai.Common.Map.{lookup}
use rack_ai.Runtime.Types.{Document, Demand}
use rack_ai.Runtime.Types.Enums.{
  DemandState, Backend, Driver, demand_state_eq, backend_eq, driver_eq,
}
use rack_ai.Runtime.Service.{owned, inflight}
use rack_ai.Runtime.Reservation.{members}
use rack_ai.Runtime.Idle.{
  eligible, last_activity, ready_or_preparing, due, runs_workspace, member_active, group_active,
  native_peer, native_barrier_pending,
}

-- A member that has been released, or has seen no activity for the whole period and runs nothing.
abbrev pub Resting : Document → ℕ → ℕ → ℕ → Demand → Type 0
Resting s seconds at id peer =
    (peer.released ≡ true)
    ⊎ ((seconds ≤ at - unwrap_or peer.last_activity_at peer.created)
        × (inflight s id ≡ false)
        × (runs_workspace s id ≡ false))

-- No media backend of the member may still be in use.
abbrev pub NoMedia : Demand → Type 0
NoMedia peer =
    (peer.released ≡ true)
    ⊎ ((peer.profile.backend ≢ Backend.comfyui)
        ⊎ ((peer.profile.driver ≡ Driver.fixture)
            ⊎ ((peer.state ≢ DemandState.ready) × (peer.state ≢ DemandState.preparing))))

-- What makes a demand end for lack of use.
pub record Unused (s : Document) (seconds at : ℕ) (d : Demand) : Type 0 where
  pub not_released : d.released ≡ false
  pub in_use : (d.state ≡ DemandState.ready) ⊎ (d.state ≡ DemandState.preparing)
  pub elapsed : seconds ≤ at - unwrap_or d.last_activity_at d.created
  pub ids : List ℕ
  pub same_members : members s d ≡ ok ids
  pub resting :
      (id : ℕ)
      → member id ids ≡ true
      → (peer : Demand) × (owned s d.owner id ≡ ok peer) × Resting s seconds at id peer
  pub no_media :
      (id : ℕ) (peer : Demand)
      → member id ids ≡ true
      → lookup id s.demands ≡ some peer
      → NoMedia peer
  pub no_own_media : (d.profile.backend ≢ Backend.comfyui) ⊎ (d.profile.driver ≡ Driver.fixture)

any-none :
    (p : ℕ → Bool) (xs : List ℕ) → ((x : ℕ) → member x xs ≡ true → p x ≡ false) → any p xs ≡ false
any-none p [] h = refl
any-none p (x ∷ xs) h =
    ground (arith, h x (ground arith), any-none p xs (λ y m. h y (member-tail y x xs m)))

any-never :
    (p : ℕ → Bool) (xs : List ℕ) (x : ℕ) → any p xs ≡ false → member x xs ≡ true → p x ≡ false
any-never p xs x h m = elim (Bool-cases (p x)) [
  | inl e ↦ absurd (ground (arith, any-member p xs x m e))
  | inr e ↦ e
]

ready_or_preparing_lem :
    (x : DemandState)
    → ready_or_preparing x ≡ true
    → (x ≡ DemandState.ready) ⊎ (x ≡ DemandState.preparing)
unfolding ready_or_preparing
ready_or_preparing_lem x h = elim (Bool-cases (x == DemandState.ready)) [
  | inl e ↦ inl (ground arith)
  | inr e ↦ elim (Bool-cases (x == DemandState.preparing)) [
    | inl f ↦ inr (ground arith)
    | inr f ↦ absurd (ground arith)
  ]
]

in_neither :
    (x : DemandState)
    → ready_or_preparing x ≡ false
    → (x ≢ DemandState.ready) × (x ≢ DemandState.preparing)
unfolding ready_or_preparing
in_neither x h = ((λ e. cc), λ e. cc)

native_peer-NoMedia : (peer : Demand) → native_peer peer ≡ false → NoMedia peer
unfolding native_peer
native_peer-NoMedia peer h = elim (Bool-cases peer.released) [
  | inl e ↦ inl e
  | inr e ↦ elim (Bool-cases (peer.profile.backend == Backend.comfyui)) [
    | inr f ↦ inr (inl (λ q. absurd (ground arith)))
    | inl f ↦ elim (Bool-cases (peer.profile.driver == Driver.fixture)) [
      | inl g ↦ inr (inr (inl (ground arith)))
      | inr g ↦ inr (inr (inr (in_neither peer.state (ground arith))))
    ]
  ]
]

NoMedia-native_peer : (peer : Demand) → NoMedia peer → native_peer peer ≡ false
unfolding native_peer
NoMedia-native_peer peer (inl e) = ground arith
NoMedia-native_peer peer (inr (inl f)) =
    elim (Bool-cases (peer.profile.backend == Backend.comfyui)) [
      | inl e ↦ absurd (f (ground arith))
      | inr e ↦ ground arith
    ]
NoMedia-native_peer peer (inr (inr (inl g))) = ground arith
NoMedia-native_peer peer (inr (inr (inr (a, b)))) =
    elim (Bool-cases (ready_or_preparing peer.state)) [
      | inl e ↦ absurd (elim (ready_or_preparing_lem peer.state e) [ inl q ↦ a q | inr q ↦ b q ])
      | inr e ↦ ground arith
    ]

member_active-Resting :
    (s : Document) (owner seconds at id : ℕ)
    → member_active s owner seconds at id ≡ false
    → (peer : Demand) × (owned s owner id ≡ ok peer) × Resting s seconds at id peer
unfolding member_active last_activity
member_active-Resting s owner seconds at id h = elim (Outcome-cases (owned s owner id)) [
  | inl (e, q) ↦ absurd (ground arith)
  | inr (peer, q) ↦ (
    peer,
    q,
    elim (Bool-cases peer.released) [
      | inl e ↦ inl e
      | inr e ↦ inr (ground arith, ground arith, ground arith)
    ],
  )
]

Resting-member_active :
    (s : Document) (owner seconds at id : ℕ) (peer : Demand)
    → owned s owner id ≡ ok peer
    → Resting s seconds at id peer
    → member_active s owner seconds at id ≡ false
unfolding member_active last_activity
Resting-member_active s owner seconds at id peer e (inl h) = ground arith
Resting-member_active s owner seconds at id peer e (inr (a, b, c)) = ground arith

-- The members, where neither barrier holds the demand back.
unbarred :
    (s : Document) (seconds at : ℕ) (d : Demand)
    → group_active s d seconds at ≡ false
    → native_barrier_pending s d ≡ false
    → (ids : List ℕ) × (members s d ≡ ok ids)
      × (any (member_active s d.owner seconds at) ids ≡ false)
      × (any (λ id. is_some_and (lookup id s.demands) native_peer) ids ≡ false)
unfolding group_active native_barrier_pending
unbarred s seconds at d h k = elim (Outcome-cases (members s d)) [
  | inl (e, q) ↦ absurd (ground arith)
  | inr (ids, q) ↦ (ids, q, ground arith, ground arith)
]

pub eligible-Unused :
    (s : Document) (seconds at : ℕ) (d : Demand)
    → eligible s seconds at d ≡ true
    → Unused s seconds at d
unfolding eligible due last_activity
eligible-Unused s seconds at d h =
    let u = unbarred s seconds at d (ground arith) (ground arith) in
    record {
      not_released = ground arith;
      in_use = ready_or_preparing_lem d.state (ground arith);
      elapsed = ground arith;
      ids = u.0;
      same_members = u.1;
      resting = λ id m.
          member_active-Resting s d.owner seconds at id
            (any-never (member_active s d.owner seconds at) u.0 id u.2 m);
      no_media = λ id peer m e.
          let q = any-never (λ id. is_some_and (lookup id s.demands) native_peer) u.0 id u.3 m in
          native_peer-NoMedia peer (ground arith);
      no_own_media = elim (Bool-cases (d.profile.backend == Backend.comfyui)) [
        | inl e ↦ inr (ground arith)
        | inr e ↦ inl (λ q. absurd (ground arith))
      ];
    }

pub Unused-eligible :
    (s : Document) (seconds at : ℕ) (d : Demand)
    → Unused s seconds at d
    → eligible s seconds at d ≡ true
unfolding eligible due last_activity group_active native_barrier_pending ready_or_preparing
Unused-eligible s seconds at d u =
    let quiet : any (member_active s d.owner seconds at) u.ids ≡ false =
      any-none (member_active s d.owner seconds at) u.ids (λ id m.
        let r = u.resting id m in Resting-member_active s d.owner seconds at id r.0 r.1 r.2) in
    let clear : any (λ id. is_some_and (lookup id s.demands) native_peer) u.ids ≡ false =
      any-none (λ id. is_some_and (lookup id s.demands) native_peer) u.ids
        (λ id m. elim (Option-cases (lookup id s.demands)) [
          | inl e ↦ rw e refl
          | inr (peer, e) ↦ rw e (NoMedia-native_peer peer (u.no_media id peer m e))
        ]) in
    let group : group_active s d seconds at ≡ false = rw (group_active, u.same_members) quiet in
    let barrier : native_barrier_pending s d ≡ false =
      rw (native_barrier_pending, u.same_members) clear in
    let own : (not (d.profile.backend == Backend.comfyui) || d.profile.driver == Driver.fixture)
        ≡ true =
      elim u.no_own_media [
        | inl n ↦ elim (Bool-cases (d.profile.backend == Backend.comfyui)) [
          | inl e ↦ absurd (n (ground arith))
          | inr e ↦ ground arith
        ]
        | inr e ↦ ground arith
      ] in
    let stage : ready_or_preparing d.state ≡ true = elim u.in_use [
      | inl e ↦ ground arith
      | inr e ↦ ground arith
    ] in
    let old = u.not_released in let long = u.elapsed in ground arith
