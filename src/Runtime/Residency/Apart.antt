-- ===== src/Runtime/Residency/Apart.antt =====
-- No two warm backends share a resource.
use rack_ai.Common.{
  ℕ, Bool, true, false, not, ◌&&◌, some, ◌∷◌, [], ◌≡◌, refl, subst, ◌∙◌, ◌==◌, nat_eq, any, member,
  ok, ok_or, >>=-eq-ok, ok-injective, ok_or-eq-ok, branch, arith, inl, inr, Bool-cases,
  Option-cases, any-member, is_some_and,
}
use rack_ai.Common.Map.{
  lookup, insert, modify, remove, values, lookup-insert, lookup-modify, lookup-remove, any-values,
}
use rack_ai.Runtime.Types.{Document, Demand, Process, WarmResidency, Map}
use rack_ai.Runtime.Types.Enums.{warm_state_eq}
use rack_ai.Runtime.Types.Messages.{Failure}
use rack_ai.Runtime.Reservation.{current}
use rack_ai.Runtime.Residency.{overlaps}
use rack_ai.Runtime.Residency.Cache.{
  cache_record, cache_after_release, may_cache, occupied_warm, adopt, adopt_live, adopts,
  still_preparing, evicting, evict_entries, evict_incompatible, mark_evicting, if_same_process,
  process_beq, remove_if_unchanged, proven, prove_ready,
}

-- Each record is stored under its identifier, and a resource belongs to one of them at most.
pub record Apart (m : Map WarmResidency) : Type 0 where
  pub keyed : (j : ℕ) (a : WarmResidency) → lookup j m ≡ some a → a.id ≡ j
  pub exclusive :
      (j k : ℕ) (a b : WarmResidency) (x : ℕ)
      → lookup j m ≡ some a
      → lookup k m ≡ some b
      → member x a.resources ≡ true
      → member x b.resources ≡ true
      → j ≡ k

-- Every record of the second map is in the first, under the same key and with the same resources.
abbrev Fewer : Map WarmResidency → Map WarmResidency → Type 0
Fewer m n =
    (j : ℕ) (b : WarmResidency)
    → lookup j n ≡ some b
    → (a : WarmResidency) × (lookup j m ≡ some a) × (b.id ≡ a.id) × (b.resources ≡ a.resources)

Fewer-Apart : (m n : Map WarmResidency) → Fewer m n → Apart m → Apart n
Fewer-Apart m n fewer p = record {
  keyed = λ j b e. let f = fewer j b e in f.2 ∙ p.keyed j f.0 f.1;
  exclusive = λ j k b c x ej ek mb mc.
      let f = fewer j b ej in
      let g = fewer k c ek in p.exclusive j k f.0 g.0 x f.1 g.1 (rw (← f.3) mb) (rw (← g.3) mc);
}

modify-Fewer :
    (k : ℕ) (f : WarmResidency → WarmResidency) (m : Map WarmResidency)
    → ((r : WarmResidency) → ((f r).id ≡ r.id) × ((f r).resources ≡ r.resources))
    → Fewer m (modify k f m)
modify-Fewer k f m same j b e = elim (Option-cases (lookup j m)) [
  | inl n ↦ absurd (ground (arith, lookup-modify j k f m))
  | inr (a, n) ↦ elim (Bool-cases (j == k)) [
    | inl hit ↦
        let q : f a ≡ b = ground (arith, lookup-modify j k f m) in
        (a, n, rw (← q) (same a).0, rw (← q) (same a).1)
    | inr miss ↦
        let q : a ≡ b = ground (arith, lookup-modify j k f m) in (a, n, rw q refl, rw q refl)
  ]
]

remove-Fewer : (k : ℕ) (m : Map WarmResidency) → Fewer m (remove k m)
remove-Fewer k m j b e = elim (Bool-cases (j == k)) [
  | inl hit ↦ absurd (ground (arith, lookup-remove j k m))
  | inr miss ↦ (b, ground (arith, lookup-remove j k m), refl, refl)
]

evict_entries-Fewer : (saved : Demand) (m : Map WarmResidency) → Fewer m (evict_entries saved m)
unfolding lookup evict_entries evicting
evict_entries-Fewer saved [] j b e = absurd (ground arith)
evict_entries-Fewer saved ((id, r) ∷ m) j b e = elim (Bool-cases (j == id)) [
  | inl hit ↦ (r, ground arith, ground arith, ground arith)
  | inr miss ↦
      let f = evict_entries-Fewer saved m j b (ground arith) in (f.0, ground (arith, f.1), f.2, f.3)
]

-- A record joins where no other holds one of its resources.
insert-Apart :
    (r : WarmResidency) (saved : Demand) (m : Map WarmResidency)
    → r.resources ≡ saved.profile.resources
    → any (λ e. not (e.id == r.id) && overlaps e saved) (values m) ≡ false
    → Apart m
    → Apart (insert r.id r m)
unfolding overlaps
insert-Apart r saved m same free p = record {
  keyed = λ j a e. elim (Bool-cases (j == r.id)) [
    | inl hit ↦ let q : r ≡ a = ground (arith, lookup-insert j r.id r m) in rw (← q) (ground arith)
    | inr miss ↦ p.keyed j a (ground (arith, lookup-insert j r.id r m))
  ];
  exclusive = λ j k a b x ej ek ma mb. elim (Bool-cases (j == r.id)) [
    | inl hit ↦ elim (Bool-cases (k == r.id)) [
      | inl too ↦ ground arith
      | inr miss ↦
          let q : r ≡ a = ground (arith, lookup-insert j r.id r m) in
          absurd (overlapping k b x miss (ground (arith, lookup-insert k r.id r m)) mb (rw q ma))
    ]
    | inr miss ↦ elim (Bool-cases (k == r.id)) [
      | inl too ↦
          let q : r ≡ b = ground (arith, lookup-insert k r.id r m) in
          absurd (overlapping j a x miss (ground (arith, lookup-insert j r.id r m)) ma (rw q mb))
      | inr other ↦
          p.exclusive j k a b x (ground (arith, lookup-insert j r.id r m))
            (ground (arith, lookup-insert k r.id r m)) ma mb
    ]
  ];
}
  where
    overlapping :
        (j : ℕ) (a : WarmResidency) (x : ℕ)
        → (j == r.id) ≡ false
        → lookup j m ≡ some a
        → member x a.resources ≡ true
        → member x r.resources ≡ true
        → ⊥
    overlapping j a x miss e ma mr =
        let held = any-values (λ e. not (e.id == r.id) && overlaps e saved) j m free e in
        let meets : overlaps a saved ≡ true =
          any-member (λ resource. member resource saved.profile.resources) a.resources x ma
            (rw (← same) mr) in
        let own = p.keyed j a e in ground arith

-- The updates of the warm backends. A view of a demand has the profile of the stored demand as long
-- as its generation is the same.
pub data WarmStep : Document → Document → Type 0 where
  caches :
      {s : Document} {r : Document × Bool} (at : ℕ) (d : Demand) (process : Process)
      → ((saved : Demand)
          → lookup d.id s.demands ≡ some saved
          → saved.generation ≡ d.generation
          → saved.profile ≡ d.profile)
      → cache_after_release at s d (cache_record at d process) ≡ ok r
      → WarmStep s r.0
  takes_over :
      {s : Document} {r : Document × Bool} (d : Demand) (seen : WarmResidency)
      → adopt s d seen ≡ ok r
      → WarmStep s r.0
  evicts : {s t : Document} (d : Demand) → evict_incompatible s d ≡ ok t → WarmStep s t
  marks : {s : Document} (seen : WarmResidency) → WarmStep s (mark_evicting s seen)
  removes : {s : Document} (seen : WarmResidency) → WarmStep s (remove_if_unchanged s seen)
  proves : {s : Document} (at : ℕ) (seen : WarmResidency) → WarmStep s (prove_ready at s seen)

caches-Apart :
    (at : ℕ) (s : Document) (d : Demand) (process : Process) {r : Document × Bool}
    → ((saved : Demand)
        → lookup d.id s.demands ≡ some saved
        → saved.generation ≡ d.generation
        → saved.profile ≡ d.profile)
    → cache_after_release at s d (cache_record at d process) ≡ ok r
    → Apart s.warm_residencies
    → Apart (r.0).warm_residencies
unfolding cache_after_release cache_record may_cache occupied_warm
caches-Apart at s d process {r} view h p =
    let P = λ (t : Document × Bool). Apart (t.0).warm_residencies in
    let (saved, hs, h1) =
      >>=-eq-ok (ok_or (lookup d.id s.demands) Failure.missing_transition) _ h in
    branch (not (may_cache d (cache_record at d process) saved)) _ _ h1
      (λ b e. subst P (ok-injective e) p)
      (λ b e.
        branch (occupied_warm s (cache_record at d process) saved) _ _ e
          (λ c f. absurd (ground arith))
          (λ c f.
            let (now, hn, f1) = >>=-eq-ok (current s d) _ f in
            let q = view saved (ok_or-eq-ok _ _ hs) (ground arith) in
            subst P (ok-injective f1)
              (insert-Apart (cache_record at d process) saved s.warm_residencies (rw q refl) c p)))

takes_over-Apart :
    (s : Document) (d : Demand) (seen : WarmResidency) {r : Document × Bool}
    → adopt s d seen ≡ ok r
    → Apart s.warm_residencies
    → Apart (r.0).warm_residencies
unfolding adopt adopt_live
takes_over-Apart s d seen {r} h p =
    let P = λ (t : Document × Bool). Apart (t.0).warm_residencies in
    elim (Option-cases (lookup seen.id s.warm_residencies)) [
      | inl n ↦ subst P {x = (s, false)} {y = r} (ground arith) p
      | inr (live, e) ↦
          branch (adopts s d seen live) (adopt_live s d seen) (ok (s, false)) (rw (adopt, e) at h)
            (λ b k.
              let (saved, hs, k1) =
                >>=-eq-ok (ok_or (lookup d.id s.demands) Failure.missing_transition) _ k in
              branch (not (still_preparing s d saved)) _ _ k1 (λ c f. subst P (ok-injective f) p)
                (λ c f.
                  let (now, hn, f1) = >>=-eq-ok (current s d) _ f in
                  subst P (ok-injective f1)
                    (Fewer-Apart s.warm_residencies _ (remove-Fewer seen.id s.warm_residencies) p)))
            (λ b k. subst P (ok-injective k) p)
    ]

evicts-Apart :
    (s : Document) (d : Demand) {t : Document}
    → evict_incompatible s d ≡ ok t
    → Apart s.warm_residencies
    → Apart t.warm_residencies
unfolding evict_incompatible
evicts-Apart s d h p =
    let P = λ (t : Document). Apart t.warm_residencies in
    let (saved, hs, h1) =
      >>=-eq-ok (ok_or (lookup d.id s.demands) Failure.missing_transition) _ h in
    branch (not (still_preparing s d saved)) _ _ h1 (λ c f. subst P (ok-injective f) p)
      (λ c f.
        subst P (ok-injective f)
          (Fewer-Apart s.warm_residencies _ (evict_entries-Fewer saved s.warm_residencies) p))

removes-Apart :
    (s : Document) (seen : WarmResidency)
    → Apart s.warm_residencies
    → Apart (remove_if_unchanged s seen).warm_residencies
unfolding remove_if_unchanged
removes-Apart s seen p =
    elim (Bool-cases (
      is_some_and (lookup seen.id s.warm_residencies)
        (λ saved. process_beq saved.process seen.process))) [
          | inl e ↦
              rw e (Fewer-Apart s.warm_residencies _ (remove-Fewer seen.id s.warm_residencies) p)
          | inr e ↦ rw e p
        ]

-- Every update of the warm backends keeps them apart: a record stays under its identifier, and no
-- resource comes to belong to two of them.
pub WarmStep-Apart :
    {s t : Document} → WarmStep s t → Apart s.warm_residencies → Apart t.warm_residencies
unfolding mark_evicting prove_ready evicting
WarmStep-Apart {s} (caches at d process view h) p = caches-Apart at s d process view h p
WarmStep-Apart {s} (takes_over d seen h) p = takes_over-Apart s d seen h p
WarmStep-Apart {s} (evicts d h) p = evicts-Apart s d h p
WarmStep-Apart {s} (marks seen) p =
    Fewer-Apart s.warm_residencies _
      (modify-Fewer seen.id (if_same_process seen evicting) s.warm_residencies (λ r. ground arith))
      p
WarmStep-Apart {s} (removes seen) p = removes-Apart s seen p
WarmStep-Apart {s} (proves at seen) p =
    Fewer-Apart s.warm_residencies _
      (modify-Fewer seen.id (if_same_process seen (proven at)) s.warm_residencies
        (λ r. ground arith))
      p
