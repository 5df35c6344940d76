-- ===== src/Runtime/Reserving/Members.antt =====
-- What the demands have that `prepare_services` of crates/rack_ai_runtime/src/reservation_admission.rs makes.
use rack_ai.Common.{
  ℕ, ◌+◌, Bool, true, false, not, ◌&&◌, some, List, ◌∷◌, [], map, ◌≡◌, refl, subst, sym, ◌∙◌,
  unwrap_or, inl, inr, arith, ◌==◌, nat_eq, option_eq, list_eq, member, All, ok, ok_or, >>=-eq-ok,
  ok-injective, ok_or-eq-ok, Bool-cases, branch, find, add64, length,
}
use rack_ai.Runtime.Types.{Document, Demand, Reserve, Profile, Acquire}
use rack_ai.Runtime.Types.Messages.{Failure}
use rack_ai.Runtime.Config.{Config, Environment, Source}
use rack_ai.Runtime.Admission.Demands.{Identities, prepare, validate_request, new_demand}
use rack_ai.Runtime.Reserving.{
  GroupContext, prepare_services, with_reservation, add_resources, member_request,
}
use rack_ai.Runtime.Types.Enums.{Priority}

-- No resource is in two of the lists.
abbrev pub Exclusive : List (List ℕ) → Type 0
Exclusive [] = Unit
Exclusive (rs ∷ rss) =
    All (λ qs. (x : ℕ) → member x rs ≡ true → member x qs ≡ false) rss × Exclusive rss

-- What is known of the resources that are taken so far.
record Added (rs old new : List ℕ) : Type 0 where
  older : (x : ℕ) → member x old ≡ true → member x new ≡ true
  joined : (x : ℕ) → member x rs ≡ true → member x new ≡ true
  fresh : (x : ℕ) → member x old ≡ true → member x rs ≡ false

add_resources-Added :
    (rs old : List ℕ) {new : List ℕ} → add_resources rs old ≡ ok new → Added rs old new
unfolding add_resources
add_resources-Added [] old h = record {
  older = λ x e. subst (λ l. member x l ≡ true) (ok-injective h) e;
  joined = λ x e. absurd (ground arith);
  fresh = λ x e. refl;
}
add_resources-Added (r ∷ rs) old {new} h = elim (Bool-cases (member r old)) [
  | inl e ↦ absurd (ground arith)
  | inr e ↦
      let p = add_resources-Added rs (r ∷ old) {new = new} (ground arith) in
      record {
        older = λ x m. p.older x (ground arith);
        joined = λ x m. elim (Bool-cases (x == r)) [
          | inl q ↦ p.older x (ground arith)
          | inr q ↦ p.joined x (ground arith)
        ];
        fresh = λ x m.
            let q = p.fresh x (ground arith) in
            elim (Bool-cases (x == r)) [ inl c ↦ absurd (ground arith) | inr c ↦ ground arith ];
      }
]

find-holds : {A : Type 0} (p : A → Bool) (xs : List A) {a : A} → find p xs ≡ some a → p a ≡ true
find-holds p [] e = absurd (ground arith)
find-holds p (x ∷ xs) {a} e = elim (Bool-cases (p x)) [
  | inl q ↦ ground arith
  | inr q ↦ find-holds p xs {a = a} (ground arith)
]

-- The demand has a profile of the configuration, the source as its owner and the priority that the
-- reservation asks for.
pub record Configured (k : GroupContext) (request : Reserve) (d : Demand) : Type 0 where
  pub found : find (λ p. p.tag == d.profile.tag) k.config.profiles ≡ some d.profile
  pub same_owner : d.owner ≡ k.source.source
  pub same_priority : d.priority ≡ request.priority

record Prepared (source : Source) (request : Acquire) (profile : Profile) (d : Demand)
    : Type 0 where
  same_profile : d.profile ≡ profile
  same_owner : d.owner ≡ source.source
  same_priority : d.priority ≡ unwrap_or request.priority Priority.low

prepare-Prepared :
    (at : ℕ) (env : Environment) (config : Config) (source : Source) (ids : Identities)
    (request : Acquire) (order : ℕ) (profile : Profile) {d : Demand}
    → find (λ p. p.tag == request.tag) config.profiles ≡ some profile
    → prepare at env config source ids request order ≡ ok d
    → Prepared source request profile d
unfolding prepare new_demand
prepare-Prepared at env config source ids request order profile {d} found h =
    let (u, hu, h1) = >>=-eq-ok (validate_request env request config.max_ttl_seconds) _ h in
    branch (request.qualification && not source.qualification) _ _ h1 (λ b e. absurd (ground arith))
      (λ b e.
        let (p, hp, e1) =
          >>=-eq-ok (ok_or (find (λ q. q.tag == request.tag) config.profiles) Failure.unknown_tag) _
            e in
        let (hash, hh, e2) = >>=-eq-ok (env.profile_digest p) _ e1 in
        let (id, hi, e3) = >>=-eq-ok ids.id _ e2 in
        let (generation, hg, e4) = >>=-eq-ok ids.generation _ e3 in
        let (access_key, ha, e5) = >>=-eq-ok ids.access_key _ e4 in
        let same : p ≡ profile = ground (arith, ok_or-eq-ok _ _ hp) in
        subst (Prepared source request profile) (ok-injective e5)
          (record { same_profile = same; same_owner = refl; same_priority = refl }))

-- The demands for the services, and the resources that were taken before them.
pub record Members (k : GroupContext) (request : Reserve) (old tags : List ℕ) (ds : List Demand)
    : Type 0 where
  pub tagged : map (λ d. d.profile.tag) ds ≡ tags
  pub exclusive : Exclusive (map (λ d. d.profile.resources) ds)
  pub configured : All (Configured k request) ds
  pub fresh :
      All
        (λ qs. (x : ℕ) → member x old ≡ true → member x qs ≡ false)
        (map (λ d. d.profile.resources) ds)

All-map-older :
    (old new : List ℕ) (rss : List (List ℕ))
    → ((x : ℕ) → member x old ≡ true → member x new ≡ true)
    → All (λ qs. (x : ℕ) → member x new ≡ true → member x qs ≡ false) rss
    → All (λ qs. (x : ℕ) → member x old ≡ true → member x qs ≡ false) rss
All-map-older old new [] older h = tt
All-map-older old new (rs ∷ rss) older h =
    ((λ x e. h.0 x (older x e)), All-map-older old new rss older h.1)

pub prepare_services-Members :
    (k : GroupContext) (s : Document) (request : Reserve) (n : ℕ) (tags old : List ℕ)
    {ds : List Demand}
    → prepare_services k s request n tags old ≡ ok ds
    → Members k request old tags ds
unfolding prepare_services member_request
prepare_services-Members k s request n [] old h =
    subst (Members k request old []) (ok-injective h)
      (record { tagged = refl; exclusive = tt; configured = tt; fresh = tt })
prepare_services-Members k s request n (tag ∷ tags) old h =
    let (profile, hp, h1) =
      >>=-eq-ok (ok_or (find (λ p. p.tag == tag) k.config.profiles) Failure.unknown_tag) _ h in
    let (new, hn, h2) = >>=-eq-ok (add_resources profile.resources old) _ h1 in
    let (d, hd, h3) =
      >>=-eq-ok
        (prepare k.at k.env k.config k.source (k.identities n)
          (member_request k request profile tag) (add64 (length s.demands) n))
        _ h2 in
    let (ds, hs, h4) = >>=-eq-ok (prepare_services k s request (n + 1) tags new) _ h3 in
    let found = ok_or-eq-ok _ _ hp in
    let hit : (profile.tag == tag) ≡ true =
      find-holds (λ (p : Profile). p.tag == tag) k.config.profiles found in
    let same_tag : profile.tag ≡ tag = ground arith in
    let prepared =
      prepare-Prepared k.at k.env k.config k.source (k.identities n)
        (member_request k request profile tag) (add64 (length s.demands) n) profile found hd in
    let same : d.profile ≡ profile = prepared.same_profile in
    let added = add_resources-Added profile.resources old hn in
    let rest = prepare_services-Members k s request (n + 1) tags new hs in
    subst (Members k request old (tag ∷ tags)) (ok-injective h4) (record {
      tagged = rw (same, rest.tagged) (ground arith);
      exclusive =
          (rw same (All-map-older profile.resources new _ added.joined rest.fresh), rest.exclusive);
      configured = (
        record {
          found = rw same (
              subst (λ t. find (λ (p : Profile). p.tag == t) k.config.profiles ≡ some profile)
                (sym same_tag) found);
          same_owner = prepared.same_owner;
          same_priority = prepared.same_priority;
        },
        rest.configured,
      );
      fresh = (rw same added.fresh, All-map-older old new _ added.older rest.fresh);
    })

-- The members with the name of their reservation.
pub record Renamed (k : GroupContext) (request : Reserve) (root : ℕ) (ds : List Demand)
    : Type 0 where
  pub services : map (λ d. d.profile.tag) ds ≡ request.services
  pub configured : All (Configured k request) ds
  pub exclusive : Exclusive (map (λ d. d.profile.resources) ds)
  pub named : All (λ d. d.reservation_id ≡ some root) ds

map-with_reservation :
    {A : Type 0} (f : Demand → A) (root : ℕ) (ds : List Demand)
    → ((d : Demand) → f (with_reservation root d) ≡ f d)
    → map f (map (with_reservation root) ds) ≡ map f ds
map-with_reservation f root [] same = refl
map-with_reservation f root (d ∷ ds) same =
    let here = same d in ground (arith, map-with_reservation f root ds same)

Configured-with_reservation :
    (k : GroupContext) (request : Reserve) (root : ℕ) (ds : List Demand)
    → All (Configured k request) ds
    → All (Configured k request) (map (with_reservation root) ds)
Configured-with_reservation k request root [] h = tt
Configured-with_reservation k request root (d ∷ ds) h =
    let p = h.0 in
    (
      record { found = p.found; same_owner = p.same_owner; same_priority = p.same_priority },
      Configured-with_reservation k request root ds h.1,
    )

named-with_reservation :
    (root : ℕ) (ds : List Demand)
    → All (λ d. d.reservation_id ≡ some root) (map (with_reservation root) ds)
named-with_reservation root [] = tt
named-with_reservation root (d ∷ ds) = (refl, named-with_reservation root ds)

pub Members-Renamed :
    (k : GroupContext) (request : Reserve) (root : ℕ) (ds : List Demand)
    → Members k request [] request.services ds
    → Renamed k request root (map (with_reservation root) ds)
Members-Renamed k request root ds p = record {
  services = map-with_reservation (λ d. d.profile.tag) root ds (λ d. refl) ∙ p.tagged;
  configured = Configured-with_reservation k request root ds p.configured;
  exclusive =
      subst Exclusive (sym (map-with_reservation (λ d. d.profile.resources) root ds (λ d. refl)))
        p.exclusive;
  named = named-with_reservation root ds;
}
