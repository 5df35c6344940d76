-- ===== src/Runtime/Ownership/Changes.antt =====
-- The changes of one demand that the runtime makes keep its claims right.
use rack_ai.Common.{
  ℕ, Bool, List, ◌∷◌, [], ◌≡◌, refl, arith, ok, ok-injective, subst, Option-cases, inl, inr,
}
use rack_ai.Common.Map.{lookup, modify}
use rack_ai.Runtime.Types.{Document, Demand, Map}
use rack_ai.Runtime.Types.Enums.{demand_state_eq}
use rack_ai.Runtime.Service.{recover_demand}
use rack_ai.Runtime.Planner.{occupies_host, displace}
use rack_ai.Runtime.Reservation.{publish, publish_all}
use rack_ai.Runtime.Idle.{touched, expire, expire_ids}
use rack_ai.Runtime.Control.{closed}
use rack_ai.Runtime.Retention.{apply_extensions}
use rack_ai.Runtime.Ownership.{Owned, Keeps, modify-Owned}

pub displace-Keeps : (at by : ℕ) → Keeps (displace at by)
unfolding displace occupies_host
displace-Keeps at by = record { same_id = λ d. refl; same_profile = λ d. refl; stays = λ d h. refl }

pub publish-Keeps : Keeps publish
unfolding publish occupies_host
publish-Keeps = record {
  same_id = λ d. ground arith;
  same_profile = λ d. ground arith;
  stays = λ d h. ground arith;
}

pub closed-Keeps : (at : ℕ) (c : Bool) → Keeps (closed at c)
unfolding closed occupies_host
closed-Keeps at c = record {
  same_id = λ d. ground arith;
  same_profile = λ d. ground arith;
  stays = λ d h. ground arith;
}

pub expire-Keeps : (at : ℕ) → Keeps (expire at)
unfolding expire occupies_host
expire-Keeps at = record { same_id = λ d. refl; same_profile = λ d. refl; stays = λ d h. refl }

pub touched-Keeps : (at : ℕ) → Keeps (touched at)
unfolding touched
touched-Keeps at = record { same_id = λ d. refl; same_profile = λ d. refl; stays = λ d h. h }

pub recover_demand-Keeps : Keeps recover_demand
unfolding recover_demand occupies_host
recover_demand-Keeps = record {
  same_id = λ d. ground arith;
  same_profile = λ d. ground arith;
  stays = λ d h. ground arith;
}

pub deadline-Keeps : (t : ℕ) → Keeps (λ d. record d { deadline = t })
deadline-Keeps t = record { same_id = λ d. refl; same_profile = λ d. refl; stays = λ d h. h }

-- Lists of changes.
pub expire_ids-Owned :
    (at : ℕ) (ids : List ℕ) (s : Document)
    → Owned s
    → Owned (record s { demands = expire_ids at ids s.demands })
unfolding expire_ids
expire_ids-Owned at [] s o = o
expire_ids-Owned at (id ∷ ids) s o =
    expire_ids-Owned at ids (record s { demands = modify id (expire at) s.demands })
      (modify-Owned id (expire at) (expire-Keeps at) o)

pub publish_all-Owned :
    (ids : List ℕ) (s : Document) {m : Map Demand}
    → publish_all ids s.demands ≡ ok m
    → Owned s
    → Owned (record s { demands = m })
unfolding publish_all
publish_all-Owned [] s h o = subst (λ m. Owned (record s { demands = m })) (ok-injective h) o
publish_all-Owned (id ∷ ids) s {m} h o = elim (Option-cases (lookup id s.demands)) [
  | inl e ↦ absurd (ground arith)
  | inr (d, e) ↦
      publish_all-Owned ids (record s { demands = modify id publish s.demands }) (ground arith)
        (modify-Owned id publish publish-Keeps o)
]

pub apply_extensions-Owned :
    (us : List (ℕ × ℕ)) (s : Document) {m : Map Demand}
    → apply_extensions us s.demands ≡ ok m
    → Owned s
    → Owned (record s { demands = m })
unfolding apply_extensions
apply_extensions-Owned [] s h o = subst (λ m. Owned (record s { demands = m })) (ok-injective h) o
apply_extensions-Owned ((id, t) ∷ us) s {m} h o = elim (Option-cases (lookup id s.demands)) [
  | inl e ↦ absurd (ground arith)
  | inr (d, e) ↦
      apply_extensions-Owned us
        (record s { demands = modify id (λ d. record d { deadline = t }) s.demands }) (ground arith)
        (modify-Owned id (λ d. record d { deadline = t }) (deadline-Keeps t) o)
]
