-- ===== src/Examples/Warm.antt =====
-- The backend of a demand that ends is kept warm.
use rack_ai.Common.{
  ℕ, Bool, true, false, Option, some, none, ◌∷◌, [], ◌≡◌, refl, sym, ◌∙◌, ap, ok, arith,
}
use rack_ai.Common.Map.{lookup, insert}
use rack_ai.Runtime.Types.{Document, Demand}
use rack_ai.Runtime.Types.Enums.{DemandState, Driver}
use rack_ai.Runtime.Residency.Cache.{cache_after_release, cache_record}
use rack_ai.Runtime.Residency.Apart.{Apart, caches, WarmStep-Apart}
use rack_ai.Examples.{from_ok, process}
use rack_ai.Examples.Documents.{ready_demand, ready}

abbrev releasing_demand : Demand
releasing_demand = record ready_demand {
  state = DemandState.releasing;
  profile = record (ready_demand.profile) { driver = Driver.docker };
}

abbrev releasing : Document
releasing = record ready { demands = (1, releasing_demand) ∷ [] }

abbrev cached : Document × Bool
cached =
    from_ok (releasing, false)
      (cache_after_release 130 releasing releasing_demand
        (cache_record 130 releasing_demand process))

cache_succeeds :
    cache_after_release 130 releasing releasing_demand (cache_record 130 releasing_demand process)
    ≡ ok cached
unfolding cache_after_release lookup cache_record rack_ai.Runtime.Residency.supported
    rack_ai.Common.Map.values rack_ai.Runtime.Reservation.current
cache_succeeds = refl

is_cached : cached.1 ≡ true
unfolding cache_after_release lookup cache_record rack_ai.Runtime.Residency.supported
    rack_ai.Common.Map.values rack_ai.Runtime.Reservation.current
is_cached = refl

no_warm : Apart releasing.warm_residencies
unfolding lookup
no_warm = record {
  keyed = λ j a e. absurd (ground arith);
  exclusive = λ j k a b x e f p q. absurd (ground arith);
}

own_view :
    (saved : Demand)
    → lookup 1 releasing.demands ≡ some saved
    → saved.generation ≡ releasing_demand.generation
    → saved.profile ≡ releasing_demand.profile
unfolding lookup
own_view saved e f =
    sym (
      ap (λ (o : Option Demand). elim o [ none ↦ releasing_demand.profile | some d ↦ d.profile ]) e)

WarmStep-Apart_example : Apart (cached.0).warm_residencies
WarmStep-Apart_example =
    WarmStep-Apart (caches 130 releasing_demand process own_view cache_succeeds) no_warm
