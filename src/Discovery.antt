-- ===== src/Discovery.antt =====
-- core/service_discovery/: which instance of a service a request goes to; service_resolver.h and
-- service_resolvers.h, with the resolvers and the filter of demo_services/service_x.
pub mod Names
pub mod Register
pub mod Zookeeper
pub mod Listeners
use msgrpc.Base.{
  ℕ, zero, suc, Bool, true, false, ◌&&◌, Option, none, some, List, [], ◌∷◌, if◌then◌else◌, ◌==◌,
}
use msgrpc.Msg.{Bytes, ServiceId}

pub record InstanceInfo : Type 0 where
  pub service_id : ServiceId
  pub version : Bytes

-- Equality of strings.
abbrev pub same : Bytes → Bytes → Bool
same [] [] = true
same (x ∷ xs) (y ∷ ys) = (x == y) && same xs ys
same _ _ = false

-- `ServiceResolver::service_name_to_id` of one service name and one request.
abbrev pub Resolver : Type 0
Resolver = Bytes → Bytes → Option ServiceId

-- `std::map::find` on the resolvers of a `ServiceResolvers`.
unfoldable pub find_resolver : Bytes → List (Bytes × Resolver) → Option Resolver
find_resolver name [] = none
find_resolver name ((n, r) ∷ rs) = if same name n then some r else find_resolver name rs

-- `ServiceResolvers::service_name_to_id`: the first entry of a name is the one that its map keeps.
unfoldable pub resolve_by : Resolver → List (Bytes × Resolver) → Resolver
unfolding find_resolver
resolve_by default resolvers name req = elim (find_resolver name resolvers) [
  | none ↦ default name req
  | some r ↦ r name req
]

-- `Y__ServiceResolver::service_name_to_id` on the instances that it was told: the last one.
unfoldable pub resolve_last : List InstanceInfo → Option ServiceId
resolve_last [] = none
resolve_last (x ∷ []) = some x.service_id
resolve_last (x ∷ y ∷ ys) = resolve_last (y ∷ ys)

-- `ServiceVersionFilter::filter_service`.
unfoldable pub filter_service : Bytes → List InstanceInfo → List InstanceInfo
filter_service name (x ∷ y ∷ ys) = y ∷ ys
filter_service name xs = xs
