-- ===== src/Discovery/Listeners.antt =====
-- core/service_discovery: named_sr_listener.h, default_service_resolver.h, service_resolvers.h, and
-- msgrpc/include/msgrpc/util/instances_collector.h, with the resolvers of demo_services/service_x.
pub mod Resolving
use msgrpc.Base.{ℕ, Bool, true, false, Option, none, some, List, [], ◌∷◌, ◌++◌, if◌then◌else◌, ◌==◌}
use msgrpc.Msg.{Bytes, ServiceId}
use msgrpc.World.{Ptr}
use msgrpc.Config.{Config, is_set}
use msgrpc.Discovery.{InstanceInfo, Resolver, find_resolver, resolve_last}
use msgrpc.Discovery.Register.{Register, register_listener, service_name_to_id}

-- `InstancesCollector<SRListener>::track`: a listener, with the service that it listens to.
abbrev pub track : Ptr → Bytes → List (Ptr × Bytes) → List (Ptr × Bytes)
track l name instances = instances ++ (l, name) ∷ []

-- `NamedSRListener::register_as_listener`, on the listeners collected so far and the register.
unfoldable pub register_as_listener :
    Ptr → Bytes → Config → List (Ptr × Bytes) → Register → List (Ptr × Bytes) × Register
unfolding register_listener
register_as_listener l name config instances r =
    if is_set config.service_register
    then (instances, register_listener l name r)
    else (track l name instances, r)

-- `Y__ServiceResolver::on_changes` on `instances_`.
abbrev pub on_changes : List InstanceInfo → List InstanceInfo → List InstanceInfo
on_changes instances instances_ = instances

-- What the `instances_` of the listener `l` are after calls of `on_changes` on listeners.
abbrev pub told : Ptr → List (Ptr × List InstanceInfo) → List InstanceInfo → List InstanceInfo
told l [] instances_ = instances_
told l ((p, iv) ∷ calls) instances_ =
    told l calls (if p == l then on_changes iv instances_ else instances_)

-- `Y__ServiceResolver` as it stands, as one of the resolvers of `ServiceResolvers`.
abbrev pub y_service_resolver : List InstanceInfo → Resolver
y_service_resolver instances_ name req = resolve_last instances_

-- `Z__ServiceResolver`.
abbrev pub z_service_resolver : Resolver
z_service_resolver name req = none

-- `DefaultServiceResolver`: it asks the register.
abbrev pub default_resolver : Bytes → Bytes → Register → Option ServiceId × Register
default_resolver name req r = service_name_to_id name r

-- `ServiceResolvers<DefaultServiceResolver, …>::service_name_to_id`.
unfoldable pub resolve_or_ask :
    List (Bytes × Resolver) → Bytes → Bytes → Register → Option ServiceId × Register
unfolding find_resolver service_name_to_id
resolve_or_ask resolvers name req r = elim (find_resolver name resolvers) [
  | none ↦ default_resolver name req r
  | some resolver ↦ (resolver name req, r)
]
