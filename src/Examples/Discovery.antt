-- ===== src/Examples/Discovery.antt =====
-- The theorems on the register of services at concrete inputs.
use msgrpc.Base.{
  ℕ, ◌+◌, ◌*◌, ◌-◌, ◌%◌, ◌≡◌, refl, Bool, false, Option, none, some, List, [], ◌∷◌, ◌++◌, map, ok,
  arith, if◌then◌else◌, ◌==◌, length, ltb,
}
use msgrpc.Msg.{Bytes, ServiceId}
use msgrpc.Discovery.{InstanceInfo, same}
use msgrpc.Discovery.Names.{node_name, split_at, colon, strings_to_instances}
use msgrpc.Discovery.Names.Laws.{Lacks, strings_to_instances-node_name}
use msgrpc.Discovery.Register.{
  Register, service_name_to_id, id_at, update_instances, instances_of, listeners_of, register_all,
}
use msgrpc.Config.{Config}
use msgrpc.Discovery.Listeners.{
  register_as_listener, told, y_service_resolver, z_service_resolver, resolve_or_ask,
}
use msgrpc.Discovery.Listeners.Resolving.{resolve_or_ask-update_instances}
use msgrpc.Discovery.Register.Turns.{after, service_name_to_id-turn}
use msgrpc.Discovery.Register.Changes.{update_instances-tells}

abbrev pub service : Bytes
service = 83 ∷ []

abbrev instance_at : ℕ → InstanceInfo
instance_at port = record { service_id = (127, port); version = [] }

abbrev three_instances : List InstanceInfo
three_instances = instance_at 1 ∷ instance_at 2 ∷ instance_at 3 ∷ []

-- Listeners 4 and 9 listen to the service.
abbrev pub register : Register
register = record {
  services_cache = λ n. if same n service then some three_instances else none;
  round_robin_map = λ n. 0;
  listeners_map = λ n. if same n service then some (4 ∷ 9 ∷ []) else none;
  changes = [];
}

service_name_to_id-turn_example :
    (service_name_to_id service (after 4 service register)).0
    ≡ id_at three_instances (4 % length three_instances)
service_name_to_id-turn_example =
    service_name_to_id-turn service (instance_at 1) (instance_at 2) (instance_at 3 ∷ []) register
      refl 4 (omega arith)

fifth_request : (service_name_to_id service (after 4 service register)).0 ≡ some (127, 2)
fifth_request = service_name_to_id-turn_example

update_instances-tells_example :
    (instances_of service (update_instances service [] register) ≡ [])
    × ((update_instances service [] register).changes
        ≡ [] ++ map (λ l. (l, [])) (listeners_of service register))
    × ((other : Bytes)
        → same other service ≡ false
        → instances_of other (update_instances service [] register) ≡ instances_of other register)
update_instances-tells_example = update_instances-tells service [] register

-- The bytes of `127.0.0.1` have no colon; a decimal port, as the C library reads it.
abbrev pub digits : ℕ → Bytes → ℕ
digits n [] = n
digits n (c ∷ cs) =
    let rest = digits (10 * n + (c - 48)) cs in if ltb c 48 then n else if ltb 57 c then n else rest

abbrev pub localhost : Bytes
localhost = 49 ∷ 46 ∷ 49 ∷ []

abbrev pub address : Bytes → Option ℕ
address ip = if same ip localhost then some 127 else none

abbrev pub before : ServiceId → ServiceId → Bool
before (a, p) (b, q) = if a == b then ltb p q else ltb a b

localhost-Lacks : Lacks colon localhost
unfolding split_at
localhost-Lacks = refl

end_point-Lacks : Lacks 35 (localhost ++ colon ∷ 56 ∷ 48 ∷ [])
unfolding split_at
end_point-Lacks = refl

session-Lacks : Lacks 35 (55 ∷ [])
unfolding split_at
session-Lacks = refl

strings_to_instances-node_name_example :
    strings_to_instances address
      (digits 0)
      before
      (node_name (localhost ++ colon ∷ 56 ∷ 48 ∷ []) (55 ∷ []) (49 ∷ []) ∷ [])
    ≡ ok (record { service_id = (127, 80); version = 49 ∷ [] } ∷ [])
strings_to_instances-node_name_example =
    strings_to_instances-node_name address (digits 0) before localhost (56 ∷ 48 ∷ []) (55 ∷ [])
      (49 ∷ []) 127 80 localhost-Lacks end_point-Lacks session-Lacks refl (λ rest. refl)
      (omega arith)

-- A thread whose register is not configured yet.
abbrev config : Config
config = record {
  msg_channel = none;
  timer = none;
  service_register = none;
  logger = none;
  ids = record {
    request_msg_id = 0;
    response_msg_id = 0;
    set_timer_msg_id = 0;
    timeout_msg_id = 0;
    schedule_task_msg_id = 0;
  };
}

-- The register after the start, with listener 7 among those collected, and two instances come.
abbrev resolved : Register
resolved = update_instances service (instance_at 5 ∷ instance_at 6 ∷ []) (
    register_all (register_as_listener 7 service config ((3, service) ∷ []) register).0
      (register_as_listener 7 service config ((3, service) ∷ []) register).1)

resolve_or_ask-update_instances_example :
    resolve_or_ask
      ((service, y_service_resolver (told 7 resolved.changes []))
        ∷ (localhost, z_service_resolver)
        ∷ [])
      service
      []
      resolved
    ≡ (id_at (instance_at 5 ∷ instance_at 6 ∷ []) (2 - 1), resolved)
resolve_or_ask-update_instances_example =
    resolve_or_ask-update_instances 7 service [] config ((3, service) ∷ []) register resolved
      (instance_at 5 ∷ instance_at 6 ∷ []) [] ((localhost, z_service_resolver) ∷ []) refl
