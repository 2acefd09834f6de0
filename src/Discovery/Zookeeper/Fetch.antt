-- ===== src/Discovery/Zookeeper/Fetch.antt =====
-- adapter_example/core/adapter/zk_service_register.cpp: services and instances are fetched from
-- ZooKeeper, at the start and by the watchers.
use msgrpc.Base.{
  ℕ, ◌+◌, Bool, true, false, Option, none, some, List, [], ◌∷◌, ◌++◌, Run, ok, ◌>>=◌, ◌>>◌, assert,
  length, ltb, drop, if◌then◌else◌,
}
use msgrpc.Msg.{Bytes, ServiceId}
use msgrpc.World.{Ptr}
use msgrpc.Discovery.{InstanceInfo}
use msgrpc.Discovery.Names.{strings_to_instances}
use msgrpc.Discovery.Register.{
  Register, set_entry, do_notify_listeners, register_all, update_instances,
}
use msgrpc.Discovery.Zookeeper.Strings.{sort_strings, set_difference}
use msgrpc.Discovery.Zookeeper.{
  k_services_root, service_path, service_child_watcher, instance_child_watcher, Zookeeper, Client,
  tick, try_connect_zk, wait_util_zk_is_connected, get_children,
}

-- The next task on the main queue's thread.
unfoldable pub run_task : Client → Register → Client × Register
unfolding update_instances
run_task c r = elim c.tasks [
  | [] ↦ (c, r)
  | (service, iv) ∷ tasks ↦ (record c { tasks = tasks }, update_instances service iv r)
]

module _ (lib : Zookeeper) where
  module _ (address : Bytes → Option ℕ) (strtoul : Bytes → ℕ)
      (before : ServiceId → ServiceId → Bool) where
    -- `none`: there was no connection.
    unfoldable pub fetch_service_instances_from_zk :
        Bytes → Client → Run (Option (List InstanceInfo) × Client)
    unfolding try_connect_zk get_children strings_to_instances
    fetch_service_instances_from_zk service c =
        let (connected, c1) = try_connect_zk lib c in
        if connected
        then (do
          (strings, c2) ← get_children lib instance_child_watcher (service_path service) c1
          instances ← strings_to_instances address strtoul before strings
          ok (some instances, c2))
        else ok (none, c1)

    -- The result of the dispatch_update is not looked at.
    abbrev pub dispatch_update : Bytes → List InstanceInfo → Client → Client
    dispatch_update service iv c =
        if lib.dispatches c.ticks
        then tick (record c { tasks = c.tasks ++ (service, iv) ∷ [] })
        else tick c

    unfoldable pub fetch_and_update_instances : Bytes → Client → Run Client
    unfolding fetch_service_instances_from_zk
    fetch_and_update_instances service c = do
      (fetched, c1) ← fetch_service_instances_from_zk service c
      elim fetched [ none ↦ ok c1 | some iv ↦ ok (dispatch_update service iv c1) ]

    unfoldable pub fetch_all : List Bytes → Client → Run Client
    unfolding fetch_and_update_instances
    fetch_all [] c = ok c
    fetch_all (s ∷ ss) c = do c' ← fetch_and_update_instances s c; fetch_all ss c'

    -- The services that came and the ones that went.
    abbrev pub changed_services : (sorted old : List Bytes) → List Bytes
    changed_services sorted old = set_difference sorted old ++ set_difference old sorted

    -- `is_child_event`: the type of the event is ZOO_CHILD_EVENT.
    unfoldable pub service_child_watcher_fn : Bool → Client → Run Client
    unfolding fetch_all get_children sort_strings set_difference
    service_child_watcher_fn is_child_event c =
        if is_child_event
        then (do
          (services, c1) ← get_children lib service_child_watcher k_services_root c
          let sorted = sort_strings services
          c2 ← fetch_all (changed_services sorted c1.old_services) c1
          ok (record c2 { old_services = sorted }))
        else ok c

    unfoldable pub instance_child_watcher_fn : Bool → Bytes → Client → Run Client
    unfolding fetch_and_update_instances
    instance_child_watcher_fn is_child_event path c =
        if is_child_event
        then (do
          assert (ltb (length k_services_root + 1) (length path))
          fetch_and_update_instances (drop (length k_services_root + 1) path) c)
        else ok c

    -- The filters, in the order in which they were collected.
    module _ (filters : List (Bytes → List InstanceInfo → List InstanceInfo)) where
      abbrev pub filtered :
          List (Bytes → List InstanceInfo → List InstanceInfo)
          → Bytes
          → List InstanceInfo
          → List InstanceInfo
      filtered [] service iv = iv
      filtered (f ∷ fs) service iv = filtered fs service (f service iv)

      unfoldable pub fetch_each : List Bytes → Client → Register → Run (Client × Register)
      unfolding fetch_service_instances_from_zk do_notify_listeners
      fetch_each [] c r = ok (c, r)
      fetch_each (s ∷ ss) c r = do
        (fetched, c1) ← fetch_service_instances_from_zk s c
        elim fetched [
          | none ↦ fetch_each ss c1 r
          | some iv ↦
              (let kept = filtered filters s iv in
                fetch_each ss c1 (
                  do_notify_listeners s kept
                    (record r { services_cache = set_entry r.services_cache s (some kept) })))
        ]

      unfoldable pub try_fetch_services_from_zk : Client → Register → Run (Bool × Client × Register)
      unfolding try_connect_zk get_children sort_strings fetch_each
      try_fetch_services_from_zk c r =
          let (connected, c1) = try_connect_zk lib c in
          if connected
          then (do
            (latest, c2) ← get_children lib service_child_watcher k_services_root c1
            (c3, r') ← fetch_each latest (record c2 { old_services = sort_strings latest }) r
            ok (true, c3, r'))
          else ok (false, c1, r)

      -- `ZkServiceRegister::init`, with the listeners collected so far.
      unfoldable pub init :
          ℕ → List (Ptr × Bytes) → Client → Register → Run (Bool × Client × Register)
      unfolding wait_util_zk_is_connected try_fetch_services_from_zk
      init rounds listeners c r =
          let r' = register_all listeners r in
          (wait_util_zk_is_connected lib rounds c >>= λ c'. try_fetch_services_from_zk c' r')
