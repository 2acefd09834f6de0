-- ===== src/Discovery/Zookeeper/Changes.antt =====
-- What reaches the register when the instances of a service change.
use msgrpc.Base.{
  ℕ, ◌+◌, ◌<◌, ◌≡◌, refl, Bool, true, Option, some, List, [], ◌∷◌, ◌++◌, map, ok, arith, length,
  ltb, lt→ltb,
}
use msgrpc.Msg.{Bytes, ServiceId}
use msgrpc.Discovery.{InstanceInfo}
use msgrpc.Discovery.Names.{strings_to_instances}
use msgrpc.Discovery.Register.{Register, instances_of, listeners_of}
use msgrpc.Discovery.Register.Changes.{update_instances-tells}
use msgrpc.Discovery.Zookeeper.{
  k_services_root, service_path, instance_child_watcher, tick, Zookeeper, Client, try_connect_zk,
  get_children, or_connect,
}
use msgrpc.Discovery.Zookeeper.Fetch.{
  dispatch_update, fetch_service_instances_from_zk, fetch_and_update_instances,
  instance_child_watcher_fn, run_task,
}

module _ (lib : Zookeeper) (address : Bytes → Option ℕ) (strtoul : Bytes → ℕ)
    (before : ServiceId → ServiceId → Bool) where
  service_path_long :
      (s : Bytes) → 0 < length s → ltb (length k_services_root + 1) (length (service_path s)) ≡ true
  service_path_long s long = lt→ltb _ _ (omega arith)

  -- A connected client and the watch on the instances of a service.
  abbrev pub fetched : Bytes → Client → Client
  fetched service c =
      tick
        (record (tick c) { watches = (instance_child_watcher, service_path service) ∷ c.watches })

  fetch_connected :
      (service : Bytes) (iv : List InstanceInfo) (h : ℕ) (c : Client)
      → c.zk ≡ some h
      → lib.is_connected c.ticks h ≡ true
      → strings_to_instances address strtoul before
          (lib.children (c.ticks + 1) (service_path service))
        ≡ ok iv
      → fetch_service_instances_from_zk lib address strtoul before service c
        ≡ ok (some iv, fetched service c)
  unfolding try_connect_zk or_connect fetch_service_instances_from_zk
  fetch_connected service iv h c there connected read =
      let tried : try_connect_zk lib c ≡ (true, tick c) = rw (there, connected) refl in
      rw (fetch_service_instances_from_zk, tried, get_children, there, read) refl

  pub fetch_and_update_connected :
      (service : Bytes) (iv : List InstanceInfo) (h : ℕ) (c : Client)
      → c.zk ≡ some h
      → lib.is_connected c.ticks h ≡ true
      → strings_to_instances address strtoul before
          (lib.children (c.ticks + 1) (service_path service))
        ≡ ok iv
      → fetch_and_update_instances lib address strtoul before service c
        ≡ ok (dispatch_update lib address strtoul before service iv (fetched service c))
  unfolding fetch_and_update_instances
  fetch_and_update_connected service iv h c there connected read =
      rw (fetch_connected service iv h c there connected read) refl

  -- A change of the instances of a service, seen by a connected client whose main queue is empty and
  -- takes the task: after the task, the register holds the instances of the nodes, as they stand there and
  -- without a filter, and every listener of the service was told them, once and in order.
  pub instance_child_watcher_fn-run_task :
      (service : Bytes) (iv : List InstanceInfo) (h : ℕ) (c : Client) (r : Register)
      → 0 < length service
      → c.zk ≡ some h
      → lib.is_connected c.ticks h ≡ true
      → strings_to_instances address strtoul before
          (lib.children (c.ticks + 1) (service_path service))
        ≡ ok iv
      → lib.dispatches (c.ticks + 1 + 1) ≡ true
      → c.tasks ≡ []
      → (c' : Client) × (instance_child_watcher_fn lib address strtoul before true
            (service_path service)
            c
          ≡ ok c')
        × (instances_of service (run_task c' r).1 ≡ iv)
        × ((run_task c' r).1.changes ≡ r.changes ++ map (λ l. (l, iv)) (listeners_of service r))
  unfolding instance_child_watcher_fn run_task
  instance_child_watcher_fn-run_task service iv h c r long there connected read taken idle =
      let (now, told, others) = update_instances-tells service iv r in
      (
        dispatch_update lib address strtoul before service iv (fetched service c),
        rw (service_path_long service long)
            (fetch_and_update_connected service iv h c there connected read),
        rw (run_task, taken, idle) now,
        rw (run_task, taken, idle) told,
      )
