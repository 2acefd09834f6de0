-- ===== src/Examples/Zookeeper.antt =====
-- Witnesses for the register as a client of ZooKeeper.
use msgrpc.Base.{
  ℕ, ◌≤◌, ◌≡◌, refl, true, Option, none, some, List, [], ◌∷◌, ◌++◌, map, ok, ltb, arith,
  if◌then◌else◌,
}
use msgrpc.Discovery.{same, InstanceInfo}
use msgrpc.Discovery.Names.{node_name, colon, strings_to_instances}
use msgrpc.Discovery.Register.{instances_of, listeners_of}
use msgrpc.Discovery.Zookeeper.{Zookeeper, Client, zok, service_path, wait_util_zk_is_connected}
use msgrpc.Discovery.Zookeeper.Connection.{has_client, wait_util_zk_is_connected-ends}
use msgrpc.Discovery.Zookeeper.Fetch.{instance_child_watcher_fn, run_task}
use msgrpc.Msg.{Bytes}
use msgrpc.Base.{not, ◌&&◌, ◌||◌}
use msgrpc.Discovery.Zookeeper.{k_services_root, service_child_watcher}
use msgrpc.Discovery.Zookeeper.Fetch.{service_child_watcher_fn, changed_services}
use msgrpc.Discovery.Zookeeper.Strings.{less_string, sort_strings}
use msgrpc.Discovery.Zookeeper.Strings.Order.{contains, Ascends, Different}
use msgrpc.Discovery.Zookeeper.Services.{Reads, fetched_watches, service_child_watcher_fn-fetches}
use msgrpc.Discovery.Zookeeper.Changes.{instance_child_watcher_fn-run_task}
use msgrpc.Examples.Discovery.{service, register, localhost, address, digits, before}

-- A server that can be reached from its fifth call on, with one instance of the service.
abbrev late_server : Zookeeper
late_server = record {
  starts = λ t h. true;
  is_connected = λ t h. ltb 4 t;
  children = λ t path.
      if same path (service_path service)
      then node_name (localhost ++ colon ∷ 56 ∷ 48 ∷ []) (55 ∷ []) (49 ∷ []) ∷ []
      else [];
  create = λ t path node ephemeral. zok;
  client_id = λ t. some (55 ∷ []);
  dispatches = λ t. true;
}

abbrev client_at : ℕ → Option ℕ → Client
client_at ticks zk = record {
  zk = zk;
  old_services = [];
  clients = 1;
  closed = [];
  exit_hooks = 0;
  watches = [];
  created = [];
  tasks = [];
  ticks = ticks;
}

reachable_late :
    (tick client : ℕ)
    → 5 ≤ tick
    → (late_server.starts tick client ≡ true) × (late_server.is_connected tick client ≡ true)
reachable_late tick client le = (refl, ground arith)

wait_util_zk_is_connected-ends_example :
    (c' : Client) × (wait_util_zk_is_connected late_server 6 (client_at 0 none) ≡ ok c')
    × (has_client c' ≡ true)
wait_util_zk_is_connected-ends_example =
    wait_util_zk_is_connected-ends late_server 5 5 (client_at 0 none) reachable_late (omega arith)

abbrev one_instance : List InstanceInfo
one_instance = record { service_id = (127, 80); version = 49 ∷ [] } ∷ []

one_instance_lem :
    strings_to_instances address (digits 0) before (late_server.children 8 (service_path service))
    ≡ ok one_instance
unfolding strings_to_instances
one_instance_lem = refl

instance_child_watcher_fn-run_task_example :
    (c' : Client) × (instance_child_watcher_fn late_server address
        (digits 0)
        before
        true
        (service_path service)
        (client_at 7 (some 0))
      ≡ ok c')
    × (instances_of service (run_task c' register).1 ≡ one_instance)
    × ((run_task c' register).1.changes
        ≡ [] ++ map (λ l. (l, one_instance)) (listeners_of service register))
instance_child_watcher_fn-run_task_example =
    instance_child_watcher_fn-run_task late_server address (digits 0) before service one_instance 0
      (client_at 7 (some 0)) register (omega arith) refl refl one_instance_lem refl refl

-- A server with the services "a" and "S", each with the one instance above.
abbrev steady_server : Zookeeper
steady_server = record late_server {
  is_connected = λ t h. true;
  children = λ t path.
      if same path k_services_root
      then (97 ∷ []) ∷ service ∷ []
      else node_name (localhost ++ colon ∷ 56 ∷ 48 ∷ []) (55 ∷ []) (49 ∷ []) ∷ [];
}

steady : Reads steady_server address (digits 0) before 0
unfolding strings_to_instances
steady = record { connected = λ t. refl; instances = λ t s. one_instance; readable = λ t s. refl }

-- The last list was "S" and "T".
abbrev former : Client
former = record (client_at 7 (some 0)) { old_services = service ∷ (84 ∷ []) ∷ [] }

different : Different (steady_server.children 7 k_services_root)
different = (refl, (refl, tt))

in_order : Ascends former.old_services
unfolding less_string
in_order = ((refl, tt), (tt, tt))

service_child_watcher_fn-fetches_example :
    (c' : Client) × (service_child_watcher_fn steady_server address (digits 0) before true former
      ≡ ok c')
    × (c'.watches
        ≡ fetched_watches
            (changed_services steady_server address
              (digits 0)
              before
              (sort_strings (steady_server.children 7 k_services_root))
              former.old_services)
            ((service_child_watcher, k_services_root) ∷ former.watches))
    × ((z : Bytes)
        → contains z (
            changed_services steady_server address
              (digits 0)
              before
              (sort_strings (steady_server.children 7 k_services_root))
              former.old_services)
          ≡ ((contains z (steady_server.children 7 k_services_root)
                && not (contains z former.old_services))
              || (contains z former.old_services
                  && not (contains z (steady_server.children 7 k_services_root)))))
    × (c'.old_services ≡ sort_strings (steady_server.children 7 k_services_root))
    × Ascends c'.old_services
service_child_watcher_fn-fetches_example =
    service_child_watcher_fn-fetches steady_server address (digits 0) before 0 former refl steady
      different in_order
