-- ===== src/Discovery/Zookeeper.antt =====
-- adapter_example/core/adapter/zk_service_register.cpp: the register as a client of ZooKeeper.
pub mod Strings
pub mod Fetch
pub mod Connection
pub mod Changes
pub mod Services
use msgrpc.Base.{
  ℕ, zero, suc, ◌+◌, Bool, true, false, Option, none, some, List, [], ◌∷◌, ◌++◌, Run, ok,
  out_of_fuel, ◌>>=◌, ◌>>◌, assert, deref, length, ltb, drop, if◌then◌else◌,
}
use msgrpc.Msg.{Bytes, ServiceId}
use msgrpc.World.{Ptr}
use msgrpc.Discovery.{InstanceInfo}
use msgrpc.Discovery.Names.{node_name, strings_to_instances}
use msgrpc.Discovery.Register.{
  Register, set_entry, do_notify_listeners, register_listener, update_instances,
}
use msgrpc.Discovery.Zookeeper.Strings.{sort_strings, set_difference}

-- "/" and "/services".
abbrev pub slash : ℕ
slash = 47

abbrev pub k_services_root : Bytes
k_services_root = slash ∷ 115 ∷ 101 ∷ 114 ∷ 118 ∷ 105 ∷ 99 ∷ 101 ∷ 115 ∷ []

abbrev pub service_path : Bytes → Bytes
service_path service = k_services_root ++ slash ∷ service

pub data Watcher : Type 0 where
  session_watcher service_child_watcher instance_child_watcher : Watcher

-- ZOK, ZNODEEXISTS, and every other return code.
pub data ZkResult : Type 0 where
  zok znodeexists zfailed : ZkResult

-- The ZooKeeper client library and the main queue, as functions of the count of calls so far, and of
-- the client where it matters. `starts` says that `start` throws nothing, `dispatches` that a task
-- was taken by the main queue.
pub record Zookeeper : Type 0 where
  pub starts : (tick client : ℕ) → Bool
  pub is_connected : (tick client : ℕ) → Bool
  pub children : (tick : ℕ) → Bytes → List Bytes
  pub create : (tick : ℕ) → (path node : Bytes) → Bool → ZkResult
  pub client_id : (tick : ℕ) → Option Bytes
  pub dispatches : (tick : ℕ) → Bool

-- What the thread of the client keeps: `zk_` and `old_services_`, and all that it did so far: the
-- clients made, those closed, the hooks for `atexit`, the watches that were set, the nodes created
-- (with their data, and whether they are ephemeral), and the tasks given to the main queue.
pub record Client : Type 0 where
  pub zk : Option ℕ
  pub old_services : List Bytes
  pub clients : ℕ
  pub closed : List ℕ
  pub exit_hooks : ℕ
  pub watches : List (Watcher × Bytes)
  pub created : List (Bytes × Bytes × Bool)
  pub tasks : List (Bytes × List InstanceInfo)
  pub ticks : ℕ

abbrev pub tick : Client → Client
tick c = record c { ticks = c.ticks + 1 }

module _ (lib : Zookeeper) where
  -- `is_zk_connected`, of a client that is not null.
  abbrev pub is_zk_connected : ℕ → Client → Bool × Client
  is_zk_connected h c = (lib.is_connected c.ticks h, tick c)

  abbrev pub zk_connected : Client → Bool × Client
  zk_connected c = elim c.zk [ none ↦ (false, c) | some h ↦ is_zk_connected h c ]

  abbrev pub close : ℕ → Client → Client
  close h c = record c { closed = h ∷ c.closed }

  -- `try_connect_zk` behind its first test.
  unfoldable pub connect_new : Client → Bool × Client
  connect_new c =
      let h = c.clients in
      let c1 = record c {
        exit_hooks = elim c.zk [ none ↦ c.exit_hooks + 1 | some h ↦ c.exit_hooks ];
        clients = h + 1;
        ticks = c.ticks + 1;
      } in
      if lib.starts c.ticks h
      then (let (connected, c2) = is_zk_connected h c1 in
          if connected
          then (
            true,
            record c2 { zk = some h; watches = (session_watcher, slash ∷ []) ∷ c2.watches },
          )
          else (false, close h c2))
      else (false, close h c1)

  unfoldable pub or_connect : Bool × Client → Bool × Client
  unfolding connect_new
  or_connect (true, c) = (true, c)
  or_connect (false, c) = connect_new c

  unfoldable pub try_connect_zk : Client → Bool × Client
  unfolding or_connect
  try_connect_zk c = or_connect (zk_connected c)

  unfoldable pub wait_util_zk_is_connected : ℕ → Client → Run Client
  unfolding try_connect_zk
  wait_util_zk_is_connected zero c = out_of_fuel
  wait_util_zk_is_connected (suc rounds) c =
      let (connected, c1) = try_connect_zk c in
      elim connected [ true ↦ ok c1 | false ↦ wait_util_zk_is_connected rounds c1 ]

  -- `zk_->getChildren()->withWatcher(…)->forPath(…)`.
  unfoldable pub get_children : Watcher → Bytes → Client → Run (List Bytes × Client)
  get_children watcher path c = do
    h ← deref c.zk
    ok (lib.children c.ticks path, tick (record c { watches = (watcher, path) ∷ c.watches }))

  -- `zk_->create()->…->forPath(…)`.
  unfoldable pub create : (path node : Bytes) → Bool → Client → Run (ZkResult × Client)
  create path node ephemeral c = do
    h ← deref c.zk
    ok (
      lib.create c.ticks path node ephemeral,
      tick (record c { created = (path, node, ephemeral) ∷ c.created }),
    )

  abbrev pub is_registered : ZkResult → Bool
  is_registered zok = true
  is_registered znodeexists = true
  is_registered zfailed = false

  unfoldable pub create_ephemeral_node_for_service_instance :
      (service_name : Bytes) → Option Bytes → (end_point : Bytes) → Client → Run (Bool × Client)
  unfolding create get_children
  create_ephemeral_node_for_service_instance service_name version end_point c = do
    (root, c1) ← create k_services_root [] false c
    (services, c2) ← get_children service_child_watcher k_services_root c1
    (service, c3) ← create (service_path service_name) [] false c2
    elim (lib.client_id c3.ticks) [
      | none ↦ ok (false, tick c3)
      | some session ↦ (do
        v ← deref version
        (ret, c4) ←
            create (service_path service_name ++ slash ∷ node_name end_point session v) end_point
              true (tick c3)
        ok (is_registered ret, c4))
    ]

  -- `ZkServiceRegister::register_service`; a missing string is a null pointer.
  unfoldable pub register_service :
      ℕ → (service_name version end_point : Option Bytes) → Client → Run (Bool × Client)
  unfolding wait_util_zk_is_connected create_ephemeral_node_for_service_instance
  register_service rounds none version end_point c = ok (false, c)
  register_service rounds (some service) version none c = ok (false, c)
  register_service rounds (some service) version (some end_point) c = do
    c' ← wait_util_zk_is_connected rounds c
    create_ephemeral_node_for_service_instance service version end_point c'
