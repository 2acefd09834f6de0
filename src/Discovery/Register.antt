-- ===== src/Discovery/Register.antt =====
-- adapter_example/core/adapter/zk_service_register.cpp: the cache of instances, the choice of an
-- instance, and the listeners, as the main queue's thread uses them.
pub mod Turns
pub mod Changes
use msgrpc.Base.{
  ℕ, suc, ◌+◌, ◌%◌, ◌^◌, Bool, true, false, Option, none, some, List, [], ◌∷◌, ◌++◌, map, Run, ok,
  ◌>>=◌, length, get_elem?, if◌then◌else◌, ◌==◌, ltb,
}
use msgrpc.Msg.{Bytes, ServiceId}
use msgrpc.World.{Ptr}
use msgrpc.Discovery.{InstanceInfo, same}
use msgrpc.Discovery.Names.{strings_to_instances}

-- `changes` are the calls of `on_changes` so far. A missing entry of `round_robin_map_` counts 0.
pub record Register : Type 0 where
  pub services_cache : Bytes → Option (List InstanceInfo)
  pub round_robin_map : Bytes → ℕ
  pub listeners_map : Bytes → Option (List Ptr)
  pub changes : List (Ptr × List InstanceInfo)

-- `map[name] = value`.
abbrev pub set_entry {ℓ} : {A : Type ℓ} → (Bytes → A) → Bytes → A → Bytes → A
set_entry m name value n = if same n name then value else m n

-- `instances[index].service_id_`.
abbrev pub id_at : List InstanceInfo → ℕ → Option ServiceId
id_at instances index = elim (get_elem? instances index) [
  | none ↦ none
  | some i ↦ some i.service_id
]

unfoldable pub pick : Bytes → List InstanceInfo → Register → Option ServiceId × Register
pick name [] r = (none, r)
pick name (x ∷ []) r = (some x.service_id, r)
pick name (x ∷ y ∷ ys) r = (
  id_at (x ∷ y ∷ ys) (r.round_robin_map name % suc (suc (length ys))),
  record r {
    round_robin_map = set_entry r.round_robin_map name ((r.round_robin_map name + 1) % 2 ^ 64);
  },
)

-- `ZkServiceRegister::service_name_to_id`; a `size_t` has 64 bits.
unfoldable pub service_name_to_id : Bytes → Register → Option ServiceId × Register
unfolding pick
service_name_to_id name r = elim (r.services_cache name) [
  | none ↦ (none, r)
  | some instances ↦ pick name instances r
]

abbrev pub instances_of : Bytes → Register → List InstanceInfo
instances_of name r = elim (r.services_cache name) [ none ↦ [] | some instances ↦ instances ]

-- `do_notify_listeners`.
unfoldable pub do_notify_listeners : Bytes → List InstanceInfo → Register → Register
do_notify_listeners name iv r = elim (r.listeners_map name) [
  | none ↦ r
  | some listeners ↦ record r { changes = r.changes ++ map (λ l. (l, iv)) listeners }
]

-- `std::set::insert` on pointers.
unfoldable pub insert_listener : Ptr → List Ptr → List Ptr
insert_listener l [] = l ∷ []
insert_listener l (x ∷ xs) =
    let rest = insert_listener l xs in
    if ltb l x then l ∷ x ∷ xs else if ltb x l then x ∷ rest else x ∷ xs

-- `std::set::erase` on pointers.
unfoldable pub erase_listener : Ptr → List Ptr → List Ptr
erase_listener l [] = []
erase_listener l (x ∷ xs) = let rest = erase_listener l xs in if x == l then xs else x ∷ rest

abbrev pub listeners_of : Bytes → Register → List Ptr
listeners_of name r = elim (r.listeners_map name) [ none ↦ [] | some ls ↦ ls ]

-- `ZkServiceRegister::register_listener` of a listener for `name`.
unfoldable pub register_listener : Ptr → Bytes → Register → Register
unfolding insert_listener do_notify_listeners
register_listener l name r =
    let r' = record r {
      listeners_map =
          set_entry r.listeners_map name (some (insert_listener l (listeners_of name r)));
    } in
    elim (r.services_cache name) [ none ↦ r' | some iv ↦ do_notify_listeners name iv r' ]

-- The loop of `ZkServiceRegister::init` on the listeners collected so far.
abbrev pub register_all : List (Ptr × Bytes) → Register → Register
register_all [] r = r
register_all ((l, service) ∷ ls) r = register_all ls (register_listener l service r)

unfoldable pub unregister_listener : Ptr → Bytes → Register → Register
unfolding erase_listener
unregister_listener l name r = elim (r.listeners_map name) [
  | none ↦ r
  | some ls ↦ record r {
    listeners_map = set_entry r.listeners_map name (some (erase_listener l ls));
  }
]

-- The task of `fetch_and_update_instances`.
unfoldable pub update_instances : Bytes → List InstanceInfo → Register → Register
unfolding do_notify_listeners
update_instances name iv r =
    do_notify_listeners name iv
      (record r { services_cache = set_entry r.services_cache name (some iv) })
