-- ===== src/Discovery/Register/Changes.antt =====
-- What the listeners of a service are told.
use msgrpc.Base.{◌≡◌, refl, ◌∙◌, ap, inl, inr, false, some, List, [], ◌∷◌, ◌++◌, map, Option-cases}
use msgrpc.Msg.{Bytes}
use msgrpc.Discovery.{InstanceInfo, same}
use msgrpc.Discovery.Register.{
  Register, set_entry, do_notify_listeners, listeners_of, update_instances, instances_of,
}
use msgrpc.Discovery.Register.Turns.{same_self}

append_nil : {A : Type 0} (xs : List A) → xs ≡ xs ++ []
append_nil [] = refl
append_nil (x ∷ xs) = ap (λ ys. x ∷ ys) (append_nil xs)

do_notify_listeners-changes :
    (name : Bytes) (iv : List InstanceInfo) (r : Register)
    → (do_notify_listeners name iv r).changes
      ≡ r.changes ++ map (λ l. (l, iv)) (listeners_of name r)
unfolding do_notify_listeners
do_notify_listeners-changes name iv r = elim (Option-cases (r.listeners_map name)) [
  | inl e ↦ rw (e, do_notify_listeners, map) (append_nil r.changes)
  | inr (ls, e) ↦ rw (e, do_notify_listeners, map) refl
]

do_notify_listeners-instances_of :
    (name other : Bytes) (iv : List InstanceInfo) (r : Register)
    → instances_of other (do_notify_listeners name iv r) ≡ instances_of other r
unfolding do_notify_listeners
do_notify_listeners-instances_of name other iv r = elim (Option-cases (r.listeners_map name)) [
  | inl e ↦ rw (instances_of, do_notify_listeners, e) refl
  | inr (ls, e) ↦ rw (instances_of, do_notify_listeners, e) refl
]

-- New instances of a service: they are what the register holds from then on, every listener of
-- the service is told them, once and in order, and no other service changes.
pub update_instances-tells :
    (name : Bytes) (iv : List InstanceInfo) (r : Register)
    → (instances_of name (update_instances name iv r) ≡ iv)
      × ((update_instances name iv r).changes
          ≡ r.changes ++ map (λ l. (l, iv)) (listeners_of name r))
      × ((other : Bytes)
          → same other name ≡ false
          → instances_of other (update_instances name iv r) ≡ instances_of other r)
unfolding update_instances
update_instances-tells name iv r =
    let r' : Register = record r { services_cache = set_entry r.services_cache name (some iv) } in
    (
      do_notify_listeners-instances_of name name iv r' ∙ rw (instances_of, same_self name) refl,
      do_notify_listeners-changes name iv r',
      λ other ne. do_notify_listeners-instances_of name other iv r' ∙ rw (instances_of, ne) refl,
    )
