-- ===== src/Discovery/Listeners/Resolving.antt =====
-- A listener that resolves its service follows the instances of the service.
use msgrpc.Base.{
  subst, suc, ◌-◌, ◌≡◌, refl, ◌∙◌, ap, Bool, true, false, ◌||◌, some, List, [], ◌∷◌, ◌++◌, map,
  length, if◌then◌else◌, ◌==◌, ==_self, inl, inr, Bool-cases, or_true, Option-cases, arith,
}
use msgrpc.Msg.{Bytes}
use msgrpc.World.{Ptr}
use msgrpc.Config.{Config, is_set}
use msgrpc.Discovery.{InstanceInfo, Resolver, find_resolver, resolve_last, same}
use msgrpc.Discovery.Register.{
  Register, set_entry, listeners_of, insert_listener, do_notify_listeners, register_listener,
  register_all, update_instances, id_at,
}
use msgrpc.Discovery.Register.Turns.{same_self}
use msgrpc.Discovery.Register.Changes.{update_instances-tells}
use msgrpc.Discovery.Zookeeper.Strings.Order.{same-eq}
use msgrpc.Discovery.Listeners.{
  track, register_as_listener, told, y_service_resolver, resolve_or_ask,
}

-- Whether a listener is in a set of listeners.
abbrev pub listens : Ptr → List Ptr → Bool
listens l [] = false
listens l (x ∷ xs) = (x == l) || listens l xs

listens-insert_listener :
    (l k : Ptr) (xs : List Ptr) → listens l (insert_listener k xs) ≡ ((k == l) || listens l xs)
unfolding insert_listener
listens-insert_listener l k [] = refl
listens-insert_listener l k (x ∷ xs) = ground (arith, listens-insert_listener l k xs)

do_notify_listeners-listeners_of :
    (name other : Bytes) (iv : List InstanceInfo) (r : Register)
    → listeners_of other (do_notify_listeners name iv r) ≡ listeners_of other r
unfolding do_notify_listeners
do_notify_listeners-listeners_of name other iv r = elim (Option-cases (r.listeners_map name)) [
  | inl e ↦ rw (do_notify_listeners, e) refl
  | inr (ls, e) ↦ rw (listeners_of, do_notify_listeners, e) refl
]

register_listener-listeners_of :
    (l : Ptr) (name other : Bytes) (r : Register)
    → listeners_of other (register_listener l name r)
      ≡ (if same other name then insert_listener l (listeners_of name r) else listeners_of other r)
unfolding register_listener
register_listener-listeners_of l name other r =
    let r' : Register = record r {
      listeners_map =
          set_entry r.listeners_map name (some (insert_listener l (listeners_of name r)));
    } in
    let entered : listeners_of other r' ≡ (
        if same other name then insert_listener l (listeners_of name r) else listeners_of other r) =
      elim (Bool-cases (same other name)) [
        | inl e ↦ rw (listeners_of, e) refl
        | inr e ↦ rw (listeners_of, e) refl
      ] in
    elim (Option-cases (r.services_cache name)) [
      | inl e ↦ rw (register_listener, e) entered
      | inr (iv, e) ↦
          rw (register_listener, e) (do_notify_listeners-listeners_of name other iv r' ∙ entered)
    ]

-- A listener that is registered listens, and the registration of others does not change that.
register_listener-listens :
    (l : Ptr) (name : Bytes) (r : Register)
    → listens l (listeners_of name (register_listener l name r)) ≡ true
register_listener-listens l name r =
    rw (register_listener-listeners_of l name name r, same_self name)
      (rw (listens-insert_listener l l (listeners_of name r), ==_self l) refl)

register_listener-keeps :
    (l k : Ptr) (name other : Bytes) (r : Register)
    → listens l (listeners_of name r) ≡ true
    → listens l (listeners_of name (register_listener k other r)) ≡ true
register_listener-keeps l k name other r h = elim (Bool-cases (same name other)) [
  | inl e ↦
      let h' : listens l (listeners_of other r) ≡ true =
        subst (λ n. listens l (listeners_of n r) ≡ true) (same-eq name other e) h in
      rw (register_listener-listeners_of k other name r, e)
        (rw (listens-insert_listener l k (listeners_of other r), h') (or_true (k == l)))
  | inr e ↦ rw (register_listener-listeners_of k other name r, e) h
]

register_all-keeps :
    (l : Ptr) (name : Bytes) (tracked : List (Ptr × Bytes)) (r : Register)
    → listens l (listeners_of name r) ≡ true
    → listens l (listeners_of name (register_all tracked r)) ≡ true
register_all-keeps l name [] r h = h
register_all-keeps l name ((k, other) ∷ ks) r h =
    register_all-keeps l name ks (register_listener k other r)
      (register_listener-keeps l k name other r h)

register_all-track :
    (l : Ptr) (name : Bytes) (tracked : List (Ptr × Bytes)) (r : Register)
    → listens l (listeners_of name (register_all (track l name tracked) r)) ≡ true
register_all-track l name [] r = register_listener-listens l name r
register_all-track l name ((k, other) ∷ ks) r =
    register_all-track l name ks (register_listener k other r)

-- A listener that registered itself, before or after the register was there, listens.
register_as_listener-listens :
    (l : Ptr) (name : Bytes) (config : Config) (tracked : List (Ptr × Bytes)) (r : Register)
    → listens l (
        listeners_of name (
          register_all
            (register_as_listener l name config tracked r).0
            (register_as_listener l name config tracked r).1))
      ≡ true
unfolding register_as_listener
register_as_listener-listens l name config tracked r =
    elim (Bool-cases (is_set config.service_register)) [
      | inl e ↦
          rw (register_as_listener, e)
            (register_all-keeps l name tracked _ (register_listener-listens l name r))
      | inr e ↦ rw (register_as_listener, e) (register_all-track l name tracked r)
    ]

told_same :
    (l : Ptr) (iv : List InstanceInfo) (ls : List Ptr) → told l (map (λ p. (p, iv)) ls) iv ≡ iv
told_same l iv [] = refl
told_same l iv (p ∷ ls) = elim (Bool-cases (p == l)) [
  | inl e ↦ rw (told, e) (told_same l iv ls)
  | inr e ↦ rw (told, e) (told_same l iv ls)
]

told-map :
    (l : Ptr) (iv : List InstanceInfo) (ls : List Ptr) (instances_ : List InstanceInfo)
    → listens l ls ≡ true
    → told l (map (λ p. (p, iv)) ls) instances_ ≡ iv
told-map l iv [] instances_ h = cc
told-map l iv (p ∷ ls) instances_ h = elim (Bool-cases (p == l)) [
  | inl e ↦ rw (told, e) (told_same l iv ls)
  | inr e ↦ rw (told, e) (told-map l iv ls instances_ (ground arith))
]

told-append :
    (l : Ptr) (calls calls' : List (Ptr × List InstanceInfo)) (instances_ : List InstanceInfo)
    → told l (calls ++ calls') instances_ ≡ told l calls' (told l calls instances_)
told-append l [] calls' instances_ = refl
told-append l ((p, iv) ∷ calls) calls' instances_ = told-append l calls calls' _

last_at :
    (x : InstanceInfo) (ys : List InstanceInfo) → resolve_last (x ∷ ys) ≡ id_at (x ∷ ys) (length ys)
unfolding resolve_last
last_at x [] = refl
last_at x (y ∷ ys) = last_at y ys

resolve_last-id_at : (iv : List InstanceInfo) → resolve_last iv ≡ id_at iv (length iv - 1)
unfolding resolve_last
resolve_last-id_at [] = refl
resolve_last-id_at (x ∷ ys) =
    last_at x ys ∙ ap (id_at (x ∷ ys)) (let e : length ys ≡ suc (length ys) - 1 = omega arith in e)

-- A resolver that registered itself as the listener of its service, directly or, where there was no
-- register yet, by way of the listeners that `init` registers: after a change of the instances of
-- the service, the requests to it go to the last of the new instances, to none if there is none,
-- and leave the register as it is.
pub resolve_or_ask-update_instances :
    (l : Ptr) (name req : Bytes) (config : Config) (tracked : List (Ptr × Bytes)) (r r' : Register)
    (iv instances_ : List InstanceInfo) (resolvers : List (Bytes × Resolver))
    → r'
      ≡ update_instances name iv (
          register_all
            (register_as_listener l name config tracked r).0
            (register_as_listener l name config tracked r).1)
    → resolve_or_ask
        ((name, y_service_resolver (told l r'.changes instances_)) ∷ resolvers)
        name
        req
        r'
      ≡ (id_at iv (length iv - 1), r')
unfolding resolve_or_ask find_resolver
resolve_or_ask-update_instances l name req config tracked r r' iv instances_ resolvers e =
    let set = register_as_listener l name config tracked r in
    let r1 = register_all set.0 set.1 in
    let calls : r'.changes ≡ r1.changes ++ map (λ p. (p, iv)) (listeners_of name r1) =
      ap (λ s. s.changes) e ∙ (update_instances-tells name iv r1).1 in
    let latest : told l r'.changes instances_ ≡ iv =
      ap (λ cs. told l cs instances_) calls
      ∙ told-append l r1.changes _ instances_
      ∙ told-map l iv (listeners_of name r1) _
          (register_as_listener-listens l name config tracked r) in
    rw (resolve_or_ask, same_self name)
      (ap (λ o. (o, r')) (ap resolve_last latest ∙ resolve_last-id_at iv))
