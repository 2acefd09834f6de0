-- ===== src/Discovery/Zookeeper/Services.antt =====
-- Which services are fetched anew when the list of services changes.
use msgrpc.Base.{
  ℕ, ◌+◌, ◌≡◌, refl, ap, ◌∙◌, Bool, true, not, ◌&&◌, ◌||◌, Option, some, List, [], ◌∷◌, ok, inl,
  inr, Bool-cases,
}
use msgrpc.Msg.{Bytes, ServiceId}
use msgrpc.Discovery.{InstanceInfo}
use msgrpc.Discovery.Names.{strings_to_instances}
use msgrpc.Discovery.Zookeeper.{
  k_services_root, service_path, Watcher, service_child_watcher, instance_child_watcher, tick,
  Zookeeper, Client, get_children,
}
use msgrpc.Discovery.Zookeeper.Strings.{sort_strings}
use msgrpc.Discovery.Zookeeper.Strings.Order.{
  contains, Ascends, Different, sort_strings-Ascends, contains-sort_strings,
}
use msgrpc.Discovery.Zookeeper.Strings.Difference.{contains-both_differences}
use msgrpc.Discovery.Zookeeper.Fetch.{
  dispatch_update, fetch_all, changed_services, service_child_watcher_fn,
}
use msgrpc.Discovery.Zookeeper.Changes.{fetched, fetch_and_update_connected}

-- The watches after the instances of services were fetched, in turn.
abbrev pub fetched_watches : List Bytes → List (Watcher × Bytes) → List (Watcher × Bytes)
fetched_watches [] ws = ws
fetched_watches (s ∷ ss) ws = fetched_watches ss ((instance_child_watcher, service_path s) ∷ ws)

module _ (lib : Zookeeper) (address : Bytes → Option ℕ) (strtoul : Bytes → ℕ)
    (before : ServiceId → ServiceId → Bool) where
  -- A connected client that reads nodes with addresses only.
  pub record Reads (h : ℕ) : Type 0 where
    pub connected : (t : ℕ) → lib.is_connected t h ≡ true
    pub instances : (t : ℕ) (service : Bytes) → List InstanceInfo
    pub readable :
        (t : ℕ) (service : Bytes)
        → strings_to_instances address strtoul before (lib.children t (service_path service))
          ≡ ok (instances t service)

  dispatch_update-keeps :
      (s : Bytes) (iv : List InstanceInfo) (c : Client)
      → ((dispatch_update lib address strtoul before s iv c).zk ≡ c.zk)
        × ((dispatch_update lib address strtoul before s iv c).watches ≡ c.watches)
  dispatch_update-keeps s iv c = elim (Bool-cases (lib.dispatches c.ticks)) [
    | inl e ↦ rw e (refl, refl)
    | inr e ↦ rw e (refl, refl)
  ]

  fetch_all-connected :
      (ss : List Bytes) (h : ℕ) (c : Client)
      → c.zk ≡ some h
      → Reads h
      → (c' : Client) × (fetch_all lib address strtoul before ss c ≡ ok c')
        × (c'.watches ≡ fetched_watches ss c.watches)
  unfolding fetch_all
  fetch_all-connected [] h c there r = (c, refl, refl)
  fetch_all-connected (s ∷ ss) h c there r =
      let iv = r.instances (c.ticks + 1) s in
      let next =
        dispatch_update lib address strtoul before s iv (fetched lib address strtoul before s c) in
      let (zk, watches) = dispatch_update-keeps s iv (fetched lib address strtoul before s c) in
      let (c', run, seen) = fetch_all-connected ss h next (zk ∙ there) r in
      (
        c',
        rw
            (fetch_and_update_connected lib address strtoul before s iv h c there
              (r.connected c.ticks) (r.readable (c.ticks + 1) s))
            run,
        seen ∙ ap (fetched_watches ss) watches,
      )

  get_children_connected :
      (watcher : Watcher) (path : Bytes) (h : ℕ) (c : Client)
      → c.zk ≡ some h
      → get_children lib watcher path c
        ≡ ok (lib.children c.ticks path, tick (record c { watches = (watcher, path) ∷ c.watches }))
  unfolding get_children
  get_children_connected watcher path h c there = rw (get_children, there) refl

  -- A change of the list of services, seen by a connected client: exactly the services that came or
  -- went since the last list have their instances fetched, with a watch, and the list in order is
  -- kept for the next change. The services of a list differ, and the last list is in order.
  pub service_child_watcher_fn-fetches :
      (h : ℕ) (c : Client)
      → c.zk ≡ some h
      → Reads h
      → Different (lib.children c.ticks k_services_root)
      → Ascends c.old_services
      → (c' : Client) × (service_child_watcher_fn lib address strtoul before true c ≡ ok c')
        × (c'.watches
            ≡ fetched_watches
                (changed_services lib address strtoul before
                  (sort_strings (lib.children c.ticks k_services_root))
                  c.old_services)
                ((service_child_watcher, k_services_root) ∷ c.watches))
        × ((z : Bytes)
            → contains z (
                changed_services lib address strtoul before
                  (sort_strings (lib.children c.ticks k_services_root))
                  c.old_services)
              ≡ ((contains z (lib.children c.ticks k_services_root)
                    && not (contains z c.old_services))
                  || (contains z c.old_services
                      && not (contains z (lib.children c.ticks k_services_root)))))
        × (c'.old_services ≡ sort_strings (lib.children c.ticks k_services_root))
        × Ascends c'.old_services
  unfolding service_child_watcher_fn
  service_child_watcher_fn-fetches h c there r different order =
      let latest = lib.children c.ticks k_services_root in
      let sorted = sort_strings latest in
      let c1 = tick (record c { watches = (service_child_watcher, k_services_root) ∷ c.watches }) in
      let asked : get_children lib service_child_watcher k_services_root c ≡ ok (latest, c1) =
        get_children_connected service_child_watcher k_services_root h c there in
      let (c2, run, seen) =
        fetch_all-connected (changed_services lib address strtoul before sorted c.old_services) h c1
          there r in
      (
        record c2 { old_services = sorted },
        rw (asked, run) refl,
        seen,
        λ z.
            contains-both_differences z sorted c.old_services
              (sort_strings-Ascends latest different) order
            ∙ rw (contains-sort_strings z latest) refl,
        refl,
        sort_strings-Ascends latest different,
      )
