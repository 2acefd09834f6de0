-- ===== src/Discovery/Zookeeper/Connection.antt =====
-- The wait for ZooKeeper ends once the server can be reached.
use msgrpc.Base.{
  ℕ, zero, suc, ◌+◌, ◌<◌, ◌≤◌, ◌≡◌, refl, ap, ◌∙◌, Bool, true, false, none, some, ok, arith, inl,
  inr, Bool-cases, Option-cases,
}
use msgrpc.Discovery.Zookeeper.{
  or_connect, zk_connected, Zookeeper, Client, connect_new, try_connect_zk,
  wait_util_zk_is_connected,
}

abbrev pub has_client : Client → Bool
has_client c = elim c.zk [ none ↦ false | some h ↦ true ]

module _ (lib : Zookeeper) where
  connect_new-ticks :
      (c : Client)
      → (c.ticks < (connect_new lib c).1.ticks)
        × ((connect_new lib c).0 ≡ true → has_client (connect_new lib c).1 ≡ true)
  unfolding connect_new
  connect_new-ticks c = ground arith

  connect_new-reachable :
      (c : Client)
      → ((tick client : ℕ)
          → c.ticks ≤ tick
          → (lib.starts tick client ≡ true) × (lib.is_connected tick client ≡ true))
      → (connect_new lib c).0 ≡ true
  unfolding connect_new
  connect_new-reachable c reachable =
      rw
        (
          (reachable c.ticks c.clients (omega arith)).0,
          (reachable (c.ticks + 1) c.clients (omega arith)).1,
        )
        refl

  abbrev Reachable : ℕ → Type 0
  Reachable since =
      (tick client : ℕ)
      → since ≤ tick
      → (lib.starts tick client ≡ true) × (lib.is_connected tick client ≡ true)

  zk_connected_lem :
      (c : Client)
      → (c.ticks ≤ (zk_connected lib c).1.ticks)
        × ((zk_connected lib c).0 ≡ true → has_client (zk_connected lib c).1 ≡ true)
  zk_connected_lem c = elim (Option-cases c.zk) [
    | inl e ↦ rw e (omega arith, λ e'. cc)
    | inr (h, e) ↦ rw e (omega arith, λ e'. refl)
  ]

  -- What a try gives: it takes time where it fails, it leaves a client where it succeeds, and it
  -- succeeds where the server can be reached.
  record Tries (since start : ℕ) (tried : Bool × Client) : Type 0 where
    takes_time : tried.0 ≡ false → start < tried.1.ticks
    leaves_client : tried.0 ≡ true → has_client tried.1 ≡ true
    succeeds : since ≤ start → tried.0 ≡ true

  or_connect-Tries :
      (since start : ℕ)
      → Reachable since
      → (known : Bool × Client) → start ≤ known.1.ticks
      → (known.0 ≡ true → has_client known.1 ≡ true)
      → Tries since start (or_connect lib known)
  unfolding or_connect
  or_connect-Tries since start reachable (true, c) later there = record {
    takes_time = λ e. cc;
    leaves_client = there;
    succeeds = λ le. refl;
  }
  or_connect-Tries since start reachable (false, c) later there =
      let (more, left) = connect_new-ticks c in
      record {
        takes_time = λ e. omega arith;
        leaves_client = left;
        succeeds = λ le. connect_new-reachable c (λ t h le'. reachable t h (omega arith));
      }

  try_connect_zk-Tries :
      (since : ℕ) → Reachable since → (c : Client) → Tries since c.ticks (try_connect_zk lib c)
  unfolding try_connect_zk
  try_connect_zk-Tries since reachable c =
      let (later, there) = zk_connected_lem c in
      or_connect-Tries since c.ticks reachable (zk_connected lib c) later there

  -- The wait for a connection ends, with a client, once the server can be reached: if it can be
  -- from some call on, one round more than the calls until then is enough.
  pub wait_util_zk_is_connected-ends :
      (since rounds : ℕ) (c : Client)
      → Reachable since
      → since ≤ c.ticks + rounds
      → (c' : Client) × (wait_util_zk_is_connected lib (suc rounds) c ≡ ok c')
        × (has_client c' ≡ true)
  unfolding wait_util_zk_is_connected
  wait_util_zk_is_connected-ends since zero c reachable le =
      let tries = try_connect_zk-Tries since reachable c in
      let e = tries.succeeds (omega arith) in
      ((try_connect_zk lib c).1, rw (wait_util_zk_is_connected, e) refl, tries.leaves_client e)
  wait_util_zk_is_connected-ends since (suc rounds) c reachable le =
      let tries = try_connect_zk-Tries since reachable c in
      elim (Bool-cases (try_connect_zk lib c).0) [
        | inl e ↦ (
          (try_connect_zk lib c).1,
          rw (wait_util_zk_is_connected, e) refl,
          tries.leaves_client e,
        )
        | inr e ↦
            (let later = tries.takes_time e in
              let (c', run, left) =
                wait_util_zk_is_connected-ends since rounds (try_connect_zk lib c).1 reachable
                  (omega arith) in
              (
                c',
                ap
                      (λ b. elim b [
                        | true ↦ ok (try_connect_zk lib c).1
                        | false ↦
                            wait_util_zk_is_connected lib (suc rounds) (try_connect_zk lib c).1
                      ])
                      e
                    ∙ run,
                left,
              ))
      ]
