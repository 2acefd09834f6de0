-- ===== src/Discovery/Register/Turns.antt =====
-- The choice of an instance in turn.
use msgrpc.Base.{
  ℕ, zero, suc, ◌+◌, ◌%◌, ◌^◌, ◌<◌, ◌≡◌, refl, some, List, [], ◌∷◌, length, arith, ==_self, Bool,
}
use msgrpc.Msg.{Bytes}
use msgrpc.Discovery.{InstanceInfo, same}
use msgrpc.Discovery.Register.{Register, service_name_to_id, pick, id_at}

pub same_self : (name : Bytes) → same name name ≡ Bool.true
same_self [] = refl
same_self (b ∷ bs) = rw (==_self b) (same_self bs)

-- The register after `n` requests for one service.
abbrev pub after : ℕ → Bytes → Register → Register
after zero name r = r
after (suc n) name r = (service_name_to_id name (after n name r)).1

module _ (name : Bytes) (x y : InstanceInfo) (ys : List InstanceInfo) (r : Register)
    (known : r.services_cache name ≡ some (x ∷ y ∷ ys)) where
  after-known : (n : ℕ) → (after n name r).services_cache name ≡ some (x ∷ y ∷ ys)
  unfolding service_name_to_id pick
  after-known zero = known
  after-known (suc n) = rw (after, after-known n) (after-known n)

  after-round_robin :
      (n : ℕ)
      → r.round_robin_map name + n < 2 ^ 64
      → (after n name r).round_robin_map name ≡ r.round_robin_map name + n
  unfolding service_name_to_id pick
  after-round_robin zero small = omega arith
  after-round_robin (suc n) small =
      rw (after, after-known n)
        (rw (same_self name) (omega (arith, after-round_robin n (omega arith))))

  -- A service with two instances or more: its requests go to the instances in turn, from the one
  -- that the counter stands at, as long as the counter does not wrap.
  pub service_name_to_id-turn :
      (n : ℕ)
      → r.round_robin_map name + n < 2 ^ 64
      → (service_name_to_id name (after n name r)).0
        ≡ id_at (x ∷ y ∷ ys) ((r.round_robin_map name + n) % length (x ∷ y ∷ ys))
  unfolding service_name_to_id pick
  service_name_to_id-turn n small =
      rw (after-known n, service_name_to_id) (rw (after-round_robin n small) refl)
