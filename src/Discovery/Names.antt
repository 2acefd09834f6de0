-- ===== src/Discovery/Names.antt =====
-- adapter_example/core/adapter/zk_service_register.cpp: the strings under which instances are
-- registered, and how they are read back.
pub mod Laws
use msgrpc.Base.{
  ℕ, ◌%◌, ◌^◌, Bool, Option, none, some, List, [], ◌∷◌, ◌++◌, Run, ok, ◌>>=◌, deref, if◌then◌else◌,
  ◌==◌,
}
use msgrpc.Msg.{Bytes, ServiceId}
use msgrpc.Discovery.{InstanceInfo}

abbrev pub colon : ℕ
colon = 58

abbrev pub hash : ℕ
hash = 35

abbrev pub at_sign : ℕ
at_sign = 64

-- `find(c)`: what stands before the first `c`, and what stands behind it.
unfoldable pub split_at : ℕ → Bytes → Option (Bytes × Bytes)
split_at c [] = none
split_at c (b ∷ bs) =
    let rest = split_at c bs in
    if b == c then some ([], bs) else elim rest [ none ↦ none | some (l, r) ↦ some (b ∷ l, r) ]

unfoldable pub service_version_of : Bytes → Bytes
unfolding split_at
service_version_of endpoint = elim (split_at hash endpoint) [ none ↦ [] | some (l, r) ↦ r ]

-- The last part of the path that `create_ephemeral_node_for_service_instance` creates.
abbrev pub node_name : (end_point session version : Bytes) → Bytes
node_name end_point session version = end_point ++ at_sign ∷ (session ++ hash ∷ version)

-- `address` is asio's `address::from_string` (none: it throws), `strtoul` that of the C library with
-- base 0, and `before` the order of endpoints.
module _ (address : Bytes → Option ℕ) (strtoul : Bytes → ℕ)
    (before : ServiceId → ServiceId → Bool) where
  unfoldable pub str_to_service_id : Bytes → Run (Option ServiceId)
  unfolding split_at
  str_to_service_id endpoint = elim (split_at colon endpoint) [
    | none ↦ ok none
    | some (ip, rest) ↦ (do a ← deref (address ip); ok (some (a, strtoul rest % 2 ^ 16)))
  ]

  -- `std::set::insert` under `instance_info_compare`: the instance that came first stays.
  unfoldable pub insert_instance : InstanceInfo → List InstanceInfo → List InstanceInfo
  insert_instance x [] = x ∷ []
  insert_instance x (y ∷ ys) =
      let rest = insert_instance x ys in
      if before x.service_id y.service_id
      then x ∷ y ∷ ys
      else if before y.service_id x.service_id
      then y ∷ rest
      else y ∷ ys

  -- The loop of `strings_to_instances` with the set so far.
  unfoldable pub collect_instances : List InstanceInfo → List Bytes → Run (List InstanceInfo)
  unfolding insert_instance str_to_service_id service_version_of
  collect_instances set [] = ok set
  collect_instances set (si ∷ sis) = do
    service_id ← str_to_service_id si
    elim service_id [
      | none ↦ collect_instances set sis
      | some id ↦
          collect_instances
            (insert_instance (record { service_id = id; version = service_version_of si }) set) sis
    ]

  unfoldable pub strings_to_instances : List Bytes → Run (List InstanceInfo)
  unfolding collect_instances
  strings_to_instances strings = collect_instances [] strings
