-- ===== src/Examples/Thrift/Evolution.antt =====
-- The KRsp of service_k, as service_z reads it.
use msgrpc.Base.{◌≡◌, refl, subst, ok, [], ◌∷◌, arith}
use msgrpc.Thrift.{t_i32, t_struct, Object, default_object}
use msgrpc.Thrift.Protocol.Laws.{Reads}
use msgrpc.Thrift.Codec.{read, write}
use msgrpc.Thrift.Codec.Writable.{AreWritable}
use msgrpc.Thrift.Codec.Evolution.{Evolves, done, keep_required, drop_optional, IsSkipped}
use msgrpc.Thrift.Codec.Evolution.Versions.{read-evolved}
use msgrpc.Demo.{k_rsp}
use msgrpc.Demo.ServiceZ.{k_rsp_in_z}
use msgrpc.Examples.Thrift.{plain_protocol, skip_unit, less, given}
use msgrpc.Examples.Thrift.Codec.{plain_protocol-Lawful}

abbrev k_to_z : Evolves k_rsp_in_z k_rsp k_rsp_in_z
k_to_z = keep_required 1 [] [] t_i32 (drop_optional 2 [] t_i32 (omega arith) done)

abbrev krsp : Object k_rsp
krsp = (2016, (given 2017, tt))

i32-IsSkipped : IsSkipped plain_protocol less t_i32 1
unfolding write
i32-IsSkipped v bs small e =
    let same : v ∷ [] ≡ bs = cc in subst (λ x. Reads (skip_unit 8) x tt) same (λ rest. refl)

krsp_bytes :
    write plain_protocol (t_struct [] k_rsp) 0 krsp
    ≡ ok (1 ∷ 8 ∷ 1 ∷ 2016 ∷ 1 ∷ 8 ∷ 2 ∷ 2017 ∷ 0 ∷ [])
unfolding write
krsp_bytes = refl

krsp-AreWritable : AreWritable less k_rsp krsp
krsp-AreWritable = ground arith

read-evolved_example :
    read plain_protocol less
      (t_struct [] k_rsp_in_z)
      0
      (default_object k_rsp_in_z)
      (1 ∷ 8 ∷ 1 ∷ 2016 ∷ 1 ∷ 8 ∷ 2 ∷ 2017 ∷ 0 ∷ 5 ∷ [])
    ≡ ok ((2016, tt), 9, 5 ∷ [])
read-evolved_example =
    read-evolved plain_protocol plain_protocol-Lawful less [] [] k_to_z 0 krsp
      (1 ∷ 8 ∷ 1 ∷ 2016 ∷ 1 ∷ 8 ∷ 2 ∷ 2017 ∷ 0 ∷ []) (5 ∷ []) (omega arith) krsp-AreWritable
      (omega arith, i32-IsSkipped, tt) krsp_bytes
