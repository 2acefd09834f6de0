-- ===== src/Examples/Thrift/Objects.antt =====
-- Witnesses for comparing and changing the objects of a struct.
use msgrpc.Base.{◌≡◌, refl, true, [], ◌==◌, arith}
use msgrpc.Thrift.{t_i32, t_struct, default}
use msgrpc.Thrift.Codec.{write}
use msgrpc.Thrift.Codec.Writable.{AreWritable}
use msgrpc.Thrift.Objects.{
  FieldOf, first_optional, behind_required, set_field, set_field-AreWritable,
}
use msgrpc.Thrift.Objects.Compare.{equal, equal-write}
use msgrpc.Examples.Thrift.{plain_protocol, request_foo, less, unset}

same_foo :
    equal (λ a b. a == b) (t_struct [] request_foo) (97, (unset 5, tt)) (97, (unset 6, tt)) ≡ true
unfolding equal
same_foo = refl

ok_foo : AreWritable less request_foo (97, (unset 0, tt))
unfolding default
ok_foo = ground arith

-- A field without value that holds another number: the objects compare equal.
equal-write_example :
    write plain_protocol (t_struct [] request_foo) 0 (97, (unset 5, tt))
    ≡ write plain_protocol (t_struct [] request_foo) 0 (97, (unset 6, tt))
equal-write_example =
    equal-write plain_protocol (λ a b. a == b) (t_struct [] request_foo) 0 (97, (unset 5, tt))
      (97, (unset 6, tt)) (tt, (tt, tt)) same_foo

abbrev number : FieldOf request_foo t_i32
number = behind_required first_optional

set_field-AreWritable_example :
    AreWritable less request_foo (set_field number 7 (97, (unset 0, tt)))
set_field-AreWritable_example =
    set_field-AreWritable less number 7 (97, (unset 0, tt)) (omega arith) ok_foo
