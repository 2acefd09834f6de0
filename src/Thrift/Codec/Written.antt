-- ===== src/Thrift/Codec/Written.antt =====
-- The fields of a struct, as they are written, are read in turn.
use msgrpc.Base.{
  ℕ, zero, suc, ◌<◌, ◌≡◌, refl, sym, ap, subst, inl, inr, Bool, true, false, ◌++◌, ok, length,
  length-append, arith, Bool-cases,
}
use msgrpc.Msg.{Bytes}
use msgrpc.Thrift.{
  TypeT, Fields, end, required, optional, code, Slot, Value, Object, default, default_object,
}
use msgrpc.Thrift.Protocol.{Reader, ◌<+>◌, Protocol}
use msgrpc.Thrift.Protocol.Laws.{<+>-eq-ok, Reads, Reads-bind, Lawful}
use msgrpc.Thrift.Codec.{
  write, write_fields, read_struct, read_field, field_loop, Received, none_received, mark,
  with_rounds,
}
use msgrpc.Thrift.Codec.Writable.{code-IsHeader, AreFields, AreWritable}
use msgrpc.Thrift.Codec.Loops.{
  AllReturn, marked, Serves, field_loop-stop, Serves-tail, Serves-tail_optional, read_field_head,
  read_field_head_optional, finish, field_loop-field, field_parts,
}

module _ (p : Protocol) (lawful : Lawful p) (less : (t : TypeT) → Value t → Value t → Bool) where
  field_loop-write_fields :
      {S : Type 0} (fs : Fields) (depth : ℕ) (v : Object fs) (all : ℕ → ℕ → S → Reader S)
      (lift : Object fs → Received → S) (got : Received) (rounds : ℕ) (bs : Bytes)
      → AreFields fs
      → AllReturn p lawful less fs depth
      → AreWritable less fs v
      → Serves p lawful less fs depth all lift
      → write_fields p fs depth v ≡ ok bs
      → length bs < rounds
      → Reads (field_loop p rounds all (lift (default_object fs) got)) bs (lift v (marked fs got))
  unfolding write default
  field_loop-write_fields end depth v all lift got zero bs form ih ok_v serves e enough =
      elim enough [ ]
  field_loop-write_fields (required fid name t fs) depth v all lift got zero bs form ih ok_v serves
        e enough =
      elim enough [ ]
  field_loop-write_fields (optional fid name t fs) depth v all lift got zero bs form ih ok_v serves
        e enough =
      elim enough [ ]
  field_loop-write_fields end depth v all lift got (suc k) bs form ih ok_v serves e enough =
      subst (λ x. Reads (field_loop p (suc k) all (lift v got)) x (lift v got)) (cc)
        (field_loop-stop p lawful less all (lift v got) k)
  field_loop-write_fields (required fid name t fs) depth (v, o) all lift got (suc k) bs
        (small, new, form, forms) (ret, rets) (ok_v, ok_o) serves e enough =
      let (vs, rest, ev, er, eq, shorter) =
        field_parts p lawful less name t fid depth v (write_fields p fs depth o) bs e in
      subst
        (λ x.
          Reads (field_loop p (suc k) all (lift (default t, default_object fs) got)) x
            (lift (v, o) (marked fs (mark fid got))))
        (sym eq)
        (field_loop-field p lawful less all (lift (default t, default_object fs) got)
          (lift (v, default_object fs) (mark fid got)) (lift (v, o) (marked fs (mark fid got))) k
          name (code t) fid vs rest (code-IsHeader t fid small)
          (serves (code t) fid (λ h. h.0 refl) _ _ got (mark fid got) vs
            (read_field_head p lawful less fid name t fs depth v (default_object fs) got vs
              (ret v ok_v vs ev)))
          (field_loop-write_fields fs depth o all (λ o'. lift (v, o')) (mark fid got) k rest forms
            rets ok_o (Serves-tail p lawful less fid name t fs depth v all lift new serves) er
            (omega arith)))
  field_loop-write_fields (optional fid name t fs) depth (slot, o) all lift got (suc k) bs
        (small, new, form, forms) (ret, rets) (ok_v, ok_o) serves e enough =
      let unset : Slot (Value t) = record { value = default t; isset = false } in
      let Goal : Slot (Value t) → Type 0 = λ s.
        Reads (field_loop p (suc k) all (lift (unset, default_object fs) got)) bs
          (lift (s, o) (marked fs got)) in
      elim (Bool-cases slot.isset) [
        | inl is_set ↦
            let set_slot : Slot (Value t) = record { value = slot.value; isset = true } in
            let (vs, rest, ev, er, eq, shorter) =
              field_parts p lawful less name t fid depth slot.value (write_fields p fs depth o) bs
                (rw is_set at e) in
            subst Goal (λ i. record { value = slot.value; isset = sym is_set i })
              (subst
                (λ x.
                  Reads (field_loop p (suc k) all (lift (unset, default_object fs) got)) x
                    (lift (set_slot, o) (marked fs got)))
                (sym eq)
                (field_loop-field p lawful less all (lift (unset, default_object fs) got)
                  (lift (set_slot, default_object fs) got) (lift (set_slot, o) (marked fs got)) k
                  name (code t) fid vs rest (code-IsHeader t fid small)
                  (serves (code t) fid (λ h. h.0 refl) _ _ got got vs
                    (read_field_head_optional p lawful less fid name t fs depth slot.value
                      (default_object fs) got vs (ret slot.value (ok_v.0 is_set) vs ev)))
                  (field_loop-write_fields fs depth o all (λ o'. lift (set_slot, o')) got k rest
                    forms rets ok_o
                    (Serves-tail_optional p lawful less fid name t fs depth set_slot all lift new
                      serves)
                    er (omega arith))))
        | inr is_unset ↦
            subst Goal (λ i. record { value = sym (ok_v.1 is_unset) i; isset = sym is_unset i })
              (field_loop-write_fields fs depth o all (λ o'. lift (unset, o')) got (suc k) bs forms
                rets ok_o
                (Serves-tail_optional p lawful less fid name t fs depth unset all lift new serves)
                (rw is_unset at e) enough)
      ]

  pub read_struct-write_fields :
      (name : Bytes) (fs : Fields) (depth : ℕ) (v : Object fs) (bs : Bytes)
      → AreFields fs
      → AllReturn p lawful less fs depth
      → AreWritable less fs v
      → (ok (p.write_struct_begin name) <+> (write_fields p fs depth v <+> ok p.write_struct_end))
        ≡ ok bs
      → Reads (with_rounds (read_struct p fs (read_field p less fs depth) (default_object fs))) bs v
  unfolding read_struct
  read_struct-write_fields name fs depth v bs form ih ok_v e rest =
      let (b, r1, eb, e1, eq1) =
        <+>-eq-ok (ok (p.write_struct_begin name))
          (write_fields p fs depth v <+> ok p.write_struct_end) e in
      let (body, c, e_body, ec, eq2) =
        <+>-eq-ok (write_fields p fs depth v) (ok p.write_struct_end) e1 in
      let whole : bs ≡ p.write_struct_begin name ++ (body ++ p.write_struct_end) = cc in
      let rounds : ℕ = suc (length (bs ++ rest)) in
      let enough : length body < rounds = omega (
        arith,
        ap (λ x. length x) whole,
        length-append bs rest,
        length-append (p.write_struct_begin name) (body ++ p.write_struct_end),
        length-append body p.write_struct_end,
      ) in
      let all = read_field p less fs depth in
      let result : Reads (read_struct p fs all (default_object fs) rounds)
          (p.write_struct_begin name ++ (body ++ p.write_struct_end)) v =
        Reads-bind p.read_struct_begin _ (p.write_struct_begin name) (body ++ p.write_struct_end) tt
          v (lawful.struct_begin_reads name)
          (Reads-bind (field_loop p rounds all (default_object fs, none_received)) _ body
            p.write_struct_end (v, marked fs none_received) v
            (field_loop-write_fields fs depth v all (λ o got. (o, got)) none_received rounds body
              form ih ok_v (λ ftype fid has o o' got got' bs' reads. reads) e_body enough)
            (finish p lawful less fs v)) in
      subst (λ x. Reads (read_struct p fs all (default_object fs) rounds) x v) (sym whole) result
        rest
