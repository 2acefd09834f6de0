-- ===== src/Thrift/Codec/Evolution/Versions.antt =====
-- What one version of a struct wrote, another reads.
use msgrpc.Thrift.Codec.RoundTrip.{all_return}
use msgrpc.Thrift.{t_struct}
use msgrpc.Base.{
  fault, ◌+◌, ◌%◌, ◌^◌, ℕ, suc, ◌<◌, ◌≡◌, sym, ap, subst, inl, inr, Bool, ◌++◌, ok, length,
  length-append, arith, ==_ne, Bool-cases,
}
use msgrpc.Msg.{Bytes}
use msgrpc.Thrift.{TypeT, Fields, end, required, optional, Value, Object, default_object}
use msgrpc.Thrift.Protocol.{◌<+>◌, Protocol}
use msgrpc.Thrift.Protocol.Laws.{<+>-eq-ok, Reads, Reads-bind, Reads-map, Lawful}
use msgrpc.Thrift.Codec.{
  write, write_fields, read, read_struct, read_field, field_loop, Received, none_received,
  with_rounds,
}
use msgrpc.Thrift.Codec.Writable.{Lacks, AreFields, AreWritable}
use msgrpc.Thrift.Codec.Loops.{marked, finish}
use msgrpc.Thrift.Codec.Evolution.{Evolves, seen, DroppedAreSkipped}
use msgrpc.Thrift.Codec.Evolution.Rounds.{field_loop-evolved}

ok_not_fault : (bs : Bytes) → ok bs ≡ fault → ⊥
ok_not_fault bs e = cc

module _ (p : Protocol) (lawful : Lawful p) (less : (t : TypeT) → Value t → Value t → Bool) where
  -- A field whose id no field has is skipped by `read_field`.
  read_field-Lacks :
      (fs : Fields) (depth ftype fid : ℕ) (s : Object fs × Received) (bs : Bytes)
      → Lacks fid fs
      → Reads (p.skip ftype) bs tt
      → Reads (read_field p less fs depth ftype fid s) bs s
  unfolding read
  read_field-Lacks end depth ftype fid s bs other skip =
      Reads-map (p.skip ftype) (λ _. s) bs tt skip
  read_field-Lacks (required f name t fs) depth ftype fid ((v, o), got) bs (other, others) skip =
      rw (==_ne fid f other) (
        Reads-map (read_field p less fs depth ftype fid (o, got)) (λ s. ((v, s.0), s.1)) bs (o, got)
          (read_field-Lacks fs depth ftype fid (o, got) bs others skip))
  read_field-Lacks (optional f name t fs) depth ftype fid ((slot, o), got) bs (other, others) skip =
      rw (==_ne fid f other) (
        Reads-map (read_field p less fs depth ftype fid (o, got)) (λ s. ((slot, s.0), s.1)) bs
          (o, got) (read_field-Lacks fs depth ftype fid (o, got) bs others skip))

  read_struct-evolved :
      (name : Bytes) {fs fs' : Fields} (e : Evolves fs' fs fs') (depth : ℕ) (v : Object fs)
      (bs : Bytes)
      → AreFields fs'
      → AreWritable less fs v
      → DroppedAreSkipped p less e depth
      → (ok (p.write_struct_begin name) <+> (write_fields p fs depth v <+> ok p.write_struct_end))
        ≡ ok bs
      → Reads
          (with_rounds (read_struct p fs' (read_field p less fs' depth) (default_object fs')))
          bs
          (seen e v)
  unfolding read_struct
  read_struct-evolved name {fs} {fs'} e depth v bs form ok_v skips written rest =
      let (b, r1, eb, e1, eq1) =
        <+>-eq-ok (ok (p.write_struct_begin name))
          (write_fields p fs depth v <+> ok p.write_struct_end) written in
      let (body, c, e_body, ec, eq2) =
        <+>-eq-ok (write_fields p fs depth v) (ok p.write_struct_end) e1 in
      let whole : bs ≡ p.write_struct_begin name ++ (body ++ p.write_struct_end) = cc in
      let rounds : ℕ = suc (length (bs ++ rest)) in
      let enough : length body < rounds = omega (
        arith,
        ap (λ x. length x) whole,
        length-append bs rest,
        length-append (p.write_struct_begin name) (body ++ p.write_struct_end),
        length-append body p.write_struct_end,
      ) in
      let all = read_field p less fs' depth in
      let result : Reads (read_struct p fs' all (default_object fs') rounds)
          (p.write_struct_begin name ++ (body ++ p.write_struct_end)) (seen e v) =
        Reads-bind p.read_struct_begin _ (p.write_struct_begin name) (body ++ p.write_struct_end) tt
          (seen e v) (lawful.struct_begin_reads name)
          (Reads-bind (field_loop p rounds all (default_object fs', none_received)) _ body
            p.write_struct_end (seen e v, marked fs' none_received) (seen e v)
            (field_loop-evolved p lawful less fs' depth e v all (λ o got. (o, got)) none_received
              rounds body form (all_return p lawful less fs' depth form) ok_v skips
              (λ ftype fid has o o' got got' bs' reads. reads)
              (λ ftype fid s bs' other skip. read_field-Lacks fs' depth ftype fid s bs' other skip)
              e_body enough)
            (finish p lawful less fs' (seen e v))) in
      subst (λ x. Reads (read_struct p fs' all (default_object fs') rounds) x (seen e v))
        (sym whole) result rest

  -- A struct that one version wrote is read by another that has dropped some of its fields and added
  -- optional ones: the fields that both know have their values, those added have none, whatever
  -- bytes follow. The value can be written; the ids of the reader's fields differ and are below 2^15,
  -- as those of the dropped fields are, none of which the reader uses for another field; the protocol
  -- reads back what it writes, and its `skip` takes the values of the dropped fields.
  pub read-evolved :
      (name name' : Bytes) {fs fs' : Fields} (e : Evolves fs' fs fs') (depth : ℕ) (v : Object fs)
      (bs rest : Bytes)
      → AreFields fs'
      → AreWritable less fs v
      → DroppedAreSkipped p less e (depth + 1)
      → write p (t_struct name fs) depth v ≡ ok bs
      → read p less (t_struct name' fs') depth (default_object fs') (bs ++ rest)
        ≡ ok (seen e v, length bs % 2 ^ 32, rest)
  unfolding write read
  read-evolved name name' {fs} {fs'} e depth v bs rest form ok_v skips written =
      elim (Bool-cases (p.may_nest depth)) [
        | inl allowed ↦ rw allowed (
            read_struct-evolved name e (depth + 1) v bs form ok_v skips (rw allowed at written)
              rest)
        | inr too_deep ↦ absurd (ok_not_fault bs (sym (rw too_deep at written)))
      ]
