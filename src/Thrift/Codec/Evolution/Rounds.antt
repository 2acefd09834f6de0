-- ===== src/Thrift/Codec/Evolution/Rounds.antt =====
-- The rounds of the loop of one version on the fields that another wrote.
use msgrpc.Base.{
  ◌^◌, ℕ, zero, suc, ◌<◌, ◌≡◌, refl, sym, subst, inl, inr, Bool, true, false, ok, length, arith,
  Bool-cases,
}
use msgrpc.Msg.{Bytes}
use msgrpc.Thrift.{TypeT, Fields, code, Slot, Value, Object, default, default_object}
use msgrpc.Thrift.Protocol.{Reader, ◌<+>◌, Protocol}
use msgrpc.Thrift.Protocol.Laws.{Reads, Lawful}
use msgrpc.Thrift.Codec.{write, write_fields, field_loop, Received, mark}
use msgrpc.Thrift.Codec.Writable.{code-IsHeader, Lacks, AreFields, IsWritable, AreWritable}
use msgrpc.Thrift.Codec.Loops.{
  AllReturn, marked, Serves, field_loop-stop, Serves-tail, Serves-tail_optional, read_field_head,
  read_field_head_optional, field_loop-field, field_parts,
}
use msgrpc.Thrift.Codec.Evolution.{
  Evolves, done, keep_required, keep_optional, drop_required, drop_optional, add_optional, seen,
  IsSkipped, DroppedAreSkipped,
}

module _ (p : Protocol) (lawful : Lawful p) (less : (t : TypeT) → Value t → Value t → Bool)
    (reader : Fields) (depth : ℕ) where
  -- A field whose id the reader has not is skipped.
  abbrev pub Passes : {S : Type 0} → (ℕ → ℕ → S → Reader S) → Type 0
  Passes {S} all =
      (ftype fid : ℕ) (s : S) (bs : Bytes)
      → Lacks fid reader
      → Reads (p.skip ftype) bs tt
      → Reads (all ftype fid s) bs s

  -- A round for a field that is dropped.
  skipped :
      {S : Type 0} {fs fs' : Fields} (e : Evolves reader fs fs') (fid : ℕ) (name : Bytes)
      (t : TypeT)
      → Lacks fid reader
      → fid < 2 ^ 15
      → (v : Value t) (o : Object fs) (all : ℕ → ℕ → S → Reader S)
        (lift : Object fs' → Received → S) (got : Received) (k : ℕ) (bs : Bytes)
      → IsWritable less t v
      → IsSkipped p less t depth
      → Passes all
      → (ok (p.write_field_begin name (code t) fid)
          <+> (write p t depth v <+> (ok p.write_field_end <+> write_fields p fs depth o)))
        ≡ ok bs
      → ((rest : Bytes)
          → write_fields p fs depth o ≡ ok rest
          → length rest < length bs
          → Reads
              (field_loop p k all (lift (default_object fs') got))
              rest
              (lift (seen e o) (marked fs' got)))
      → Reads
          (field_loop p (suc k) all (lift (default_object fs') got))
          bs
          (lift (seen e o) (marked fs' got))
  skipped {S} {fs} {fs'} e fid name t other small v o all lift got k bs ok_v skip passes written
        tail =
      let (vs, rest, ev, er, eq, shorter) =
        field_parts p lawful less name t fid depth v (write_fields p fs depth o) bs written in
      let s = lift (default_object fs') got in
      let final = lift (seen e o) (marked fs' got) in
      subst (λ x. Reads (field_loop p (suc k) all s) x final) (sym eq)
        (field_loop-field p lawful less all s s final k name (code t) fid vs rest
          (code-IsHeader t fid small) (passes (code t) fid s vs other (skip v vs ok_v ev))
          (tail rest er shorter))

  pub field_loop-evolved :
      {S : Type 0} {fs fs' : Fields} (e : Evolves reader fs fs') (v : Object fs)
      (all : ℕ → ℕ → S → Reader S) (lift : Object fs' → Received → S) (got : Received) (rounds : ℕ)
      (bs : Bytes)
      → AreFields fs'
      → AllReturn p lawful less fs' depth
      → AreWritable less fs v
      → DroppedAreSkipped p less e depth
      → Serves p lawful less fs' depth all lift
      → Passes all
      → write_fields p fs depth v ≡ ok bs
      → length bs < rounds
      → Reads
          (field_loop p rounds all (lift (default_object fs') got))
          bs
          (lift (seen e v) (marked fs' got))
  unfolding write default
  field_loop-evolved done v all lift got zero bs form ih ok_v skips serves passes written enough =
      elim enough [ ]
  field_loop-evolved (keep_required fid name name' t e) v all lift got zero bs form ih ok_v skips
        serves passes written enough =
      elim enough [ ]
  field_loop-evolved (keep_optional fid name name' t e) v all lift got zero bs form ih ok_v skips
        serves passes written enough =
      elim enough [ ]
  field_loop-evolved (drop_required fid name t other e) v all lift got zero bs form ih ok_v skips
        serves passes written enough =
      elim enough [ ]
  field_loop-evolved (drop_optional fid name t other e) v all lift got zero bs form ih ok_v skips
        serves passes written enough =
      elim enough [ ]
  field_loop-evolved (add_optional fid name t e) v all lift got zero bs form ih ok_v skips serves
        passes written enough =
      elim enough [ ]
  field_loop-evolved done v all lift got (suc k) bs form ih ok_v skips serves passes written
        enough =
      subst (λ x. Reads (field_loop p (suc k) all (lift v got)) x (lift v got)) (cc)
        (field_loop-stop p lawful less all (lift v got) k)
  field_loop-evolved (keep_required fid name name' t {fs} {fs'} e) (v, o) all lift got (suc k) bs
        (small, new, form, forms) (ret, rets) (ok_v, ok_o) skips serves passes written enough =
      let (vs, rest, ev, er, eq, shorter) =
        field_parts p lawful less name t fid depth v (write_fields p fs depth o) bs written in
      subst
        (λ x.
          Reads (field_loop p (suc k) all (lift (default t, default_object fs') got)) x
            (lift (v, seen e o) (marked fs' (mark fid got))))
        (sym eq)
        (field_loop-field p lawful less all (lift (default t, default_object fs') got)
          (lift (v, default_object fs') (mark fid got))
          (lift (v, seen e o) (marked fs' (mark fid got))) k name (code t) fid vs rest
          (code-IsHeader t fid small)
          (serves (code t) fid (λ h. h.0 refl) _ _ got (mark fid got) vs
            (read_field_head p lawful less fid name' t fs' depth v (default_object fs') got vs
              (ret v ok_v vs ev)))
          (field_loop-evolved e o all (λ o'. lift (v, o')) (mark fid got) k rest forms rets ok_o
            skips (Serves-tail p lawful less fid name' t fs' depth v all lift new serves) passes er
            (omega arith)))
  field_loop-evolved (keep_optional fid name name' t {fs} {fs'} e) (slot, o) all lift got (suc k) bs
        (small, new, form, forms) (ret, rets) (ok_v, ok_o) skips serves passes written enough =
      let unset : Slot (Value t) = record { value = default t; isset = false } in
      let Goal : Slot (Value t) → Type 0 = λ s.
        Reads (field_loop p (suc k) all (lift (unset, default_object fs') got)) bs
          (lift (s, seen e o) (marked fs' got)) in
      elim (Bool-cases slot.isset) [
        | inl is_set ↦
            let set_slot : Slot (Value t) = record { value = slot.value; isset = true } in
            let (vs, rest, ev, er, eq, shorter) =
              field_parts p lawful less name t fid depth slot.value (write_fields p fs depth o) bs
                (rw is_set at written) in
            subst Goal (λ i. record { value = slot.value; isset = sym is_set i })
              (subst
                (λ x.
                  Reads (field_loop p (suc k) all (lift (unset, default_object fs') got)) x
                    (lift (set_slot, seen e o) (marked fs' got)))
                (sym eq)
                (field_loop-field p lawful less all (lift (unset, default_object fs') got)
                  (lift (set_slot, default_object fs') got)
                  (lift (set_slot, seen e o) (marked fs' got)) k name (code t) fid vs rest
                  (code-IsHeader t fid small)
                  (serves (code t) fid (λ h. h.0 refl) _ _ got got vs
                    (read_field_head_optional p lawful less fid name' t fs' depth slot.value
                      (default_object fs') got vs (ret slot.value (ok_v.0 is_set) vs ev)))
                  (field_loop-evolved e o all (λ o'. lift (set_slot, o')) got k rest forms rets ok_o
                    skips
                    (Serves-tail_optional p lawful less fid name' t fs' depth set_slot all lift new
                      serves)
                    passes er (omega arith))))
        | inr is_unset ↦
            subst Goal (λ i. record { value = sym (ok_v.1 is_unset) i; isset = sym is_unset i })
              (field_loop-evolved e o all (λ o'. lift (unset, o')) got (suc k) bs forms rets ok_o
                skips
                (Serves-tail_optional p lawful less fid name' t fs' depth unset all lift new serves)
                passes (rw is_unset at written) enough)
      ]
  field_loop-evolved (drop_required fid name t {fs} {fs'} other e) (v, o) all lift got (suc k) bs
        form ih (ok_v, ok_o) (small, skip, skips) serves passes written enough =
      skipped e fid name t other small v o all lift got k bs ok_v skip passes written
        (λ rest er shorter.
          field_loop-evolved e o all lift got k rest form ih ok_o skips serves passes er
            (omega arith))
  field_loop-evolved (drop_optional fid name t {fs} {fs'} other e) (slot, o) all lift got (suc k) bs
        form ih (ok_v, ok_o) (small, skip, skips) serves passes written enough =
      elim (Bool-cases slot.isset) [
        | inl is_set ↦
            skipped e fid name t other small slot.value o all lift got k bs (ok_v.0 is_set) skip
              passes (rw is_set at written)
              (λ rest er shorter.
                field_loop-evolved e o all lift got k rest form ih ok_o skips serves passes er
                  (omega arith))
        | inr is_unset ↦
            field_loop-evolved e o all lift got (suc k) bs form ih ok_o skips serves passes
              (rw is_unset at written) enough
      ]
  field_loop-evolved (add_optional fid name t {fs} {fs'} e) o all lift got (suc k) bs
        (small, new, form, forms) (ret, rets) ok_o skips serves passes written enough =
      let unset : Slot (Value t) = record { value = default t; isset = false } in
      field_loop-evolved e o all (λ o'. lift (unset, o')) got (suc k) bs forms rets ok_o skips
        (Serves-tail_optional p lawful less fid name t fs' depth unset all lift new serves) passes
        written enough
