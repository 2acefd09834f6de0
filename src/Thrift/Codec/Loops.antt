-- ===== src/Thrift/Codec/Loops.antt =====
-- The rounds of the loop that reads the fields of a struct.
use msgrpc.Base.{
  ℕ, suc, ◌<◌, ◌≡◌, refl, sym, subst, Bool, true, false, ◌++◌, Run, ok, length, length-append,
  arith, ==_self, ==_ne,
}
use msgrpc.Msg.{Bytes}
use msgrpc.Thrift.{TypeT, Fields, end, required, optional, code, Slot, Value, Object, default}
use msgrpc.Thrift.Protocol.{Reader, ◌>>=◌, ◌<+>◌, stop, field, Protocol}
use msgrpc.Thrift.Protocol.Laws.{
  IsHeader, Reads-last, <+>-eq-ok, Reads, Inverts, Reads-return, Reads-bind, Reads-map, Lawful,
}
use msgrpc.Thrift.Codec.{
  write, read, read_field, field_loop, all_received, check_received, Received, none_received, mark,
}
use msgrpc.Thrift.Codec.Writable.{Lacks, IsWritable}

-- The flags after all required fields were read.
abbrev pub marked : Fields → Received → Received
marked end got = got
marked (required fid name t fs) got = marked fs (mark fid got)
marked (optional fid name t fs) got = marked fs got

marked-keeps : (fs : Fields) (got : Received) (f : ℕ) → got f ≡ true → marked fs got f ≡ true
marked-keeps end got f h = h
marked-keeps (required fid name t fs) got f h = marked-keeps fs (mark fid got) f (ground arith)
marked-keeps (optional fid name t fs) got f h = marked-keeps fs got f h

all_received-marked : (fs : Fields) (got : Received) → all_received fs (marked fs got) ≡ true
unfolding all_received
all_received-marked end got = refl
all_received-marked (required fid name t fs) got =
    rw (marked-keeps fs (mark fid got) fid (rw ==_self refl), all_received-marked fs (mark fid got))
      refl
all_received-marked (optional fid name t fs) got = all_received-marked fs got

-- The id is that of one of the fields.
abbrev Has : ℕ → Fields → Type 0
Has fid fs = Lacks fid fs → ⊥

module _ (p : Protocol) (lawful : Lawful p) (less : (t : TypeT) → Value t → Value t → Bool) where
  -- `all` reads a field of `fs` as `read_field` does, within the object that `lift` builds.
  abbrev pub Serves :
      {S : Type 0} (fs : Fields) → ℕ → (ℕ → ℕ → S → Reader S) → (Object fs → Received → S) → Type 0
  Serves {S} fs depth all lift =
      (ftype fid : ℕ)
      → Has fid fs
      → (o o' : Object fs) (got got' : Received) (bs : Bytes)
      → Reads (read_field p less fs depth ftype fid (o, got)) bs (o', got')
      → Reads (all ftype fid (lift o got)) bs (lift o' got')

  -- Values of the type are read as they were written.
  abbrev pub Returns : TypeT → ℕ → Type 0
  Returns t depth =
      (v : Value t)
      → IsWritable less t v
      → Inverts (write p t depth v) (read p less t depth (default t)) v

  abbrev pub AllReturn : Fields → ℕ → Type 0
  AllReturn end depth = Unit
  AllReturn (required fid name t fs) depth = Returns t depth × AllReturn fs depth
  AllReturn (optional fid name t fs) depth = Returns t depth × AllReturn fs depth

  pub field_loop-stop :
      {S : Type 0} (all : ℕ → ℕ → S → Reader S) (s : S) (k : ℕ)
      → Reads (field_loop p (suc k) all s) p.write_field_stop s
  unfolding field_loop
  field_loop-stop all s k =
      Reads-last p.read_field_begin _ p.write_field_stop stop s lawful.field_stop_reads
        (Reads-return s)

  pub Serves-tail :
      {S : Type 0} (fid : ℕ) (name : Bytes) (t : TypeT) (fs : Fields) (depth : ℕ) (v : Value t)
      (all : ℕ → ℕ → S → Reader S) (lift : Object (required fid name t fs) → Received → S)
      → Lacks fid fs
      → Serves (required fid name t fs) depth all lift
      → Serves fs depth all (λ o. lift (v, o))
  unfolding read
  Serves-tail fid name t fs depth v all lift new serves ftype f has o o' got got' bs reads =
      serves ftype f (λ h. has h.1) (v, o) (v, o') got got' bs
        (rw (==_ne f fid (λ e. has (subst (λ x. Lacks x fs) (sym e) new))) (
          Reads-map (read_field p less fs depth ftype f (o, got)) (λ s. ((v, s.0), s.1)) bs
            (o', got') reads))

  pub Serves-tail_optional :
      {S : Type 0} (fid : ℕ) (name : Bytes) (t : TypeT) (fs : Fields) (depth : ℕ)
      (slot : Slot (Value t)) (all : ℕ → ℕ → S → Reader S)
      (lift : Object (optional fid name t fs) → Received → S)
      → Lacks fid fs
      → Serves (optional fid name t fs) depth all lift
      → Serves fs depth all (λ o. lift (slot, o))
  unfolding read
  Serves-tail_optional fid name t fs depth slot all lift new serves ftype f has o o' got got' bs
        reads =
      serves ftype f (λ h. has h.1) (slot, o) (slot, o') got got' bs
        (rw (==_ne f fid (λ e. has (subst (λ x. Lacks x fs) (sym e) new))) (
          Reads-map (read_field p less fs depth ftype f (o, got)) (λ s. ((slot, s.0), s.1)) bs
            (o', got') reads))

  pub read_field_head :
      (fid : ℕ) (name : Bytes) (t : TypeT) (fs : Fields) (depth : ℕ) (v : Value t) (o : Object fs)
      (got : Received) (bs : Bytes)
      → Reads (read p less t depth (default t)) bs v
      → Reads
          (read_field p less (required fid name t fs) depth (code t) fid ((default t, o), got))
          bs
          ((v, o), mark fid got)
  unfolding read
  read_field_head fid name t fs depth v o got bs reads =
      rw (==_self fid, ==_self (code t))
        (Reads-map (read p less t depth (default t)) (λ x. ((x, o), mark fid got)) bs v reads)

  pub read_field_head_optional :
      (fid : ℕ) (name : Bytes) (t : TypeT) (fs : Fields) (depth : ℕ) (v : Value t) (o : Object fs)
      (got : Received) (bs : Bytes)
      → Reads (read p less t depth (default t)) bs v
      → Reads
          (read_field p less
            (optional fid name t fs)
            depth
            (code t)
            fid
            ((record { value = default t; isset = false }, o), got))
          bs
          ((record { value = v; isset = true }, o), got)
  unfolding read
  read_field_head_optional fid name t fs depth v o got bs reads =
      rw (==_self fid, ==_self (code t))
        (Reads-map (read p less t depth (default t))
          (λ x. ((record { value = x; isset = true }, o), got)) bs v reads)

  pub finish :
      (fs : Fields) (v : Object fs)
      → Reads
          (p.read_struct_end >>= λ _.
            check_received p (all_received fs (marked fs none_received)) v)
          p.write_struct_end
          v
  unfolding check_received
  finish fs v =
      rw (all_received-marked fs none_received)
        (Reads-map p.read_struct_end (λ _. v) p.write_struct_end tt lawful.struct_end_reads)

  -- One round of the loop.
  pub field_loop-field :
      {S : Type 0} (all : ℕ → ℕ → S → Reader S) (s s' final : S) (k : ℕ) (name : Bytes)
      (ftype fid : ℕ) (vs rest : Bytes)
      → IsHeader ftype fid
      → Reads (all ftype fid s) vs s'
      → Reads (field_loop p k all s') rest final
      → Reads
          (field_loop p (suc k) all s)
          (p.write_field_begin name ftype fid ++ (vs ++ (p.write_field_end ++ rest)))
          final
  unfolding field_loop
  field_loop-field all s s' final k name ftype fid vs rest header head tail =
      Reads-bind p.read_field_begin _ (p.write_field_begin name ftype fid)
        (vs ++ (p.write_field_end ++ rest)) (field ftype fid) final
        (lawful.field_begin_reads name ftype fid header)
        (Reads-bind (all ftype fid s) _ vs (p.write_field_end ++ rest) s' final head (
          Reads-bind p.read_field_end (λ _. field_loop p k all s') p.write_field_end rest tt final
            lawful.field_end_reads tail))

  -- The bytes of one field and of those behind it.
  pub field_parts :
      (name : Bytes) (t : TypeT) (fid depth : ℕ) (v : Value t) (others : Run Bytes) (bs : Bytes)
      → (ok (p.write_field_begin name (code t) fid)
          <+> (write p t depth v <+> (ok p.write_field_end <+> others)))
        ≡ ok bs
      → (vs rest : Bytes) × (write p t depth v ≡ ok vs)
        × (others ≡ ok rest)
        × (bs ≡ p.write_field_begin name (code t) fid ++ (vs ++ (p.write_field_end ++ rest)))
        × (length rest < length bs)
  field_parts name t fid depth v others bs e =
      let (b, r1, eb, e1, eq1) =
        <+>-eq-ok (ok (p.write_field_begin name (code t) fid))
          (write p t depth v <+> (ok p.write_field_end <+> others)) e in
      let (vs, r2, ev, e2, eq2) =
        <+>-eq-ok (write p t depth v) (ok p.write_field_end <+> others) e1 in
      let (c, rest, ec, er, eq3) = <+>-eq-ok (ok p.write_field_end) others e2 in
      let whole : bs
          ≡ p.write_field_begin name (code t) fid ++ (vs ++ (p.write_field_end ++ rest)) =
        cc in
      (
        vs,
        rest,
        ev,
        er,
        whole,
        rw whole (
            omega (
              arith,
              length-append (p.write_field_begin name (code t) fid)
                  (vs ++ (p.write_field_end ++ rest)),
              length-append vs (p.write_field_end ++ rest),
              length-append p.write_field_end rest,
              lawful.field_begin_pos name (code t) fid,
            )),
      )
