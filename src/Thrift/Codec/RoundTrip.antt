-- ===== src/Thrift/Codec/RoundTrip.antt =====
-- What the types and structs write, they read again.
use msgrpc.Base.{
  ℕ, ◌+◌, ◌%◌, ◌^◌, ◌<◌, ◌≡◌, inl, inr, Bool, List, [], ◌∷◌, ◌++◌, Run, ok, length, arith,
  Bool-cases,
}
use msgrpc.Msg.{Bytes}
use msgrpc.Thrift.{
  TypeT, t_bool, t_byte, t_i16, t_i32, t_i64, t_double, t_string, t_binary, t_list, t_set, t_map,
  t_struct, Fields, end, required, optional, code, Value, default,
}
use msgrpc.Thrift.Protocol.{Reader, ◌>>=◌, return, ◌<+>◌, Protocol}
use msgrpc.Thrift.Protocol.Laws.{Reads, Inverts, Inverts-ok, Inverts-bind, Inverts-map, Lawful}
use msgrpc.Thrift.Codec.{read_many, read_into_set, read_into_map, write, read, write_all}
use msgrpc.Thrift.Codec.Writable.{code-bound, All, IsType, AreFields, IsWritable}
use msgrpc.Thrift.Codec.Containers.{
  read_many-write_all, read_into_set-write_all, read_into_map-write_all,
}
use msgrpc.Thrift.Codec.Loops.{Returns, AllReturn}
use msgrpc.Thrift.Codec.Written.{read_struct-write_fields}

All-map :
    {A : Type 0} {P Q : A → Type 0} (xs : List A) → ((a : A) → P a → Q a) → All P xs → All Q xs
All-map [] f h = tt
All-map (x ∷ xs) f (h, hs) = (f x h, All-map xs f hs)

mod_small : (n : ℕ) → n < 2 ^ 31 → n % 2 ^ 32 ≡ n
mod_small n h = omega arith

module _ (p : Protocol) (lawful : Lawful p) (less : (t : TypeT) → Value t → Value t → Bool) where
  container :
      {H A : Type 0} (read_begin : Reader H) (read_end : Reader (Unit {0})) (loop : H → Reader A)
      (first last : Bytes) (h : H) (out : Run Bytes) (v : A)
      → Reads read_begin first h
      → Inverts out (loop h) v
      → Reads read_end last tt
      → Inverts
          (ok first <+> (out <+> ok last))
          (read_begin >>= λ x. loop x >>= λ y. read_end >>= λ _. return y)
          v
  container read_begin read_end loop first last h out v begins inverts ends =
      Inverts-bind (ok first) (out <+> ok last) read_begin _ h v
        (Inverts-ok read_begin first h begins)
        (Inverts-bind out (ok last) (loop h) _ v v inverts
          (Inverts-map (ok last) read_end (λ _. v) tt (Inverts-ok read_end last tt ends)))

  mutual
    unfolding write read default

    every_type : (t : TypeT) (depth : ℕ) → IsType t → Returns p lawful less t depth
    every_type t_bool depth form v ok_v =
        Inverts-ok p.read_bool (p.write_bool v) v (lawful.bool_reads v)
    every_type t_byte depth form v ok_v =
        Inverts-ok p.read_byte (p.write_byte v) v (lawful.byte_reads v ok_v)
    every_type t_i16 depth form v ok_v =
        Inverts-ok p.read_i16 (p.write_i16 v) v (lawful.i16_reads v ok_v)
    every_type t_i32 depth form v ok_v =
        Inverts-ok p.read_i32 (p.write_i32 v) v (lawful.i32_reads v ok_v)
    every_type t_i64 depth form v ok_v =
        Inverts-ok p.read_i64 (p.write_i64 v) v (lawful.i64_reads v ok_v)
    every_type t_double depth form v ok_v =
        Inverts-ok p.read_double (p.write_double v) v (lawful.double_reads v ok_v)
    every_type t_string depth form v ok_v =
        Inverts-ok p.read_string (p.write_string v) v (lawful.string_reads v ok_v)
    every_type t_binary depth form v ok_v =
        Inverts-ok p.read_binary (p.write_string v) v (lawful.binary_reads v ok_v)
    every_type (t_list t) depth form v (small, ok_v) = rw (mod_small (length v) small) (
        container p.read_list_begin p.read_list_end
          (λ h. read_many h.1 (read p less t depth (default t)))
          (p.write_list_begin (code t) (length v)) p.write_list_end (code t, length v)
          (write_all (write p t depth) v) v
          (lawful.list_begin_reads (code t) (length v) (code-bound t) small)
          (read_many-write_all (write p t depth) (read p less t depth (default t)) v
            (All-map v (λ x ok_x. every_type t depth form x ok_x) ok_v))
          lawful.list_end_reads)
    every_type (t_set t) depth form v (small, ok_v, order) = rw (mod_small (length v) small) (
        container p.read_set_begin p.read_set_end
          (λ h. read_into_set (less t) h.1 (read p less t depth (default t)) [])
          (p.write_set_begin (code t) (length v)) p.write_set_end (code t, length v)
          (write_all (write p t depth) v) v
          (lawful.set_begin_reads (code t) (length v) (code-bound t) small)
          (read_into_set-write_all (less t) (write p t depth) (read p less t depth (default t)) [] v
            (All-map v (λ x ok_x. every_type t depth form x ok_x) ok_v) order)
          lawful.set_end_reads)
    every_type (t_map k u) depth (form_k, form_u) v (small, ok_v, order) =
        rw (mod_small (length v) small) (
          container p.read_map_begin p.read_map_end
            (λ h.
              read_into_map (less k) (default u) h.2 (read p less k depth (default k))
                (read p less u depth) [])
            (p.write_map_begin (code k) (code u) (length v)) p.write_map_end
            (code k, code u, length v)
            (write_all (λ e. write p k depth e.0 <+> write p u depth e.1) v) v
            (lawful.map_begin_reads (code k) (code u) (length v) (code-bound k) (code-bound u)
              small)
            (read_into_map-write_all (less k) (default u) (write p k depth) (write p u depth)
              (read p less k depth (default k)) (read p less u depth) [] v
              (All-map v
                (λ e ok_e.
                  (every_type k depth form_k e.0 ok_e.0, every_type u depth form_u e.1 ok_e.1))
                ok_v)
              order)
            lawful.map_end_reads)
    every_type (t_struct name fs) depth form v ok_v = elim (Bool-cases (p.may_nest depth)) [
      | inl allowed ↦ rw allowed (λ bs e.
          read_struct-write_fields p lawful less name fs (depth + 1) v bs form
            (all_return fs (depth + 1) form) ok_v e)
      | inr too_deep ↦ rw too_deep (λ bs e. cc)
    ]

    pub all_return : (fs : Fields) (depth : ℕ) → AreFields fs → AllReturn p lawful less fs depth
    all_return end depth form = tt
    all_return (required fid name t fs) depth (small, new, form, forms) =
        (every_type t depth form, all_return fs depth forms)
    all_return (optional fid name t fs) depth (small, new, form, forms) =
        (every_type t depth form, all_return fs depth forms)

  -- A value that can be written is read back from its bytes, whatever follows them, into a fresh value
  -- of its type, and the count that is reported is their length.
  pub read-write :
      (t : TypeT) (depth : ℕ) (v : Value t) (bs rest : Bytes)
      → IsType t
      → IsWritable less t v
      → write p t depth v ≡ ok bs
      → read p less t depth (default t) (bs ++ rest) ≡ ok (v, length bs % 2 ^ 32, rest)
  read-write t depth v bs rest form ok_v e = every_type t depth form v ok_v bs e rest
