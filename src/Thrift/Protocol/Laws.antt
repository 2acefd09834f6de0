-- ===== src/Thrift/Protocol/Laws.antt =====
-- What the protocol is relied on for: what a call writes, the matching call reads, and reports its
-- length. With readers and writers put together.
use msgrpc.Base.{
  ℕ, ◌%◌, ◌^◌, ◌<◌, ◌≡◌, refl, ap, subst, Bool, [], ◌++◌, Run, ok, fault, out_of_fuel, length,
  length-append, arith, append_assoc, append-nil,
}
use msgrpc.Msg.{Bytes}
use msgrpc.Thrift.Protocol.{Reader, ◌>>=◌, return, ◌<+>◌, stop, field, Protocol}

-- `m` reads `a` off `bs`, whatever follows, and reports their length.
abbrev pub Reads : {A : Type 0} → Reader A → Bytes → A → Type 0
Reads m bs a = (rest : Bytes) → m (bs ++ rest) ≡ ok (a, length bs % 2 ^ 32, rest)

-- What `out` writes, if it does not throw, `m` reads as `a`.
abbrev pub Inverts : {A : Type 0} → Run Bytes → Reader A → A → Type 0
Inverts out m a = (bs : Bytes) → out ≡ ok bs → Reads m bs a

-- What a field header can say: the type is a byte that is not T_STOP, the id an `int16_t`.
abbrev pub IsHeader : (ftype fid : ℕ) → Type 0
IsHeader ftype fid = (0 < ftype) × (ftype < 2 ^ 7) × (fid < 2 ^ 15)

-- Sizes are signed 32-bit numbers on the wire, and types signed bytes; integers and doubles have
-- their own widths.
pub record Lawful (p : Protocol) : Type 0 where
  pub bool_reads : (b : Bool) → Reads p.read_bool (p.write_bool b) b
  pub byte_reads : (n : ℕ) → n < 2 ^ 8 → Reads p.read_byte (p.write_byte n) n
  pub i16_reads : (n : ℕ) → n < 2 ^ 16 → Reads p.read_i16 (p.write_i16 n) n
  pub i32_reads : (n : ℕ) → n < 2 ^ 32 → Reads p.read_i32 (p.write_i32 n) n
  pub i64_reads : (n : ℕ) → n < 2 ^ 64 → Reads p.read_i64 (p.write_i64 n) n
  pub double_reads : (n : ℕ) → n < 2 ^ 64 → Reads p.read_double (p.write_double n) n
  pub string_reads : (s : Bytes) → length s < 2 ^ 31 → Reads p.read_string (p.write_string s) s
  pub binary_reads : (s : Bytes) → length s < 2 ^ 31 → Reads p.read_binary (p.write_string s) s
  pub list_begin_reads :
      (t n : ℕ) → t < 2 ^ 7 → n < 2 ^ 31 → Reads p.read_list_begin (p.write_list_begin t n) (t, n)
  pub set_begin_reads :
      (t n : ℕ) → t < 2 ^ 7 → n < 2 ^ 31 → Reads p.read_set_begin (p.write_set_begin t n) (t, n)
  pub map_begin_reads :
      (k t n : ℕ)
      → k < 2 ^ 7
      → t < 2 ^ 7
      → n < 2 ^ 31
      → Reads p.read_map_begin (p.write_map_begin k t n) (k, t, n)
  pub list_end_reads : Reads p.read_list_end p.write_list_end tt
  pub set_end_reads : Reads p.read_set_end p.write_set_end tt
  pub map_end_reads : Reads p.read_map_end p.write_map_end tt
  pub struct_begin_reads : (name : Bytes) → Reads p.read_struct_begin (p.write_struct_begin name) tt
  pub struct_end_reads : Reads p.read_struct_end p.write_struct_end tt
  pub field_begin_reads :
      (name : Bytes) (t f : ℕ)
      → IsHeader t f
      → Reads p.read_field_begin (p.write_field_begin name t f) (field t f)
  pub field_end_reads : Reads p.read_field_end p.write_field_end tt
  pub field_stop_reads : Reads p.read_field_begin p.write_field_stop stop
  pub field_begin_pos : (name : Bytes) (t f : ℕ) → 0 < length (p.write_field_begin name t f)
  pub field_stop_pos : 0 < length p.write_field_stop

module _ {A : Type 0} where
  pub Reads-return : (a : A) → Reads (return a) [] a
  Reads-return a rest = refl

  pub Reads-bind :
      {B : Type 0} (m : Reader A) (f : A → Reader B) (bs cs : Bytes) (a : A) (b : B)
      → Reads m bs a
      → Reads (f a) cs b
      → Reads (m >>= f) (bs ++ cs) b
  Reads-bind m f bs cs a b first second rest = rw (append_assoc bs cs rest) (
      rw (first (cs ++ rest), ◌>>=◌)
        (rw (second rest) (ap (λ n. ok (b, n, rest)) (omega (arith, length-append bs cs)))))

  -- A reader that ends by giving back what was read.
  pub Reads-map :
      {B : Type 0} (m : Reader A) (g : A → B) (bs : Bytes) (a : A)
      → Reads m bs a
      → Reads (m >>= λ x. return (g x)) bs (g a)
  Reads-map m g bs a first rest = rw (first rest, ◌>>=◌) (ap (λ n. ok (g a, n, rest)) (omega arith))

  pub Inverts-ok : (m : Reader A) (bs : Bytes) (a : A) → Reads m bs a → Inverts (ok bs) m a
  Inverts-ok m bs a reads cs e = subst (λ x. Reads m x a) (cc) reads

  pub Inverts-bind :
      {B : Type 0} (r s : Run Bytes) (m : Reader A) (f : A → Reader B) (a : A) (b : B)
      → Inverts r m a
      → Inverts s (f a) b
      → Inverts (r <+> s) (m >>= f) b
  Inverts-bind (ok bs) (ok cs) m f a b first second out e =
      subst (λ x. Reads (m >>= f) x b) (cc)
        (Reads-bind m f bs cs a b (first bs refl) (second cs refl))
  Inverts-bind (ok bs) fault m f a b first second out e = cc
  Inverts-bind (ok bs) out_of_fuel m f a b first second out e = cc
  Inverts-bind fault s m f a b first second out e = cc
  Inverts-bind out_of_fuel s m f a b first second out e = cc

  -- A reader that is done with the first thing it reads.
  pub Reads-last :
      {B : Type 0} (m : Reader A) (f : A → Reader B) (bs : Bytes) (a : A) (b : B)
      → Reads m bs a
      → Reads (f a) [] b
      → Reads (m >>= f) bs b
  Reads-last m f bs a b first second =
      subst (λ x. Reads (m >>= f) x b) (append-nil bs) (Reads-bind m f bs [] a b first second)

  pub Inverts-map :
      {B : Type 0} (r : Run Bytes) (m : Reader A) (g : A → B) (a : A)
      → Inverts r m a
      → Inverts r (m >>= λ x. return (g x)) (g a)
  Inverts-map r m g a h out e = Reads-map m g out a (h out e)

pub <+>-eq-ok :
    (r s : Run Bytes) {bs : Bytes}
    → (r <+> s) ≡ ok bs
    → (as_ cs : Bytes) × (r ≡ ok as_) × (s ≡ ok cs) × (bs ≡ as_ ++ cs)
<+>-eq-ok (ok x) (ok y) e = (x, y, refl, refl, cc)
<+>-eq-ok (ok x) fault e = cc
<+>-eq-ok (ok x) out_of_fuel e = cc
<+>-eq-ok fault s e = cc
<+>-eq-ok out_of_fuel s e = cc
