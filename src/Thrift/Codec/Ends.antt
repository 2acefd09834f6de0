-- ===== src/Thrift/Codec/Ends.antt =====
-- Runs of readers that end, and the loops of containers.
use msgrpc.Base.{
  ℕ, zero, suc, ◌≤◌, ◌≡◌, Bool, List, [], ◌∷◌, Run, ok, fault, out_of_fuel, length, arith,
}
use msgrpc.Msg.{Bytes}
use msgrpc.Thrift.Protocol.{Reader, ◌>>=◌, add_count, return, throw, Protocol}
use msgrpc.Thrift.Codec.{read_many, read_into_set, read_into_map, insert, entry, assign}

-- The run ends within its rounds, with at most `most` bytes left.
pub data Within {A : Type 0} (most : ℕ) : Run (A × ℕ × Bytes) → Type 0 where
  reads : (a : A) (n : ℕ) (rest : Bytes) → length rest ≤ most → Within most (ok (a, n, rest))
  throws : Within most fault

abbrev pub Ends : {A : Type 0} → Reader A → Type 0
Ends m = (bs : Bytes) → Within (length bs) (m bs)

-- The calls of the protocol end and give no bytes back; a field's header takes some.
pub record Advances (p : Protocol) : Type 0 where
  pub bool_ends : Ends p.read_bool
  pub byte_ends : Ends p.read_byte
  pub i16_ends : Ends p.read_i16
  pub i32_ends : Ends p.read_i32
  pub i64_ends : Ends p.read_i64
  pub double_ends : Ends p.read_double
  pub string_ends : Ends p.read_string
  pub binary_ends : Ends p.read_binary
  pub list_begin_ends : Ends p.read_list_begin
  pub set_begin_ends : Ends p.read_set_begin
  pub map_begin_ends : Ends p.read_map_begin
  pub list_end_ends : Ends p.read_list_end
  pub set_end_ends : Ends p.read_set_end
  pub map_end_ends : Ends p.read_map_end
  pub struct_begin_ends : Ends p.read_struct_begin
  pub struct_end_ends : Ends p.read_struct_end
  pub field_end_ends : Ends p.read_field_end
  pub skip_ends : (ftype : ℕ) → Ends (p.skip ftype)
  pub field_begin_ends : (b : ℕ) (bs : Bytes) → Within (length bs) (p.read_field_begin (b ∷ bs))
  pub field_begin_nothing : p.read_field_begin [] ≡ fault

pub Within-le : {A : Type 0} {r : Run (A × ℕ × Bytes)} (k l : ℕ) → k ≤ l → Within k r → Within l r
Within-le k l h (reads a n rest small) = reads a n rest (omega arith)
Within-le k l h throws = throws

pub Within-add_count :
    {A : Type 0} {r : Run (A × ℕ × Bytes)} (k n : ℕ) → Within k r → Within k (add_count n r)
Within-add_count k n (reads a m rest small) = reads a _ rest small
Within-add_count k n throws = throws

pub Within-bind :
    {A B : Type 0} (m : Reader A) (f : A → Reader B) (bs : Bytes) (k l : ℕ)
    → Within k (m bs)
    → ((a : A) (rest : Bytes) → length rest ≤ k → Within l (f a rest))
    → Within l ((m >>= f) bs)
Within-bind {A} m f bs k l first then_ends = go (m bs) first
  where
    go :
        (r : Run (A × ℕ × Bytes))
        → Within k r
        → Within l (elim r [
          | ok (a, n, rest) ↦ add_count n (f a rest)
          | fault ↦ fault
          | out_of_fuel ↦ out_of_fuel
        ])
    go r (reads a n rest small) = Within-add_count l n (then_ends a rest small)
    go r throws = throws

pub Ends-bind :
    {A B : Type 0} (m : Reader A) (f : A → Reader B)
    → Ends m
    → ((a : A) → Ends (f a))
    → Ends (m >>= f)
Ends-bind m f first then_ends bs =
    Within-bind m f bs (length bs) (length bs) (first bs)
      (λ a rest small. Within-le (length rest) (length bs) small (then_ends a rest))

pub Ends-return : {A : Type 0} (a : A) → Ends (return a)
Ends-return a bs = reads a 0 bs (omega arith)

pub Ends-throw : {A : Type 0} → Ends {A = A} throw
Ends-throw bs = throws

pub Ends-read_many : {A : Type 0} (n : ℕ) (m : Reader A) → Ends m → Ends (read_many n m)
unfolding read_many
Ends-read_many zero m h = Ends-return []
Ends-read_many (suc n) m h =
    Ends-bind m _ h
      (λ x. Ends-bind (read_many n m) _ (Ends-read_many n m h) (λ xs. Ends-return (x ∷ xs)))

module _ {K : Type 0} (less : K → K → Bool) where
  pub Ends-read_into_set :
      (n : ℕ) (m : Reader K) (set : List K) → Ends m → Ends (read_into_set less n m set)
  unfolding read_into_set
  Ends-read_into_set zero m set h = Ends-return set
  Ends-read_into_set (suc n) m set h =
      Ends-bind m _ h (λ x. Ends-read_into_set n m (insert less x set) h)

  pub Ends-read_into_map :
      {V : Type 0} (initial : V) (n : ℕ) (read_key : Reader K) (read_value : V → Reader V)
      (m : List (K × V))
      → Ends read_key
      → ((v : V) → Ends (read_value v))
      → Ends (read_into_map less initial n read_key read_value m)
  unfolding read_into_map
  Ends-read_into_map initial zero read_key read_value m hk hv = Ends-return m
  Ends-read_into_map initial (suc n) read_key read_value m hk hv = Ends-bind read_key _ hk (λ k.
      Ends-bind (read_value (entry less initial k m)) _ (hv (entry less initial k m))
        (λ v. Ends-read_into_map initial n read_key read_value (assign less k v m) hk hv))
