-- ===== src/Api/Calls.antt =====
-- The stub of an interface and the table of its implementation agree.
use msgrpc.Base.{
  ℕ, ◌%◌, ◌^◌, ◌<◌, ◌≡◌, ◌≢◌, refl, Option, none, some, List, [], ◌∷◌, Run, ok, fault, ==_self,
  ==_ne, inl, inr, Option-cases, >>=-eq-ok, arith, subst,
}
use msgrpc.Msg.{Bytes}
use msgrpc.World.{Ptr, World, ThriftStruct}
use msgrpc.World.Store.{update}
use msgrpc.Server.{Iface, Repository, find_method, add_iface_impl}
use msgrpc.Thrift.{Fields}
use msgrpc.Server.Requests.{Names}
use msgrpc.Stub.{request_header}
use msgrpc.Api.{
  ServiceDecl, stub_call, MethodDecl, InterfaceDecl, impl_method, impl_methods, register_interfaces,
}

-- The index is that of none of the methods; and all indices differ. So with the ids of interfaces.
abbrev pub Lacks : ℕ → List MethodDecl → Type 0
Lacks index [] = Unit
Lacks index (m ∷ ms) = (m.method_index ≢ index) × Lacks index ms

abbrev pub Distinct : List MethodDecl → Type 0
Distinct [] = Unit
Distinct (m ∷ ms) = Lacks m.method_index ms × Distinct ms

-- A method of the interface, or an interface of the service, by its place.
pub data Among {A : Type 0} (a : A) : List A → Type 0 where
  first : {others : List A} → Among a (a ∷ others)
  behind : {b : A} {others : List A} → Among a others → Among a (b ∷ others)

Lacks-ne :
    (index : ℕ) (m : MethodDecl) (ms : List MethodDecl)
    → Lacks index ms
    → Among m ms
    → m.method_index ≢ index
Lacks-ne index m [] lacks there = elim there [ ]
Lacks-ne index m (b ∷ ms) (ne, others) first = ne
Lacks-ne index m (b ∷ ms) (ne, others) (behind there) = Lacks-ne index m ms others there

module _ {V : Type 0} (codec : Bytes → Fields → ThriftStruct V)
    (impl : MethodDecl → V → World V → Run (Option Ptr × World V)) where
  find_method-impl_methods :
      (m : MethodDecl) (ms : List MethodDecl)
      → Distinct ms
      → Among m ms
      → find_method m.method_index (impl_methods codec impl ms) ≡ some (impl_method codec impl m)
  unfolding find_method impl_methods
  find_method-impl_methods m [] distinct there = elim there [ ]
  find_method-impl_methods m (b ∷ ms) (lacks, distinct) first = rw (==_self) refl
  find_method-impl_methods m (b ∷ ms) (lacks, distinct) (behind there) =
      rw (==_ne m.method_index b.method_index (Lacks-ne b.method_index m ms lacks there))
        (find_method-impl_methods m ms distinct there)

added :
    {V : Type 0} (ii : ℕ) (iface : Iface V) (m : Repository V) {m' : Repository V}
    → add_iface_impl ii iface m ≡ ok m'
    → (m ii ≡ none) × (m' ≡ update m ii (some iface))
unfolding add_iface_impl
added ii iface m {m'} e = elim (Option-cases (m ii)) [
  | inl free ↦ (let e' : ok (update m ii (some iface)) ≡ ok m' = rw free at e in (free, cc))
  | inr (x, there) ↦ (let e' : fault ≡ ok m' = rw there at e in cc)
]

module _ {V : Type 0} (codec : Bytes → Fields → ThriftStruct V)
    (impl : InterfaceDecl → MethodDecl → V → World V → Run (Option Ptr × World V)) where
  -- What is registered stays.
  register_interfaces-keeps :
      (is : List InterfaceDecl) (m : Repository V) {m' : Repository V} (ii : ℕ) {iface : Iface V}
      → register_interfaces codec impl is m ≡ ok m'
      → m ii ≡ some iface
      → m' ii ≡ some iface
  unfolding register_interfaces
  register_interfaces-keeps [] m {m'} ii {iface} e there =
      let same_map : m ≡ m' = cc in subst (λ (r : Repository V). r ii ≡ some iface) same_map there
  register_interfaces-keeps (i ∷ is) m ii e there =
      let (m1, first_step, others) = >>=-eq-ok _ _ e in
      let (free, eq) = added i.iface_id _ m first_step in
      register_interfaces-keeps is m1 ii others (rw eq (ground arith))

  register_interfaces-registers :
      (is : List InterfaceDecl) (m : Repository V) {m' : Repository V} (i : InterfaceDecl)
      → register_interfaces codec impl is m ≡ ok m'
      → Among i is
      → m' i.iface_id ≡ some (impl_methods codec (impl i) i.methods)
  unfolding register_interfaces
  register_interfaces-registers [] m i e there = elim there [ ]
  register_interfaces-registers (b ∷ is) m i e first =
      let (m1, first_step, others) = >>=-eq-ok _ _ e in
      let (free, eq) = added i.iface_id _ m first_step in
      register_interfaces-keeps is m1 i.iface_id others (rw (eq, ==_self) refl)
  register_interfaces-registers (b ∷ is) m i e (behind there) =
      let (m1, first_step, others) =
        >>=-eq-ok (add_iface_impl b.iface_id (impl_methods codec (impl b) b.methods) m)
          (register_interfaces codec impl is) e in
      register_interfaces-registers is m1 i others there

  pub stub_call-Names :
      (service : ServiceDecl) (i : InterfaceDecl) (method : MethodDecl) (req : V) (id : ℕ)
      (repository repository' : Repository V)
      → register_interfaces codec impl service.interfaces repository ≡ ok repository'
      → Among i service.interfaces
      → i.iface_id < 2 ^ 16
      → method.method_index < 2 ^ 8
      → Distinct i.methods
      → Among method i.methods
      → Names repository'
          (request_header (stub_call codec service i method req) id)
          (impl_method codec (impl i) method)
  stub_call-Names service i method req id repository repository' e among fits fits' distinct there =
      let same : i.iface_id % 2 ^ 16 ≡ i.iface_id = omega arith in
      let same' : method.method_index % 2 ^ 8 ≡ method.method_index = omega arith in
      record {
        iface = impl_methods codec (impl i) i.methods;
        registered =
            rw same (register_interfaces-registers service.interfaces repository i e among);
        found = rw same' (find_method-impl_methods codec (impl i) method i.methods distinct there);
      }
