-- ===== src/SeqTable/Linked.antt =====
-- The table of handlers and the cells agree: a handler points at a live cell that carries its id, and
-- a cell that carries an id is the handler of that id. Pointers from `next_ptr` on are unused.
use msgrpc.Base.{
  ℕ, ◌≤◌, ◌≡◌, ◌≢◌, refl, inl, inr, true, false, Option, none, some, arith, Option-cases,
  if◌then◌else◌, Run, ok, ◌>>=◌, Ensures, normal, at_fault, Ensures-bind_eq,
}
use msgrpc.World.{Ptr, Cell, Object, cell, action, World}
use msgrpc.World.Store.{update, as_cell, get_cell, put_cell, put_object, alloc_object}
use msgrpc.SeqTable.{
  erase_handler, reset_sequential_id, register_rsp_handler, delete_rsp_handler_if_exist,
  release_seq_id,
}

module _ {V : Type 0} where
  -- The id that an object carries.
  abbrev pub carried : Option (Object V) → Option ℕ
  carried (some (cell c)) = if c.has_seq_id then some c.seq_id else none
  carried _ = none

  pub record Linked (objects : Ptr → Option (Object V)) (handlers : ℕ → Option Ptr) (next_ptr : Ptr)
      : Type 0 where
    pub alive : (seq : ℕ) (p : Ptr) → handlers seq ≡ some p → carried (objects p) ≡ some seq
    pub known : (p : Ptr) (seq : ℕ) → carried (objects p) ≡ some seq → handlers seq ≡ some p
    pub fresh : (p : Ptr) → next_ptr ≤ p → objects p ≡ none

  abbrev pub IsLinked : World V → Type 0
  IsLinked w = Linked w.objects w.id_func_map w.next_ptr

  pub as_cell-eq-ok : (o : Option (Object V)) {c : Cell V} → as_cell o ≡ ok c → o ≡ some (cell c)
  as_cell-eq-ok none e = cc
  as_cell-eq-ok (some (cell c)) e = cc
  as_cell-eq-ok (some (action a)) e = cc

  pub Ensures-get_cell :
      {B : Type 0} {Q : B → Type 0} (p : Ptr) (w : World V) (k : Cell V → Run B)
      → ((c : Cell V) → w.objects p ≡ some (cell c) → Ensures Q (k c))
      → Ensures Q (get_cell p w >>= k)
  Ensures-get_cell p w k f =
      Ensures-bind_eq (get_cell p w) k (λ c e. f c (as_cell-eq-ok (w.objects p) e))

  pub put_object-IsLinked :
      (w : World V) (p : Ptr) (o : Option (Object V))
      → IsLinked w
      → w.objects p ≢ none
      → carried (w.objects p) ≡ carried o
      → IsLinked (put_object p o w)
  put_object-IsLinked w p o l used same = record {
    alive = λ seq q e. ground (arith, l.alive seq q);
    known = λ q seq e. ground (arith, l.known q seq);
    fresh = λ q h. ground (arith, l.fresh q);
  }

  pub put_cell-IsLinked :
      (w : World V) (p : Ptr) (c c' : Cell V)
      → IsLinked w
      → w.objects p ≡ some (cell c)
      → carried (some (cell c)) ≡ carried (some (cell c'))
      → IsLinked (put_cell p c' w)
  put_cell-IsLinked w p c c' l e same = put_object-IsLinked w p _ l (λ z. cc) (rw e same)

  -- A new object carries no id.
  pub alloc_object-IsLinked :
      (w : World V) (o : Object V)
      → IsLinked w
      → carried (some o) ≡ none
      → IsLinked (alloc_object o w)
  alloc_object-IsLinked w o l e = record {
    alive = λ seq q h. ground (arith, l.alive seq q, l.fresh q);
    known = λ q seq h. ground (arith, l.known q seq);
    fresh = λ q h. ground (arith, l.fresh q);
  }

  -- An object that carries no id may go.
  pub remove_object-IsLinked :
      (w : World V) (p : Ptr)
      → IsLinked w
      → carried (w.objects p) ≡ none
      → IsLinked (put_object p none w)
  remove_object-IsLinked w p l e = record {
    alive = λ seq q h. ground (arith, l.alive seq q);
    known = λ q seq h. ground (arith, l.known q seq);
    fresh = λ q h. ground (arith, l.fresh q);
  }

  -- The destructor of a cell: its handler goes before the cell does.
  pub release_seq_id-IsLinked :
      (w : World V) (p : Ptr) (c : Cell V)
      → IsLinked w
      → w.objects p ≡ some (cell c)
      → IsLinked (put_object p none (release_seq_id c w))
  unfolding release_seq_id
  release_seq_id-IsLinked w p c l e = record {
    alive = λ seq q h. ground (arith, l.alive seq q, l.known p c.seq_id);
    known = λ q seq h. ground (arith, l.known q seq, l.known p c.seq_id);
    fresh = λ q h. ground (arith, l.fresh q);
  }

  -- A handler is erased together with the id of its cell.
  pub forget-IsLinked :
      (w : World V) (p : Ptr) (c : Cell V) (seq : ℕ)
      → IsLinked w
      → w.objects p ≡ some (cell c)
      → w.id_func_map seq ≡ some p
      → IsLinked (erase_handler seq (put_cell p (record c { has_seq_id = false }) w))
  forget-IsLinked w p c seq l e m = record {
    alive = λ s q h. ground (arith, l.alive s q, l.alive seq p);
    known = λ q s h. ground (arith, l.known q s, l.known p seq);
    fresh = λ q h. ground (arith, l.fresh q);
  }

  -- Only a cell carries an id.
  pub carried-cell :
      (o : Option (Object V)) {seq : ℕ}
      → carried o ≡ some seq
      → (c : Cell V) × (o ≡ some (cell c)) × (c.has_seq_id ≡ true) × (c.seq_id ≡ seq)
  carried-cell none e = cc
  carried-cell (some (action a)) e = cc
  carried-cell (some (cell c)) e = (c, refl, ground arith, ground arith)

  abbrev pub registered : ℕ → Ptr → Cell V → World V → World V
  registered seq p c w =
      put_cell p (record c { seq_id = seq; has_seq_id = true })
        (record w { id_func_map = update w.id_func_map seq (some p) })

  pub registered-IsLinked :
      (w : World V) (seq : ℕ) (p : Ptr) (c : Cell V)
      → IsLinked w
      → w.objects p ≡ some (cell c)
      → c.has_seq_id ≡ false
      → w.id_func_map seq ≡ none
      → IsLinked (registered seq p c w)
  registered-IsLinked w seq p c l at e free = record {
    alive = λ s q h. ground (arith, l.alive s q);
    known = λ q s h. ground (arith, l.known q s);
    fresh = λ q h. ground (arith, l.fresh q);
  }

  pub register_rsp_handler-Ensures :
      (w : World V) (seq : ℕ) (p : Ptr) (c : Cell V)
      → IsLinked w
      → w.objects p ≡ some (cell c)
      → c.has_seq_id ≡ false
      → Ensures IsLinked (register_rsp_handler seq p w)
  unfolding register_rsp_handler
  register_rsp_handler-Ensures w seq p c l at e = elim (Option-cases (w.id_func_map seq)) [
    | inl free ↦ rw (free, at) (normal (registered-IsLinked w seq p c l at e free))
    | inr (q, taken) ↦ rw taken at_fault
  ]

  pub reset_handler :
      (w : World V) (seq : ℕ) (p : Ptr)
      → IsLinked w
      → w.id_func_map seq ≡ some p
      → (c : Cell V) × (w.objects p ≡ some (cell c))
        × (reset_sequential_id p w ≡ ok (put_cell p (record c { has_seq_id = false }) w))
  unfolding reset_sequential_id
  reset_handler w seq p l m =
      let (c, at, _, _) = carried-cell (w.objects p) (l.alive seq p m) in (c, at, rw at)

  -- In a linked world the handler that is found is a live cell: nothing here can fault.
  pub delete_rsp_handler_if_exist-IsLinked :
      (w : World V) (seq : ℕ)
      → IsLinked w
      → (w' : World V) × (delete_rsp_handler_if_exist seq w ≡ ok w')
        × IsLinked w'
        × (w'.id_func_map seq ≡ none)
  unfolding delete_rsp_handler_if_exist
  delete_rsp_handler_if_exist-IsLinked w seq l = elim (Option-cases (w.id_func_map seq)) [
    | inl e ↦ (w, rw (e, delete_rsp_handler_if_exist), l, e)
    | inr (p, e) ↦
        let (c, at, r) = reset_handler w seq p l e in
        (
          erase_handler seq (put_cell p (record c { has_seq_id = false }) w),
          rw (e, delete_rsp_handler_if_exist, r),
          forget-IsLinked w p c seq l at e,
          ground arith,
        )
  ]
