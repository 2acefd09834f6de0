-- ===== src/Destroy.antt =====
-- The destructors of cells, actions and contexts: core/cell/cell_base.h, rpc_context.h,
-- rsp_cell_base.cpp, timeout_cell.h. A context deletes all that it tracks; a cell that owns a
-- context deletes it. `destroy` has fuel for the depth of that nesting.
use msgrpc.Base.{
  ℕ, zero, suc, Option, none, some, List, [], ◌∷◌, Run, ok, fault, out_of_fuel, ◌>>=◌, deref,
}
use msgrpc.World.{Ptr, Kind, plain, derived, guarded, derived_async, cell, action, World}
use msgrpc.World.Store.{get_cell, put_object, put_context}
use msgrpc.SeqTable.{release_seq_id}

module _ {V : Type 0} (delete : Ptr → World V → Run (World V)) where
  -- The loop of `~RpcContext`.
  unfoldable pub delete_all : List Ptr → World V → Run (World V)
  delete_all [] w = ok w
  delete_all (p ∷ ps) w = do w' ← delete p w; delete_all ps w'

  unfoldable pub delete_context : Ptr → World V → Run (World V)
  unfolding delete_all
  delete_context ctxt w = do
    c ← deref (w.contexts ctxt)
    w' ← delete_all c.release_list w
    ok (put_context ctxt none w')

  -- `~CellContextBase`.
  unfoldable pub delete_bound_context : Option Ptr → World V → Run (World V)
  unfolding delete_context
  delete_bound_context none w = ok w
  delete_bound_context (some ctxt) w = delete_context ctxt w

  -- `~TimeoutCell`; the other classes add nothing.
  unfoldable pub delete_members : Kind V → World V → Run (World V)
  delete_members (guarded g) w = elim (g.timeout_cell) [ none ↦ ok w | some t ↦ delete t w ]
  delete_members plain w = ok w
  delete_members (derived logic args) w = ok w
  delete_members (derived_async a) w = ok w

  -- The destructors from the derived class to the bases. The cell is missing from the heap before
  -- its context goes, so that a context which tracks its own owner is a double delete.
  unfoldable pub destroy_cell : Ptr → Kind V → World V → Run (World V)
  unfolding delete_members delete_bound_context release_seq_id
  destroy_cell p kind w = do
    w' ← delete_members kind w
    c ← get_cell p w'
    delete_bound_context c.context (put_object p none (release_seq_id c w'))

module _ {V : Type 0} where
  unfoldable pub destroy : ℕ → Ptr → World V → Run (World V)
  unfolding destroy_cell
  destroy zero p w = out_of_fuel
  destroy (suc k) p w = elim (w.objects p) [
    | none ↦ fault
    | some (cell c) ↦ destroy_cell (destroy k) p c.kind w
    | some (action a) ↦ ok (put_object p none w)
  ]
