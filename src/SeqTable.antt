-- ===== src/SeqTable.antt =====
-- core/cell/rsp_cell_base.cpp and the table of RspMsgHandler (core/msg/msg_handlers/rsp_msg_handler.h,
-- .cpp): which cell waits for the response to which request.
pub mod Linked
use msgrpc.Base.{
  ℕ, Bool, true, false, Option, none, some, Run, ok, assert, ◌>>=◌, ◌>>◌, not, is_some,
}
use msgrpc.World.{Ptr, Cell, World}
use msgrpc.World.Store.{update, get_cell, put_cell}

module _ {V : Type 0} where
  -- `id_func_map_.erase(iter)`.
  abbrev pub erase_handler : ℕ → World V → World V
  erase_handler seq w = record w { id_func_map = update w.id_func_map seq none }

  unfoldable pub set_sequential_id : Ptr → ℕ → World V → Run (World V)
  set_sequential_id p seq w = do
    c ← get_cell p w
    ok (put_cell p (record c { seq_id = seq; has_seq_id = true }) w)

  unfoldable pub reset_sequential_id : Ptr → World V → Run (World V)
  reset_sequential_id p w = do c ← get_cell p w; ok (put_cell p (record c { has_seq_id = false }) w)

  -- `RspMsgHandler::register_rsp_Handler`.
  unfoldable pub register_rsp_handler : ℕ → Ptr → World V → Run (World V)
  unfolding set_sequential_id
  register_rsp_handler seq sink w = do
    assert (not (is_some (w.id_func_map seq)))
    set_sequential_id sink seq (record w { id_func_map = update w.id_func_map seq (some sink) })

  -- `RspMsgHandler::remove_rsp_handler`: a missing handler is only logged.
  unfoldable pub remove_rsp_handler : ℕ → World V → World V
  remove_rsp_handler seq w = elim (w.id_func_map seq) [ none ↦ w | some sink ↦ erase_handler seq w ]

  -- `RspMsgHandler::delete_rsp_handler_if_exist`.
  unfoldable pub delete_rsp_handler_if_exist : ℕ → World V → Run (World V)
  unfolding reset_sequential_id
  delete_rsp_handler_if_exist seq w = elim (w.id_func_map seq) [
    | none ↦ ok w
    | some sink ↦ (do w' ← reset_sequential_id sink w; ok (erase_handler seq w'))
  ]

  -- `RspCellBase::~RspCellBase`.
  unfoldable pub release_seq_id : Cell V → World V → World V
  unfolding remove_rsp_handler
  release_seq_id c w = elim (c.has_seq_id) [ true ↦ remove_rsp_handler c.seq_id w | false ↦ w ]
