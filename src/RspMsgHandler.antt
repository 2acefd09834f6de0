-- ===== src/RspMsgHandler.antt =====
-- core/msg/msg_handlers/rsp_msg_handler.cpp and rpc_timeout_handler.cpp: a response or a timeout finds
-- the cell that waits for it.
pub mod Delivery
pub mod Once
use msgrpc.Base.{ℕ, Option, none, some, Run, ok, ◌>>=◌, length, ltb, if◌then◌else◌}
use msgrpc.Msg.{Bytes, RspMsgHeader}
use msgrpc.Msg.Wire.{get_rsp_header, sizeof_rsp_header}
use msgrpc.World.{Ptr, World}
use msgrpc.SeqTable.{erase_handler, reset_sequential_id, delete_rsp_handler_if_exist}
use msgrpc.Cell.{set_timeout, set_rpc_rsp}

module _ {V : Type 0} (notify : Ptr → World V → Run (World V)) where
  unfoldable pub on_rsp_handler_timeout : ℕ → World V → Run (World V)
  unfolding reset_sequential_id set_timeout
  on_rsp_handler_timeout seq w = elim (w.id_func_map seq) [
    | none ↦ ok w
    | some sink ↦ (do
      w' ← reset_sequential_id sink w
      set_timeout notify sink (erase_handler seq w'))
  ]

  -- The part of `handle_rpc_rsp` behind its checks.
  unfoldable pub deliver : RspMsgHeader → Bytes → World V → Run (World V)
  deliver h payload w = elim (w.id_func_map h.header.sequence_id) [
    | none ↦ ok w
    | some sink ↦ (do
      w' ← set_rpc_rsp notify sink h payload w
      delete_rsp_handler_if_exist h.header.sequence_id w')
  ]

  -- `msg` is none for a null pointer.
  unfoldable pub handle_rpc_rsp : Option Bytes → World V → Run (World V)
  handle_rpc_rsp none w = ok w
  handle_rpc_rsp (some msg) w =
      if ltb (length msg) sizeof_rsp_header
      then ok w
      else elim (get_rsp_header msg) [ none ↦ ok w | some (h, payload) ↦ deliver h payload w ]
