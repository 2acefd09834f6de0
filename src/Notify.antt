-- ===== src/Notify.antt =====
-- `Updatable::update` of every class: core/cell/cell_base.h, derived_cell.h, derived_action.h,
-- timeout_cell.h, derived_async_cell.h, and `send_rsp_cell_value` of core/iface_impl/iface_impl_base_t.h with
-- core/msg/msg_sender.cpp. `notify` has fuel for the depth of updates that trigger updates.
use msgrpc.Base.{
  ℕ, zero, suc, ◌+◌, Option, none, some, Run, ok, fault, out_of_fuel, ◌>>=◌, if◌then◌else◌, ltb,
  length,
}
use msgrpc.Msg.{RpcResult, succeeded, failed, RspMsgHeader, ServiceId, Bytes, Packet}
use msgrpc.Msg.Wire.{put_rsp_header, sizeof_rsp_header}
use msgrpc.World.{
  Ptr, Cell, Kind, plain, derived, guarded, Decision, leave, give_value, give_failure,
  undefined_behaviour, Logic, respond, guard_rpc, follow, derived_async, Action, Object, cell,
  action, World, Host,
}
use msgrpc.World.Store.{get_cell, tick, sent_packet}
use msgrpc.Cell.{has_value, has_value_or_error, encode, set_value, set_failed_reason}
use msgrpc.Destroy.{destroy}
use msgrpc.Async.{update_async, on_source_cell}
use msgrpc.Guarded.{views, on_rpc_cell, update_guard}

module _ {V : Type 0} (host : Host V) where
  abbrev pub response : ServiceId → RspMsgHeader → Bytes → Packet
  response id h payload = record {
    to = id;
    msg_id = host.ids.response_msg_id;
    buf = put_rsp_header h payload;
  }

  -- `MsgSender::send_msg_with_header`. An empty payload stands for the null buffer too.
  unfoldable pub send_msg_with_header : ServiceId → RspMsgHeader → Bytes → World V → World V
  unfolding put_rsp_header
  send_msg_with_header id h payload w =
      if ltb 0 (length payload)
      then (if host.malloc w.ticks (sizeof_rsp_header + length payload)
          then sent_packet (response id h payload) (tick w)
          else tick w)
      else sent_packet (response id h payload) w

  unfoldable pub send_rsp_cell_value :
      ServiceId → RspMsgHeader → Cell V → World V → RpcResult × World V
  send_rsp_cell_value id h c w = elim (c.value) [
    | none ↦ (failed, w)
    | some v ↦ elim (encode c.struct v) [
      | none ↦ (failed, w)
      | some buf ↦ (succeeded, send_msg_with_header id h buf w)
    ]
  ]

  -- The function that `invoke_templated_method` binds in its final action.
  unfoldable pub on_result_cell : ServiceId → RspMsgHeader → Ptr → World V → Run (World V)
  on_result_cell id h p w = do
    c ← get_cell p w
    ok (if has_value c then (send_rsp_cell_value id h c w).1 else w)

module _ {V : Type 0} (host : Host V) (notify delete : Ptr → World V → Run (World V)) where
  unfoldable pub decide : Ptr → Decision V → World V → Run (World V)
  unfolding set_value set_failed_reason
  decide p leave w = ok w
  decide p (give_value v) w = set_value notify p v w
  decide p (give_failure r) w = set_failed_reason notify p r w
  decide p undefined_behaviour w = fault

  unfoldable pub update_cell : Ptr → Cell V → Kind V → World V → Run (World V)
  unfolding decide views update_guard update_async
  update_cell p c plain w = ok w
  update_cell p c (derived logic args) w =
      if has_value_or_error c then ok w else (do vs ← views args w; decide p (logic vs) w)
  update_cell p c (guarded g) w = update_guard host notify p c g w
  update_cell p c (derived_async a) w = update_async host notify p c a w

  unfoldable pub run_logic : Logic → World V → Run (World V)
  unfolding on_result_cell on_rpc_cell on_source_cell
  run_logic (respond id h p) w = on_result_cell host id h p w
  run_logic (guard_rpc p rpc) w = on_rpc_cell host notify p rpc w
  run_logic (follow p q) w = on_source_cell host notify p q w

  -- `delete` of a null pointer does nothing.
  unfoldable pub delete_if_set : Option Ptr → World V → Run (World V)
  delete_if_set none w = ok w
  delete_if_set (some p) w = delete p w

  unfoldable pub update_action : Action → World V → Run (World V)
  unfolding run_logic delete_if_set
  update_action a w = do
    w' ← run_logic a.logic w
    if a.is_final_action then delete_if_set a.cell w' else ok w'

  unfoldable pub update_object : Ptr → Option (Object V) → World V → Run (World V)
  unfolding update_cell update_action
  update_object p none w = fault
  update_object p (some (cell c)) w = update_cell p c c.kind w
  update_object p (some (action a)) w = update_action a w

module _ {V : Type 0} (host : Host V) where
  unfoldable pub notify : ℕ → Ptr → World V → Run (World V)
  unfolding update_object destroy
  notify zero p w = out_of_fuel
  notify (suc k) p w = update_object host (notify k) (destroy k) p (w.objects p) w
