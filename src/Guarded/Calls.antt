-- ===== src/Guarded/Calls.antt =====
-- A guarded call from its start to its response, or to its timeout.
use msgrpc.Base.{
  ℕ, suc, ◌+◌, ◌<◌, ◌≡◌, refl, ap, ◌∙◌, true, Option, none, some, List, [], ◌∷◌, ◌++◌, Run, ok,
  length, arith,
}
use msgrpc.Msg.{Bytes, ServiceId, RspMsgHeader, succeeded, timeout}
use msgrpc.Msg.Wire.{put_rsp_header, Fits, IsCanonical}
use msgrpc.World.{
  Ptr, cell, guarded, Guard, View, Context, RpcCall, ThriftStruct, World, Host, set_timer,
  cancel_timer,
}
use msgrpc.World.Store.{new_cell}
use msgrpc.Cell.{decode}
use msgrpc.Stub.Sending.{seq, waiting, request, packet, IsPrepared}
use msgrpc.Derive.{derive_rpc_cell}
use msgrpc.RspMsgHandler.{handle_rpc_rsp, on_rsp_handler_timeout}
use msgrpc.Notify.{notify}
use msgrpc.Guarded.Start.{guard, with_guard, derive_rpc_cell-Starts}
use msgrpc.Guarded.Answered.{handle_rpc_rsp-guarded, on_rsp_handler_timeout-guarded}

module _ {V : Type 0} (host : Host V) (start_notify : Ptr → World V → Run (World V)) (k ctxt : ℕ)
    (s : ThriftStruct V) (timeout_ms retry_times : ℕ) (calls : List (View V) → Option (RpcCall V))
    (w : World V) where
  -- The guarded call has started.
  abbrev pub started : Guard V
  started = record (guard host start_notify ctxt s timeout_ms retry_times calls w) {
    is_rpc_started = true;
  }

  abbrev pub created : World V
  created = with_guard host start_notify ctxt s timeout_ms retry_times calls w

  module _ (call : RpcCall V) (buf : Bytes) (x : Context)
      (prepared : IsPrepared host ctxt call created buf x) (id : ServiceId)
      (made : calls [] ≡ some call)
      (resolved : host.resolve (w.ticks + 1) call.service_name (request host ctxt call created buf)
        ≡ some id)
      (accepted : host.send_msg (w.ticks + 1 + 1) (packet host ctxt call created id buf)
        ≡ true) where
    -- A guarded call that waits for no cell, prepared, resolved and taken by the channel, and then
    -- the response to it, with a value that decodes: the guarded cell holds that value, the requests
    -- to the timers are the one that sets the timer of the call and then the one that cancels it, and
    -- the id of the call is free again.
    pub derive_rpc_cell-Answered :
        (h : RspMsgHeader) (payload : Bytes) (v : V)
        → Fits h.header
        → IsCanonical h.rpc_result
        → h.header.sequence_id ≡ seq host ctxt call created
        → h.rpc_result ≡ succeeded
        → 0 < length payload
        → decode call.rsp_struct payload ≡ some v
        → (w1 w2 : World V) × (derive_rpc_cell host start_notify ctxt s timeout_ms retry_times calls
              [] w
            ≡ ok (w.next_ptr, w1))
          × (handle_rpc_rsp (notify host (suc k)) (some (put_rsp_header h payload)) w1 ≡ ok w2)
          × (w2.objects w.next_ptr
              ≡ some (cell (record (new_cell s (guarded started)) { value = some v })))
          × (w2.timers
              ≡ (w.timers ++ set_timer timeout_ms (seq host ctxt call created) ∷ [])
                ++ cancel_timer (seq host ctxt call created) ∷ [])
          × (w2.id_func_map (seq host ctxt call created) ≡ none)
    derive_rpc_cell-Answered h payload v fits canonical same won long good =
        let (w1, derived, sent, timers, known, at, at_rpc, at_a, owned) =
          derive_rpc_cell-Starts host start_notify ctxt s timeout_ms retry_times calls w call buf x
            prepared id made resolved accepted in
        let (w2, handled, holds, ended, free) =
          handle_rpc_rsp-guarded host k w.next_ptr (w.next_ptr + 1) (w.next_ptr + 1 + 1)
            (seq host ctxt call created) (new_cell s (guarded started))
            (waiting host ctxt call created) started w1 at at_rpc at_a known (λ e. omega arith)
            (λ e. omega arith) refl refl refl h payload v fits canonical same won long good refl in
        (
          w1,
          w2,
          derived,
          handled,
          holds,
          ended ∙ ap (λ ts. ts ++ cancel_timer (seq host ctxt call created) ∷ []) timers,
          free,
        )

    -- A guarded call without a retry that waits for no cell, prepared, resolved and taken by the
    -- channel, whose timer then fires: the guarded cell fails with timeout, and the id of the call is
    -- free again.
    pub derive_rpc_cell-TimesOut :
        retry_times ≡ 0
        → (w1 w2 : World V) × (derive_rpc_cell host start_notify ctxt s timeout_ms retry_times calls
              [] w
            ≡ ok (w.next_ptr, w1))
          × (on_rsp_handler_timeout (notify host (suc k)) (seq host ctxt call created) w1 ≡ ok w2)
          × (w2.objects w.next_ptr
              ≡ some (cell (record (new_cell s (guarded started)) { status = timeout })))
          × (w2.id_func_map (seq host ctxt call created) ≡ none)
    derive_rpc_cell-TimesOut no_retry =
        let (w1, derived, sent, timers, known, at, at_rpc, at_a, owned) =
          derive_rpc_cell-Starts host start_notify ctxt s timeout_ms retry_times calls w call buf x
            prepared id made resolved accepted in
        let (w2, ended, fails, free) =
          on_rsp_handler_timeout-guarded host k w.next_ptr (w.next_ptr + 1) (w.next_ptr + 1 + 1)
            (seq host ctxt call created) (new_cell s (guarded started))
            (waiting host ctxt call created) started w1 at at_rpc at_a known (λ e. omega arith)
            (λ e. omega arith) refl refl refl no_retry refl in
        (w1, w2, derived, ended, fails, free)
