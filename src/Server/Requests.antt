-- ===== src/Server/Requests.antt =====
-- What a caller gets for its request, when the method answers at once.
use msgrpc.Base.{
  ℕ, zero, suc, ◌+◌, ◌<◌, ◌≡◌, refl, true, false, Option, none, some, [], ok, length, ltb_of_le,
  lt→ltb, arith, ==_self, ◌∙◌,
}
use msgrpc.Msg.{
  RpcResult, succeeded, failed, iface_not_found, method_not_found, ReqMsgHeader, RspMsgHeader,
  ServiceId, Bytes,
}
use msgrpc.Msg.Wire.{put_header, sizeof_req_header, sizeof_rsp_header, Fits}
use msgrpc.Msg.Wire.Laws.{get_header-put_header, length-put_header}
use msgrpc.World.{Ptr, Cell, cell, plain, World, Host}
use msgrpc.World.Store.{put_object, sent_packet, tick}
use msgrpc.Cell.{decode, encode, has_value}
use msgrpc.Destroy.{destroy}
use msgrpc.Notify.{response, send_msg_with_header, send_rsp_cell_value}
use msgrpc.Server.{
  Method, Iface, Repository, find_method, response_header, answer, invoke_templated_method,
  on_rpc_invoke, send_header, dispatch, on_rpc_req_msg,
}

module _ {V : Type 0} where
  pub encode-pos : (s : _) (v : V) {buf : Bytes} → encode s v ≡ some buf → 0 < length buf
  unfolding encode
  encode-pos s v e = ground arith

  -- A cell of its own: no class adds members, and it owns no context and carries no id.
  pub record IsBare (c : Cell V) : Type 0 where
    pub is_plain : c.kind ≡ plain
    pub no_context : c.context ≡ none
    pub no_id : c.has_seq_id ≡ false

  -- The method that a header names in a repository.
  pub record Names (repository : Repository V) (req : ReqMsgHeader) (m : Method V) : Type 0 where
    pub iface : Iface V
    pub registered : repository req.iface_index_in_service ≡ some iface
    pub found : find_method req.method_index_in_interface iface ≡ some m

module _ {V : Type 0} (host : Host V) (fuel : ℕ) (repository : Repository V) where
  -- Why a request is turned down, with the result code for its caller and the world that is left.
  pub data Refused (req : ReqMsgHeader) (payload : Bytes) (w : World V)
      : RpcResult → World V → Type 0 where
    no_iface :
        repository req.iface_index_in_service ≡ none → Refused req payload w iface_not_found w
    no_method :
        (iface : Iface V)
        → repository req.iface_index_in_service ≡ some iface
        → find_method req.method_index_in_interface iface ≡ none
        → Refused req payload w method_not_found w
    bad_request :
        (m : Method V)
        → Names repository req m
        → decode m.req_struct payload ≡ none
        → Refused req payload w failed w
    null_cell :
        (m : Method V) (v : V) {w' : World V}
        → Names repository req m
        → decode m.req_struct payload ≡ some v
        → m.method_impl v w ≡ ok (none, w')
        → Refused req payload w failed w'
    no_encoding :
        (m : Method V) (v x : V) (p : Ptr) (c : Cell V) {w1 w' : World V}
        → Names repository req m
        → decode m.req_struct payload ≡ some v
        → m.method_impl v w ≡ ok (some p, w1)
        → w1.objects p ≡ some (cell c)
        → c.value ≡ some x
        → encode c.struct x ≡ none
        → destroy fuel p w1 ≡ ok w'
        → Refused req payload w failed w'

  -- A call that fails is answered by a bare header.
  invoke_failed :
      (m : Method V) (req : ReqMsgHeader) (payload : Bytes) (id : ServiceId) (w w' : World V)
      → Names repository req m
      → invoke_templated_method host fuel m payload id (response_header req succeeded) w
        ≡ ok (failed, w')
      → dispatch host fuel repository req payload id w
        ≡ ok (send_header host fuel id (response_header req failed) w')
  unfolding dispatch on_rpc_invoke send_msg_with_header
  invoke_failed m req payload id w w' n run =
      rw (n.registered, dispatch) (rw (n.found, on_rpc_invoke) (rw run refl))

  -- Behind a call that succeeds nothing more is sent.
  pub invoke_succeeded :
      (m : Method V) (req : ReqMsgHeader) (payload : Bytes) (id : ServiceId) (w w' : World V)
      → Names repository req m
      → invoke_templated_method host fuel m payload id (response_header req succeeded) w
        ≡ ok (succeeded, w')
      → dispatch host fuel repository req payload id w ≡ ok w'
  unfolding dispatch on_rpc_invoke
  invoke_succeeded m req payload id w w' n run =
      rw (n.registered, dispatch) (rw (n.found, on_rpc_invoke) (rw run refl))

  -- The call of a method whose request decodes.
  pub invoke_answer :
      (m : Method V) (v : V) (req : ReqMsgHeader) (payload : Bytes) (id : ServiceId) (w : World V)
      (r : Option Ptr × World V)
      → decode m.req_struct payload ≡ some v
      → m.method_impl v w ≡ ok r
      → invoke_templated_method host fuel m payload id (response_header req succeeded) w
        ≡ answer host fuel id (response_header req succeeded) r
  unfolding invoke_templated_method
  invoke_answer m v req payload id w r good run = rw (good, invoke_templated_method) (rw run refl)

  send_rsp_bad :
      (id : ServiceId) (h : RspMsgHeader) (x : V) (c : Cell V) (w : World V)
      → c.value ≡ some x
      → encode c.struct x ≡ none
      → send_rsp_cell_value host id h c w ≡ (failed, w)
  unfolding send_rsp_cell_value
  send_rsp_bad id h x c w full bad = rw (full, send_rsp_cell_value) (rw bad refl)

  send_rsp_good :
      (id : ServiceId) (h : RspMsgHeader) (x : V) (buf : Bytes) (c : Cell V) (w : World V)
      → c.value ≡ some x
      → encode c.struct x ≡ some buf
      → send_rsp_cell_value host id h c w ≡ (succeeded, send_msg_with_header host id h buf w)
  unfolding send_rsp_cell_value
  send_rsp_good id h x buf c w full good = rw (full, send_rsp_cell_value) (rw good refl)

  -- A cell that has its value already is sent and deleted.
  answer_ready :
      (id : ServiceId) (h : RspMsgHeader) (p : Ptr) (c : Cell V) (r : RpcResult)
      (w1 w2 w' : World V)
      → w1.objects p ≡ some (cell c)
      → has_value c ≡ true
      → send_rsp_cell_value host id h c w1 ≡ (r, w2)
      → destroy fuel p w2 ≡ ok w'
      → answer host fuel id h (some p, w1) ≡ ok (r, w')
  unfolding answer
  answer_ready id h p c r w1 w2 w' at full sent gone = rw at (rw full (rw sent (rw gone refl)))

  has_value-some : (c : Cell V) {x : V} → c.value ≡ some x → has_value c ≡ true
  has_value-some c e = rw e

  dispatch-Refused :
      {r : RpcResult} {w' : World V} (req : ReqMsgHeader) (payload : Bytes) (id : ServiceId)
      (w : World V)
      → Refused req payload w r w'
      → dispatch host fuel repository req payload id w
        ≡ ok (send_header host fuel id (response_header req r) w')
  unfolding dispatch on_rpc_invoke send_msg_with_header invoke_templated_method answer
  dispatch-Refused req payload id w (no_iface e) = rw (e, dispatch)
  dispatch-Refused req payload id w (no_method iface e none_found) =
      rw (e, dispatch) (rw (none_found, on_rpc_invoke) refl)
  dispatch-Refused req payload id w (bad_request m n bad) =
      invoke_failed m req payload id w w n (rw (bad, invoke_templated_method) refl)
  dispatch-Refused req payload id w (null_cell m v {w'} n good run) =
      invoke_failed m req payload id w w' n (invoke_answer m v req payload id w (none, w') good run)
  dispatch-Refused req payload id w (no_encoding m v x p c {w1} {w'} n good run at full bad gone) =
      invoke_failed m req payload id w w' n (
        invoke_answer m v req payload id w (some p, w1) good run
        ∙ answer_ready id (response_header req succeeded) p c failed w1 w1 w' at
            (has_value-some c full)
            (send_rsp_bad id (response_header req succeeded) x c w1 full bad) gone)

  pub on_rpc_req_msg-dispatch :
      (req : ReqMsgHeader) (payload : Bytes) (id : ServiceId) (w : World V)
      → Fits req
      → on_rpc_req_msg host fuel repository host.ids.request_msg_id (put_header req payload) id w
        ≡ dispatch host fuel repository req payload id w
  unfolding on_rpc_req_msg
  on_rpc_req_msg-dispatch req payload id w fits =
      rw
        (
          ==_self,
          ltb_of_le (length (put_header req payload)) sizeof_req_header
              (omega (arith, length-put_header req payload)),
          get_header-put_header req payload fits,
        )
        refl

  -- A request that is turned down, for whichever reason, gets exactly one message: a bare header with
  -- the request's own fields and the result code of the reason, to the sender of the request.
  pub on_rpc_req_msg-Refused :
      {r : RpcResult} {w' : World V} (req : ReqMsgHeader) (payload : Bytes) (id : ServiceId)
      (w : World V)
      → Fits req
      → Refused req payload w r w'
      → on_rpc_req_msg host fuel repository host.ids.request_msg_id (put_header req payload) id w
        ≡ ok (sent_packet (response host id (response_header req r) []) w')
  on_rpc_req_msg-Refused req payload id w fits why =
      on_rpc_req_msg-dispatch req payload id w fits ∙ dispatch-Refused req payload id w why

  destroy_bare :
      (k : ℕ) (p : Ptr) (c : Cell V) (w : World V)
      → 0 < k
      → w.objects p ≡ some (cell c)
      → IsBare c
      → destroy k p w ≡ ok (put_object p none w)
  unfolding destroy
  destroy_bare zero p c w h at bare = absurd (omega arith)
  destroy_bare (suc k) p c w h at bare =
      rw (at, destroy) (rw bare.is_plain (rw at (rw (bare.no_context, bare.no_id) refl)))

  -- A method that gives a bare cell with a value gets the encoded value to the caller, under the
  -- header of its request and with result `succeeded`, and the cell is deleted. (Memory for the
  -- response is there.)
  pub on_rpc_req_msg-ready :
      (m : Method V) (v x : V) (buf : Bytes) (p : Ptr) (c : Cell V) (w1 : World V)
      (req : ReqMsgHeader) (payload : Bytes) (id : ServiceId) (w : World V)
      → 0 < fuel
      → Fits req
      → Names repository req m
      → decode m.req_struct payload ≡ some v
      → m.method_impl v w ≡ ok (some p, w1)
      → w1.objects p ≡ some (cell c)
      → IsBare c
      → c.value ≡ some x
      → encode c.struct x ≡ some buf
      → host.malloc w1.ticks (sizeof_rsp_header + length buf) ≡ true
      → on_rpc_req_msg host fuel repository host.ids.request_msg_id (put_header req payload) id w
        ≡ ok (
            put_object p none
              (sent_packet (response host id (response_header req succeeded) buf) (tick w1)))
  unfolding send_msg_with_header
  on_rpc_req_msg-ready m v x buf p c w1 req payload id w enough fits n good run at bare full enc
        memory =
      on_rpc_req_msg-dispatch req payload id w fits
      ∙ invoke_succeeded m req payload id w _ n (
          invoke_answer m v req payload id w (some p, w1) good run
          ∙ answer_ready id (response_header req succeeded) p c succeeded w1
              (send_msg_with_header host id (response_header req succeeded) buf w1)
              (put_object p none
                (sent_packet (response host id (response_header req succeeded) buf) (tick w1)))
              at (has_value-some c full)
              (send_rsp_good id (response_header req succeeded) x buf c w1 full enc)
              (rw (lt→ltb 0 (length buf) (encode-pos c.struct x enc), memory)
                (destroy_bare fuel p c _ enough at bare)))
