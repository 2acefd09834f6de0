-- ===== src/Safety/Messages.antt =====
-- Messages: each handler keeps the world linked, if the code that services supply does.
use msgrpc.Base.{
  ℕ, ◌≡◌, refl, inl, inr, true, Option, none, some, Option-cases, Bool-cases, Run, ok, Ensures,
  normal, at_fault, Ensures-bind, Ensures-bind_eq, Ensures-assert, deref, length, ltb, ◌==◌,
}
use msgrpc.Msg.{
  RpcResult, succeeded, failed, timeout, iface_not_found, method_not_found, other, ReqMsgHeader,
  RspMsgHeader, ServiceId, Bytes,
}
use msgrpc.Msg.Wire.{get_header, get_rsp_header, sizeof_req_header, sizeof_rsp_header}
use msgrpc.World.{Ptr, Object, cell, action, respond, World, Host}
use msgrpc.World.Store.{alloc_object}
use msgrpc.SeqTable.Linked.{
  IsLinked, Ensures-get_cell, alloc_object-IsLinked, put_object-IsLinked, forget-IsLinked,
  reset_handler, delete_rsp_handler_if_exist-IsLinked,
}
use msgrpc.Cell.{has_value, decode}
use msgrpc.RspMsgHandler.{on_rsp_handler_timeout, deliver, handle_rpc_rsp}
use msgrpc.Notify.{notify, send_rsp_cell_value}
use msgrpc.Derive.{derive_final_action, bind_result_cell}
use msgrpc.Server.{
  Method, Iface, Repository, get_iface_impl_by, answer, find_method, invoke_templated_method,
  on_rpc_invoke, answer_failure, dispatch, on_rpc_req_msg, response_header,
}
use msgrpc.Safety.Cells.{
  Keeps, set_timeout-Keeps, set_rpc_rsp-Keeps, register_listener-Keeps, track-Keeps,
}
use msgrpc.Safety.Destructors.{destroy-Keeps}
use msgrpc.Safety.Calls.{Beside}
use msgrpc.Safety.Updates.{notify-Keeps, send_rsp-Beside, send_msg-IsLinked}

module _ {V : Type 0} (notify : Ptr → World V → Run (World V))
    (keep : (p : Ptr) → Keeps (notify p)) where
  pub on_rsp_handler_timeout-Keeps : (seq : ℕ) → Keeps (on_rsp_handler_timeout notify seq)
  unfolding on_rsp_handler_timeout
  on_rsp_handler_timeout-Keeps seq w l = elim (Option-cases (w.id_func_map seq)) [
    | inl e ↦ rw (e, on_rsp_handler_timeout) (normal l)
    | inr (p, e) ↦
        let (c, at, r) = reset_handler w seq p l e in
        rw (e, on_rsp_handler_timeout, r)
          (set_timeout-Keeps notify keep p _ (forget-IsLinked w p c seq l at e))
  ]

  deliver-Keeps : (h : RspMsgHeader) (payload : Bytes) → Keeps (deliver notify h payload)
  unfolding deliver
  deliver-Keeps h payload w l = elim (Option-cases (w.id_func_map h.header.sequence_id)) [
    | inl e ↦ rw (e, deliver) (normal l)
    | inr (p, e) ↦
        rw (e, deliver)
          (Ensures-bind _ (set_rpc_rsp-Keeps notify keep p h payload w l) λ w1 l1.
            let (w2, r, l2, _) = delete_rsp_handler_if_exist-IsLinked w1 h.header.sequence_id l1 in
            rw r (normal l2))
  ]

  pub handle_rpc_rsp-Keeps : (msg : Option Bytes) → Keeps (handle_rpc_rsp notify msg)
  unfolding handle_rpc_rsp
  handle_rpc_rsp-Keeps none w l = normal l
  handle_rpc_rsp-Keeps (some msg) w l = elim (Bool-cases (ltb (length msg) sizeof_rsp_header)) [
    | inl short ↦ rw short (normal l)
    | inr long ↦ rw long (elim (Option-cases (get_rsp_header msg)) [
      | inl e ↦ rw e (normal l)
      | inr ((h, payload), e) ↦ rw e (deliver-Keeps h payload w l)
    ])
  ]

  bind_object-Keeps :
      (host : Host V) (a p : Ptr) (o : Option (Object V)) (w : World V)
      → w.objects a ≡ o
      → IsLinked w
      → Ensures IsLinked (bind_result_cell host notify a p w)
  unfolding bind_result_cell
  bind_object-Keeps host a p none w e l = rw (e, bind_result_cell) at_fault
  bind_object-Keeps host a p (some (cell c)) w e l = rw (e, bind_result_cell) at_fault
  bind_object-Keeps host a p (some (action x)) w e l =
      rw (e, bind_result_cell)
        (normal
          (put_object-IsLinked w a (some (action (record x { cell = some p }))) l (λ z. cc) (rw e)))

  bind_result_cell-Keeps : (host : Host V) (a p : Ptr) → Keeps (bind_result_cell host notify a p)
  bind_result_cell-Keeps host a p w l = bind_object-Keeps host a p (w.objects a) w refl l

  pub derive_final_action-Keeps :
      (host : Host V) (id : ServiceId) (h : RspMsgHeader) (p : Ptr)
      → Keeps (derive_final_action host notify id h p)
  unfolding derive_final_action
  derive_final_action-Keeps host id h p w l =
      let o : Object V =
        action (record { is_final_action = true; cell = none; logic = respond id h p }) in
      Ensures-bind _
        (register_listener-Keeps notify keep p w.next_ptr (alloc_object o w)
          (alloc_object-IsLinked w o l refl))
        λ w1 l1. Ensures-get_cell p w1 _ λ c at. Ensures-bind_eq (deref c.context) _ λ ctxt _.
          Ensures-bind _ (track-Keeps ctxt w.next_ptr w1 l1)
            (bind_result_cell-Keeps host w.next_ptr p)

-- The code of a service keeps worlds linked.
abbrev pub MethodKeeps : {V : Type 0} → Method V → Type 0
MethodKeeps {V} m = (req : V) (w : World V) → IsLinked w → Ensures Beside (m.method_impl req w)

abbrev pub IfaceKeeps : {V : Type 0} → Iface V → Type 0
IfaceKeeps {V} iface = (i : ℕ) (m : Method V) → find_method i iface ≡ some m → MethodKeeps m

abbrev pub RepositoryKeeps : {V : Type 0} → Repository V → Type 0
RepositoryKeeps {V} r = (i : ℕ) (iface : Iface V) → r i ≡ some iface → IfaceKeeps iface

module _ {V : Type 0} (host : Host V) (fuel : ℕ) where
  answer-Ensures :
      (id : ServiceId) (h : RspMsgHeader) (r : Option Ptr × World V)
      → Beside r
      → Ensures Beside (answer host fuel id h r)
  unfolding answer
  answer-Ensures id h (none, w) l = normal {a = (failed, w)} l
  answer-Ensures id h (some p, w) l = Ensures-get_cell p w _ λ c at.
      elim (Bool-cases (has_value c)) [
        | inl e ↦ rw e (
            Ensures-bind _ (destroy-Keeps fuel p _ (send_rsp-Beside host id h c w l))
              λ w2 l2. normal {a = ((send_rsp_cell_value host id h c w).0, w2)} l2)
        | inr e ↦ rw e (
            Ensures-bind _
              (derive_final_action-Keeps (notify host fuel) (notify-Keeps host fuel) host id h p w
                l)
              λ w1 l1. normal {a = (succeeded, w1)} l1)
      ]

  invoke-Ensures :
      (m : Method V) (payload : Bytes) (id : ServiceId) (h : RspMsgHeader) (w : World V)
      → MethodKeeps m
      → IsLinked w
      → Ensures Beside (invoke_templated_method host fuel m payload id h w)
  unfolding invoke_templated_method
  invoke-Ensures m payload id h w keep l = elim (Option-cases (decode m.req_struct payload)) [
    | inl e ↦ rw (e, invoke_templated_method) (normal {a = (failed, w)} l)
    | inr (req, e) ↦
        rw (e, invoke_templated_method) (Ensures-bind _ (keep req w l) (answer-Ensures id h))
  ]

  -- The world beside a result with a header.
  abbrev Beside₂ : RpcResult × RspMsgHeader × World V → Type 0
  Beside₂ r = IsLinked r.2

  on_rpc_invoke-Ensures :
      (iface : Iface V) (req : ReqMsgHeader) (payload : Bytes) (h : RspMsgHeader) (id : ServiceId)
      (w : World V)
      → IfaceKeeps iface
      → IsLinked w
      → Ensures Beside₂ (on_rpc_invoke host fuel iface req payload h id w)
  unfolding on_rpc_invoke
  on_rpc_invoke-Ensures iface req payload h id w keep l =
      elim (Option-cases (find_method req.method_index_in_interface iface)) [
        | inl e ↦
            rw (e, on_rpc_invoke)
              (normal {a = (method_not_found, record h { rpc_result = method_not_found }, w)} l)
        | inr (m, e) ↦
            rw (e, on_rpc_invoke)
              (Ensures-bind _ (invoke-Ensures m payload id h w (keep _ m e) l)
                λ r l'. normal {a = (r.0, _, r.1)} l')
      ]

  answer_failure-IsLinked :
      (id : ServiceId) (r : RpcResult × RspMsgHeader × World V)
      → Beside₂ r
      → IsLinked (answer_failure host fuel id r)
  answer_failure-IsLinked id (failed, h, w) l = send_msg-IsLinked host id h _ w l
  answer_failure-IsLinked id (method_not_found, h, w) l = send_msg-IsLinked host id h _ w l
  answer_failure-IsLinked id (succeeded, h, w) l = l
  answer_failure-IsLinked id (timeout, h, w) l = l
  answer_failure-IsLinked id (iface_not_found, h, w) l = l
  answer_failure-IsLinked id (other c, h, w) l = l

  dispatch-Keeps :
      (repository : Repository V) (req : ReqMsgHeader) (payload : Bytes) (id : ServiceId)
      → RepositoryKeeps repository
      → Keeps (dispatch host fuel repository req payload id)
  unfolding dispatch
  dispatch-Keeps repository req payload id keep w l =
      elim (Option-cases (get_iface_impl_by req.iface_index_in_service repository)) [
        | inl e ↦ rw (e, dispatch) (normal l)
        | inr (iface, e) ↦
            rw (e, dispatch)
              (Ensures-bind (λ r. ok (answer_failure host fuel id r))
                (on_rpc_invoke-Ensures iface req payload (response_header req succeeded) id w
                  (keep _ iface e) l)
                λ r l'.
                  normal {a = answer_failure host fuel id r} (answer_failure-IsLinked id r l'))
      ]

  pub on_rpc_req_msg-Keeps :
      (repository : Repository V) (msg_id : ℕ) (msg : Bytes) (id : ServiceId)
      → RepositoryKeeps repository
      → Keeps (on_rpc_req_msg host fuel repository msg_id msg id)
  unfolding on_rpc_req_msg
  on_rpc_req_msg-Keeps repository msg_id msg id keep w l =
      Ensures-assert (msg_id == host.ids.request_msg_id) λ _.
        elim (Bool-cases (ltb (length msg) sizeof_req_header)) [
          | inl short ↦ rw short (normal l)
          | inr long ↦ rw long (elim (Option-cases (get_header msg)) [
            | inl e ↦ rw e (normal l)
            | inr ((h, payload), e) ↦ rw e (dispatch-Keeps repository h payload id keep w l)
          ])
        ]
