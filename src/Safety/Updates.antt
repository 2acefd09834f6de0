-- ===== src/Safety/Updates.antt =====
-- Updates: whatever a change of a cell sets off, the world stays linked.
use msgrpc.Base.{
  ℕ, zero, suc, refl, inl, inr, Bool, true, false, Ensures, if◌then◌else◌, not, ◌&&◌, Option, none,
  some, List, Option-cases, Bool-cases, Run, normal, at_fault, at_limit, Ensures-bind,
  Ensures-bind_eq, Ensures-assert, arith, ltb, length,
}
use msgrpc.Msg.{RspMsgHeader, ServiceId}
use msgrpc.World.{
  Ptr, Cell, Kind, plain, derived, guarded, Guard, Decision, leave, give_value, give_failure,
  undefined_behaviour, Object, cell, action, Action, Logic, respond, guard_rpc, follow,
  derived_async, AsyncPart, Source, from_call, from_cell, World, Host,
}
use msgrpc.World.Store.{alloc_object}
use msgrpc.SeqTable.Linked.{IsLinked, Ensures-get_cell, alloc_object-IsLinked}
use msgrpc.Cell.{has_error, has_value_or_error, is_timeout, has_value, encode}
use msgrpc.Destroy.{destroy}
use msgrpc.Async.{source_cell, follow_cell, update_async, on_source_cell}
use msgrpc.Guarded.{
  views, get_guard, put_guard, bind_timeout_cell, watch, invoke_rpc_once, report_timeout,
  retry_rpc_if_need, on_rpc_cell, update_guard,
}
use msgrpc.Notify.{
  send_msg_with_header, send_rsp_cell_value, on_result_cell, decide, update_cell, run_logic,
  delete_if_set, update_action, update_object, notify,
}
use msgrpc.Safety.Cells.{
  Keeps, put_cell_ids, track-Keeps, set_failed_reason-Keeps, set_value-Keeps, set_cell_value-Keeps,
  register_listener-Keeps,
}
use msgrpc.Safety.Destructors.{destroy-Keeps}
use msgrpc.Safety.Calls.{Beside, encode_request_and_send-Ensures}

module _ {V : Type 0} where
  put_guard-Keeps : (p : Ptr) (g : Guard V) → Keeps (put_guard p g)
  unfolding put_guard
  put_guard-Keeps p g w l =
      Ensures-get_cell p w _
        λ c at. normal (put_cell_ids w p c (record c { kind = guarded g }) l at refl refl)

module _ {V : Type 0} (host : Host V) where
  pub send_msg-IsLinked :
      (id : ServiceId) (h : RspMsgHeader) (payload : List ℕ) (w : World V)
      → IsLinked w
      → IsLinked (send_msg_with_header host id h payload w)
  unfolding send_msg_with_header
  send_msg-IsLinked id h payload w l = ground arith

  pub send_rsp-Beside :
      (id : ServiceId) (h : RspMsgHeader) (c : Cell V) (w : World V)
      → IsLinked w
      → Beside (send_rsp_cell_value host id h c w)
  unfolding send_rsp_cell_value
  send_rsp-Beside id h c w l = elim (Option-cases c.value) [
    | inl e ↦ rw (e, send_rsp_cell_value) l
    | inr (v, e) ↦
        rw (e, send_rsp_cell_value)
          (elim (Option-cases (encode c.struct v)) [
            | inl bad ↦ rw bad l
            | inr (buf, good) ↦ rw good (send_msg-IsLinked id h buf w l)
          ])
  ]

  on_result_cell-Keeps :
      (id : ServiceId) (h : RspMsgHeader) (p : Ptr) → Keeps (on_result_cell host id h p)
  unfolding on_result_cell
  on_result_cell-Keeps id h p w l = Ensures-get_cell p w _ λ c at. elim (Bool-cases (has_value c)) [
    | inl e ↦ rw e (normal (send_rsp-Beside id h c w l))
    | inr e ↦ rw e (normal l)
  ]

module _ {V : Type 0} (host : Host V) (notify : Ptr → World V → Run (World V))
    (keep : (p : Ptr) → Keeps (notify p)) where
  bind_timeout_cell-Keeps : (ctxt p rpc : Ptr) → Keeps (bind_timeout_cell host notify ctxt p rpc)
  unfolding bind_timeout_cell
  bind_timeout_cell-Keeps ctxt p rpc w l =
      let o : Object V =
        action (record { is_final_action = false; cell = none; logic = guard_rpc p rpc }) in
      Ensures-bind _
        (register_listener-Keeps notify keep rpc w.next_ptr (alloc_object o w)
          (alloc_object-IsLinked w o l refl))
        (track-Keeps ctxt w.next_ptr)

  watch-Keeps : (p : Ptr) (g : Guard V) (rpc : Ptr) → Keeps (watch host notify p g rpc)
  unfolding watch
  watch-Keeps p g rpc w l = Ensures-bind _ (put_guard-Keeps p _ w l) λ w1 l1.
      Ensures-get_cell rpc w1 _ λ c at. elim (Bool-cases (has_error c)) [
        | inl e ↦ rw e (set_failed_reason-Keeps notify keep p c.status w1 l1)
        | inr e ↦ rw e (Ensures-assert c.has_seq_id λ _. bind_timeout_cell-Keeps g.ctxt p rpc _ l1)
      ]

  pub invoke_rpc_once-Keeps : (p : Ptr) → Keeps (invoke_rpc_once host notify p)
  unfolding invoke_rpc_once
  invoke_rpc_once-Keeps p w l = Ensures-bind_eq (get_guard p w) _ λ g _.
      Ensures-bind_eq (views g.args w) _ λ vs _. elim (Option-cases (g.call vs)) [
        | inl e ↦ rw e (normal l)
        | inr (call, e) ↦ rw e (
            Ensures-bind _ (encode_request_and_send-Ensures host g.ctxt call w l)
              λ r l'. watch-Keeps p g r.0 r.1 l')
      ]

  report_timeout-Keeps : (p : Ptr) → Keeps (report_timeout host notify p)
  unfolding report_timeout
  report_timeout-Keeps p w l = Ensures-bind_eq (get_guard p w) _ λ g _.
      elim (Option-cases g.timeout_cell) [
        | inl e ↦ rw e (normal l)
        | inr (t, e) ↦ rw e (set_value-Keeps notify keep t host.truth w l)
      ]

  retry-Keeps : (p : Ptr) (rsp : Cell V) → Keeps (retry_rpc_if_need host notify p rsp)
  unfolding retry_rpc_if_need
  retry-Keeps p rsp w l = Ensures-bind_eq (get_guard p w) _ λ g _.
      elim (Bool-cases (ltb 0 g.retry_times)) [
        | inl e ↦ rw e (Ensures-bind _ (put_guard-Keeps p _ w l) (invoke_rpc_once-Keeps p))
        | inr e ↦ rw e (
            Ensures-bind _ (set_failed_reason-Keeps notify keep p rsp.status w l)
              (report_timeout-Keeps p))
      ]

  on_rpc_cell-Keeps : (p rpc : Ptr) → Keeps (on_rpc_cell host notify p rpc)
  unfolding on_rpc_cell
  on_rpc_cell-Keeps p rpc w l = Ensures-get_cell rpc w _ λ c at. elim (Bool-cases (is_timeout c)) [
    | inl e ↦ rw e (retry-Keeps p c w l)
    | inr e ↦ rw e (elim (Bool-cases (has_value_or_error c)) [
      | inl full ↦
          rw full (Ensures-assert c.has_seq_id λ _. set_cell_value-Keeps notify keep p c _ l)
      | inr empty ↦ rw empty (set_cell_value-Keeps notify keep p c w l)
    ])
  ]

  update_guard-Keeps : (p : Ptr) (c : Cell V) (g : Guard V) → Keeps (update_guard host notify p c g)
  unfolding update_guard
  update_guard-Keeps p c g w l = Ensures-assert (ltb 0 (length g.args)) λ _.
      elim (Bool-cases (not (has_value_or_error c) && not g.is_rpc_started)) [
        | inl e ↦ rw e (invoke_rpc_once-Keeps p w l)
        | inr e ↦ rw e (normal l)
      ]

  either :
      (b : Bool) {r r' : Run (World V)}
      → Ensures IsLinked r
      → Ensures IsLinked r'
      → Ensures IsLinked (if b then r else r')
  either true h h' = h
  either false h h' = h'

  source_cell-Ensures :
      (ctxt : Ptr) (s : Source V) (w : World V)
      → IsLinked w
      → Ensures Beside (source_cell host notify ctxt s w)
  unfolding source_cell
  source_cell-Ensures ctxt (from_call call) w l = encode_request_and_send-Ensures host ctxt call w l
  source_cell-Ensures ctxt (from_cell q) w l = normal {a = (q, w)} l

  follow_cell-Keeps : (ctxt p q : Ptr) → Keeps (follow_cell host notify ctxt p q)
  unfolding follow_cell
  follow_cell-Keeps ctxt p q w l =
      let o : Object V =
        action (record { is_final_action = false; cell = none; logic = follow p q }) in
      Ensures-bind _
        (register_listener-Keeps notify keep q w.next_ptr (alloc_object o w)
          (alloc_object-IsLinked w o l refl))
        (track-Keeps ctxt w.next_ptr)

  update_async-Keeps :
      (p : Ptr) (c : Cell V) (a : AsyncPart V) → Keeps (update_async host notify p c a)
  unfolding update_async
  update_async-Keeps p c a w l = elim (Bool-cases (has_value_or_error c)) [
    | inl e ↦ rw e (normal l)
    | inr e ↦ rw e (
        Ensures-bind_eq (views a.args w) _ λ vs _.
          Ensures-bind _ (source_cell-Ensures a.ctxt (a.source vs) w l) λ r l1.
            Ensures-get_cell r.0 r.1 _ λ s at. elim (Bool-cases (has_error s)) [
              | inl bad ↦ rw bad (set_failed_reason-Keeps notify keep p s.status r.1 l1)
              | inr good ↦ rw good (follow_cell-Keeps a.ctxt p r.0 r.1 l1)
            ])
  ]

  on_source_cell-Keeps : (p q : Ptr) → Keeps (on_source_cell host notify p q)
  unfolding on_source_cell
  on_source_cell-Keeps p q w l = Ensures-get_cell q w _ λ c at.
      either (has_error c) (set_failed_reason-Keeps notify keep p c.status w l)
        (set_cell_value-Keeps notify keep p c w l)

  decide-Keeps :
      (delete : Ptr → World V → Run (World V)) (p : Ptr) (d : Decision V)
      → Keeps (decide host notify delete p d)
  unfolding decide
  decide-Keeps delete p leave w l = normal l
  decide-Keeps delete p (give_value v) w l = set_value-Keeps notify keep p v w l
  decide-Keeps delete p (give_failure r) w l = set_failed_reason-Keeps notify keep p r w l
  decide-Keeps delete p undefined_behaviour w l = at_fault

module _ {V : Type 0} (host : Host V) (notify delete : Ptr → World V → Run (World V))
    (keep : (p : Ptr) → Keeps (notify p)) (keep_delete : (p : Ptr) → Keeps (delete p)) where
  update_cell-Keeps :
      (p : Ptr) (c : Cell V) (k : Kind V) → Keeps (update_cell host notify delete p c k)
  unfolding update_cell
  update_cell-Keeps p c plain w l = normal l
  update_cell-Keeps p c (guarded g) w l = update_guard-Keeps host notify keep p c g w l
  update_cell-Keeps p c (derived_async a) w l = update_async-Keeps host notify keep p c a w l
  update_cell-Keeps p c (derived logic args) w l = elim (Bool-cases (has_value_or_error c)) [
    | inl e ↦ rw e (normal l)
    | inr e ↦ rw e (
        Ensures-bind_eq (views args w) _
          λ vs _. decide-Keeps host notify keep delete p (logic vs) w l)
  ]

  run_logic-Keeps : (x : Logic) → Keeps (run_logic host notify delete x)
  unfolding run_logic
  run_logic-Keeps (respond id h p) w l = on_result_cell-Keeps host id h p w l
  run_logic-Keeps (guard_rpc p rpc) w l = on_rpc_cell-Keeps host notify keep p rpc w l
  run_logic-Keeps (follow p q) w l = on_source_cell-Keeps host notify keep p q w l

  delete_if_set-Keeps : (p : Option Ptr) → Keeps (delete_if_set host notify delete p)
  unfolding delete_if_set
  delete_if_set-Keeps none w l = normal l
  delete_if_set-Keeps (some p) w l = keep_delete p w l

  update_action-Keeps : (a : Action) → Keeps (update_action host notify delete a)
  unfolding update_action
  update_action-Keeps a w l = Ensures-bind _ (run_logic-Keeps a.logic w l) λ w' l'.
      elim (Bool-cases a.is_final_action) [
        | inl e ↦ rw e (delete_if_set-Keeps a.cell w' l')
        | inr e ↦ rw e (normal l')
      ]

  update_object-Keeps :
      (p : Ptr) (o : Option (Object V)) → Keeps (update_object host notify delete p o)
  unfolding update_object
  update_object-Keeps p none w l = at_fault
  update_object-Keeps p (some (cell c)) w l = update_cell-Keeps p c c.kind w l
  update_object-Keeps p (some (action a)) w l = update_action-Keeps a w l

module _ {V : Type 0} (host : Host V) where
  -- Every update of every object, and all that it triggers, keeps the world linked.
  pub notify-Keeps : (k : ℕ) (p : Ptr) → Keeps (notify host k p)
  unfolding notify
  notify-Keeps zero p w l = at_limit
  notify-Keeps (suc k) p w l =
      update_object-Keeps host (notify host k) (destroy k) (notify-Keeps k) (destroy-Keeps k) p
        (w.objects p) w l
