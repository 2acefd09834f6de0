-- ===== src/Derive.antt =====
-- The functions that build a graph of cells in a context (derive_cell, derive_rpc_cell,
-- derive_async_cell, derive_final_action), and core/service_interaction/si_base.h, which runs such a builder.
use msgrpc.Base.{
  ℕ, ◌+◌, true, false, Option, none, some, List, [], ◌∷◌, Run, ok, fault, ◌>>=◌, deref, length,
  if◌then◌else◌, ◌==◌,
}
use msgrpc.Msg.{RspMsgHeader, ServiceId}
use msgrpc.World.{
  Ptr, derived, guarded, derived_async, AsyncPart, Source, Guard, Decision, View, RpcCall,
  ThriftStruct, respond, Action, cell, action, Context, World, Host,
}
use msgrpc.World.Store.{get_cell, put_cell, put_object, alloc_object, track, new_cell, put_context}
use msgrpc.Cell.{register_listener}
use msgrpc.Guarded.{invoke_rpc_once}

module _ {V : Type 0} (host : Host V) (notify : Ptr → World V → Run (World V)) where
  -- `Cell::register_as_listener` on the arguments in turn.
  unfoldable pub register_as_listener : List Ptr → Ptr → World V → Run (World V)
  unfolding register_listener
  register_as_listener [] p w = ok w
  register_as_listener (arg ∷ args) p w = do
    w' ← register_listener notify arg p w
    register_as_listener args p w'

  -- `derive_cell`: the new cell.
  unfoldable pub derive_cell :
      Ptr → ThriftStruct V → (List (View V) → Decision V) → List Ptr → World V → Run (Ptr × World V)
  unfolding register_as_listener track
  derive_cell ctxt s logic args w = do
    let p = w.next_ptr
    w1 ← register_as_listener args p (alloc_object (cell (new_cell s (derived logic args))) w)
    w2 ← track ctxt p w1
    ok (p, w2)

  -- `derive_rpc_cell` with a time limit and a number of retries.
  unfoldable pub derive_rpc_cell :
      Ptr
      → ThriftStruct V
      → (timeout_ms retry_times : ℕ) → (List (View V) → Option (RpcCall V))
      → List Ptr
      → World V
      → Run (Ptr × World V)
  unfolding register_as_listener track invoke_rpc_once
  derive_rpc_cell ctxt s timeout_ms retry_times call args w = do
    let p = w.next_ptr
    let g : Guard V = record {
      ctxt = ctxt;
      timeout_ms = timeout_ms;
      retry_times = retry_times;
      call = call;
      args = args;
      is_rpc_started = false;
      timeout_cell = none;
    }
    let w0 = alloc_object (cell (new_cell s (guarded g))) w
    w1 ←
        (if length args == 0
          then invoke_rpc_once host notify p w0
          else register_as_listener args p w0)
    w2 ← track ctxt p w1
    ok (p, w2)

  -- `derive_async_cell`: the new cell.
  unfoldable pub derive_async_cell :
      Ptr → ThriftStruct V → (List (View V) → Source V) → List Ptr → World V → Run (Ptr × World V)
  unfolding register_as_listener track
  derive_async_cell ctxt s source args w = do
    let p = w.next_ptr
    let a : AsyncPart V = record { ctxt = ctxt; source = source; args = args }
    w1 ← register_as_listener args p (alloc_object (cell (new_cell s (derived_async a))) w)
    w2 ← track ctxt p w1
    ok (p, w2)

  -- `cell_ = &c` in the action `a`.
  unfoldable pub bind_result_cell : Ptr → Ptr → World V → Run (World V)
  bind_result_cell a p w = elim (w.objects a) [
    | some (action x) ↦ ok (put_object a (some (action (record x { cell = some p }))) w)
    | _ ↦ fault
  ]

  -- `derive_final_action` on the result cell of a service interaction.
  unfoldable pub derive_final_action : ServiceId → RspMsgHeader → Ptr → World V → Run (World V)
  unfolding register_listener track bind_result_cell
  derive_final_action id h p w = do
    let a = w.next_ptr
    let final : Action = record { is_final_action = true; cell = none; logic = respond id h p }
    w1 ← register_listener notify p a (alloc_object (action final) w)
    c ← get_cell p w1
    ctxt ← deref c.context
    w2 ← track ctxt a w1
    bind_result_cell a p w2

-- `std::list::remove`.
unfoldable pub remove : Ptr → List Ptr → List Ptr
remove p [] = []
remove p (q ∷ qs) = if q == p then remove p qs else q ∷ remove p qs

module _ {V : Type 0} where
  -- `run_si`: the interaction builds its cells in a new context, which the result cell then owns.
  unfoldable pub run_si :
      (V → Ptr → World V → Run (Ptr × World V)) → V → World V → Run (Ptr × World V)
  unfolding remove
  run_si si req w = do
    let ctxt = w.next_ptr
    let fresh : Context = record { release_list = []; has_service_resolver = true }
    (p, w1) ← si req ctxt (put_context ctxt (some fresh) (record w { next_ptr = w.next_ptr + 1 }))
    c ← get_cell p w1
    x ← deref (w1.contexts ctxt)
    ok (
      p,
      put_context ctxt (some (record x { release_list = remove p x.release_list }))
          (put_cell p (record c { context = some ctxt }) w1),
    )
