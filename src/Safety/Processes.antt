-- ===== src/Safety/Processes.antt =====
-- A whole process: builders of cell graphs, and every message that may come in.
use msgrpc.Base.{
  ℕ, ◌%◌, ◌^◌, ◌≡◌, refl, inl, inr, Bool, true, false, Option, none, some, List, [], ◌∷◌,
  Bool-cases, Run, ok, ◌>>=◌, Ensures, normal, Ensures-bind, Ensures-bind_eq, deref, deref-eq-ok,
  length, ltb, ◌==◌, if◌then◌else◌, arith,
}
use msgrpc.Msg.{ServiceId, Bytes}
use msgrpc.World.{
  Ptr, Object, cell, derived, guarded, derived_async, AsyncPart, Source, Guard, Decision, View,
  RpcCall, ThriftStruct, World, Host,
}
use msgrpc.World.Store.{alloc_object, new_cell, update, track}
use msgrpc.SeqTable.Linked.{IsLinked, alloc_object-IsLinked}
use msgrpc.Notify.{notify}
use msgrpc.Guarded.{invoke_rpc_once}
use msgrpc.Derive.{register_as_listener, derive_cell, derive_async_cell, derive_rpc_cell}
use msgrpc.Server.{Repository}
use msgrpc.Dispatch.{
  Platform, Process, Tasks, on_timeout, handle_task, in_world, handle_msg, sizeof_task_ptr,
}
use msgrpc.Safety.Cells.{Keeps, register_listener-Keeps, track-Keeps}
use msgrpc.Safety.Calls.{Beside}
use msgrpc.Safety.Updates.{notify-Keeps, invoke_rpc_once-Keeps}
use msgrpc.Safety.Messages.{
  RepositoryKeeps, on_rpc_req_msg-Keeps, handle_rpc_rsp-Keeps, on_rsp_handler_timeout-Keeps,
}

module _ {V : Type 0} (host : Host V) (notify : Ptr → World V → Run (World V))
    (keep : (p : Ptr) → Keeps (notify p)) where
  register_as_listener-Keeps :
      (args : List Ptr) (p : Ptr) → Keeps (register_as_listener host notify args p)
  unfolding register_as_listener
  register_as_listener-Keeps [] p w l = normal l
  register_as_listener-Keeps (arg ∷ args) p w l =
      Ensures-bind _ (register_listener-Keeps notify keep arg p w l)
        (register_as_listener-Keeps args p)

  tracked :
      (ctxt p : Ptr) (r : Run (World V))
      → Ensures IsLinked r
      → Ensures Beside (r >>= λ w1. track ctxt p w1 >>= λ w2. ok (p, w2))
  tracked ctxt p r e = Ensures-bind _ e λ w1 l1.
      Ensures-bind (λ w2. ok (p, w2)) (track-Keeps ctxt p w1 l1) λ w2 l2. normal {a = (p, w2)} l2

  -- `derive_cell` keeps the world linked.
  pub derive_cell-Ensures :
      (ctxt : Ptr) (s : ThriftStruct V) (logic : List (View V) → Decision V) (args : List Ptr)
      (w : World V)
      → IsLinked w
      → Ensures Beside (derive_cell host notify ctxt s logic args w)
  unfolding derive_cell
  derive_cell-Ensures ctxt s logic args w l =
      let o : Object V = cell (new_cell s (derived logic args)) in
      tracked ctxt w.next_ptr _ (
        register_as_listener-Keeps args w.next_ptr (alloc_object o w)
          (alloc_object-IsLinked w o l refl))

  -- `derive_async_cell` keeps the world linked.
  pub derive_async_cell-Ensures :
      (ctxt : Ptr) (s : ThriftStruct V) (source : List (View V) → Source V) (args : List Ptr)
      (w : World V)
      → IsLinked w
      → Ensures Beside (derive_async_cell host notify ctxt s source args w)
  unfolding derive_async_cell
  derive_async_cell-Ensures ctxt s source args w l =
      let part : AsyncPart V = record { ctxt = ctxt; source = source; args = args } in
      let o : Object V = cell (new_cell s (derived_async part)) in
      tracked ctxt w.next_ptr _ (
        register_as_listener-Keeps args w.next_ptr (alloc_object o w)
          (alloc_object-IsLinked w o l refl))

  started :
      (args : List Ptr) (p : Ptr) (w : World V)
      → IsLinked w
      → Ensures IsLinked (
          if length args == 0
          then invoke_rpc_once host notify p w
          else register_as_listener host notify args p w)
  started args p w l = elim (Bool-cases (length args == 0)) [
    | inl e ↦ rw e (invoke_rpc_once-Keeps host notify keep p w l)
    | inr e ↦ rw e (register_as_listener-Keeps args p w l)
  ]

  -- `derive_rpc_cell` keeps the world linked.
  pub derive_rpc_cell-Ensures :
      (ctxt : Ptr) (s : ThriftStruct V) (timeout_ms retry_times : ℕ)
      (call : List (View V) → Option (RpcCall V)) (args : List Ptr) (w : World V)
      → IsLinked w
      → Ensures Beside (derive_rpc_cell host notify ctxt s timeout_ms retry_times call args w)
  unfolding derive_rpc_cell
  derive_rpc_cell-Ensures ctxt s timeout_ms retry_times call args w l =
      let g : Guard V = record {
        ctxt = ctxt;
        timeout_ms = timeout_ms;
        retry_times = retry_times;
        call = call;
        args = args;
        is_rpc_started = false;
        timeout_cell = none;
      } in
      let o : Object V = cell (new_cell s (guarded g)) in
      tracked ctxt w.next_ptr _
        (started args w.next_ptr (alloc_object o w) (alloc_object-IsLinked w o l refl))

module _ {V : Type 0} (host : Host V) (platform : Platform V) (fuel : ℕ) where
  -- The tasks of a process keep worlds linked.
  abbrev pub TasksKeep : Tasks V → Type 0
  TasksKeep tasks = (p : Ptr) (t : World V → Run (World V)) → tasks p ≡ some t → Keeps t

  pub record IsSafe (s : Process V) : Type 0 where
    pub linked : IsLinked s.world
    pub tasks : TasksKeep s.tasks

  on_timeout-Keeps : (msg : Bytes) → Keeps (on_timeout host platform fuel msg)
  unfolding on_timeout
  on_timeout-Keeps msg w l = Ensures-bind_eq (deref (platform.timer_user_data msg)) _ λ d _.
      on_rsp_handler_timeout-Keeps (notify host fuel) (notify-Keeps host fuel) (d % 2 ^ 32) w l

  TasksKeep-erase : (p : Ptr) (ts : Tasks V) → TasksKeep ts → TasksKeep (update ts p none)
  TasksKeep-erase p ts keep q t e = elim (Bool-cases (q == p)) [
    | inl hit ↦ absurd (ground arith)
    | inr miss ↦ keep q t (rw miss at e)
  ]

  handle_task-Ensures :
      (msg : Bytes) (s : Process V) → IsSafe s → Ensures IsSafe (handle_task host platform msg s)
  unfolding handle_task
  handle_task-Ensures msg s safe = elim (Bool-cases (ltb (length msg) sizeof_task_ptr)) [
    | inl short ↦ rw short (normal safe)
    | inr long ↦ rw long (
        Ensures-bind_eq (deref (s.tasks (platform.task_ptr msg))) _ λ t e.
          Ensures-bind _
            (safe.tasks (platform.task_ptr msg) t (deref-eq-ok (s.tasks (platform.task_ptr msg)) e)
              s.world safe.linked)
            λ w' l'. normal (record { linked = l'; tasks = TasksKeep-erase _ s.tasks safe.tasks }))
  ]

  abbrev SafeBeside : Bool × Process V → Type 0
  SafeBeside r = IsSafe r.1

  in_world-Ensures :
      (r : Run (World V)) (s : Process V)
      → IsSafe s
      → Ensures IsLinked r
      → Ensures SafeBeside (in_world host platform r s)
  in_world-Ensures r s safe e =
      Ensures-bind (λ w. ok (true, record s { world = w })) e
        λ w' l'.
          normal {a = (true, record s { world = w' })} (record { linked = l'; tasks = safe.tasks })

  task_done :
      (msg : Bytes) (s : Process V)
      → IsSafe s
      → Ensures SafeBeside (handle_task host platform msg s >>= λ s'. ok (true, s'))
  task_done msg s safe =
      Ensures-bind (λ s'. ok (true, s')) (handle_task-Ensures msg s safe)
        λ s' safe'. normal {a = (true, s')} safe'

  other_messages :
      (msg_id : ℕ) (msg : Bytes) (s : Process V)
      → IsSafe s
      → Ensures SafeBeside (
          if msg_id == host.ids.timeout_msg_id
          then in_world host platform (on_timeout host platform fuel msg s.world) s
          else if msg_id == host.ids.schedule_task_msg_id
          then (handle_task host platform msg s >>= λ s'. ok (true, s'))
          else ok (false, s))
  other_messages msg_id msg s safe = elim (Bool-cases (msg_id == host.ids.timeout_msg_id)) [
    | inl timer ↦ rw timer (in_world-Ensures _ s safe (on_timeout-Keeps msg s.world safe.linked))
    | inr e ↦ rw e (elim (Bool-cases (msg_id == host.ids.schedule_task_msg_id)) [
      | inl task ↦ rw task (task_done msg s safe)
      | inr e' ↦ rw e' (normal {a = (false, s)} safe)
    ])
  ]

  -- Whatever message comes in, if its handling ends normally, the table of handlers and the cells stay
  -- in agreement, if the code of the services and of the queued tasks keeps them so.
  pub handle_msg-IsSafe :
      (repository : Repository V) (msg_id : ℕ) (msg : Bytes) (sender : ServiceId) (s : Process V)
      → RepositoryKeeps repository
      → IsSafe s
      → Ensures SafeBeside (handle_msg host platform fuel repository msg_id msg sender s)
  unfolding handle_msg
  handle_msg-IsSafe repository msg_id msg sender s keep safe =
      elim (Bool-cases (msg_id == host.ids.request_msg_id)) [
        | inl request ↦ rw request (
            in_world-Ensures _ s safe (
              on_rpc_req_msg-Keeps host fuel repository msg_id msg sender keep s.world safe.linked))
        | inr e ↦ rw e (elim (Bool-cases (msg_id == host.ids.response_msg_id)) [
          | inl response ↦ rw response (
              in_world-Ensures _ s safe (
                handle_rpc_rsp-Keeps (notify host fuel) (notify-Keeps host fuel) (some msg) s.world
                  safe.linked))
          | inr e' ↦ rw e' (other_messages msg_id msg s safe)
        ])
      ]
