-- ===== src/Dispatch.antt =====
-- core/msg/msg_handlers/msg_handler_mgr.cpp: a message goes to the handler of its id; with
-- rpc_timeout_handler.cpp, main_queue_task_handler.cpp and core/schedule/task_run_on_main_queue.cpp.
use msgrpc.Base.{
  ℕ, ◌%◌, ◌^◌, Bool, true, false, Option, none, some, Run, ok, ◌>>=◌, if◌then◌else◌, ◌==◌, ltb,
  length, deref,
}
use msgrpc.Msg.{Bytes, ServiceId, Packet}
use msgrpc.World.{Ptr, World, Host}
use msgrpc.World.Store.{update, sent_packet}
use msgrpc.Notify.{notify}
use msgrpc.RspMsgHandler.{handle_rpc_rsp, on_rsp_handler_timeout}
use msgrpc.Server.{Repository, on_rpc_req_msg}

-- sizeof(TaskPtr).
abbrev pub sizeof_task_ptr : ℕ
sizeof_task_ptr = 8

-- Tasks are objects of their own heap; a task is the code that it runs. `timer_user_data` reads
-- `user_data_` from the bytes of a `timer_info` (none: they are not of its size), and `task_ptr`
-- and `task_bytes` are the copy of a pointer through bytes: their layout is the platform's.
pub record Platform (V : Type 0) : Type 0 where
  pub timer_user_data : Bytes → Option ℕ
  pub task_ptr : Bytes → Ptr
  pub task_bytes : Ptr → Bytes
  pub self : ServiceId

abbrev pub Tasks : Type 0 → Type 0
Tasks V = Ptr → Option (World V → Run (World V))

pub record Process (V : Type 0) : Type 0 where
  pub world : World V
  pub tasks : Tasks V

module _ {V : Type 0} (host : Host V) (platform : Platform V) where
  -- `TaskRunOnMainQueue::schedule`.
  unfoldable pub schedule : Ptr → World V → Bool × World V
  schedule task w =
      let packet : Packet = record {
        to = platform.self;
        msg_id = host.ids.schedule_task_msg_id;
        buf = platform.task_bytes task;
      } in
      (host.send_msg w.ticks packet, sent_packet packet w)

  -- `Task::dispatch_async_to_main_queue` of a task at a fresh pointer.
  unfoldable pub dispatch_async_to_main_queue :
      Ptr → (World V → Run (World V)) → Process V → Bool × Process V
  unfolding schedule
  dispatch_async_to_main_queue fresh lambda s =
      let (scheduled, w) = schedule fresh s.world in
      if scheduled
      then (true, record { world = w; tasks = update s.tasks fresh (some lambda) })
      else (false, record { world = w; tasks = update s.tasks fresh none })

  -- `RpcTimeoutHandler::on_timeout`: the size is asserted, and the id is cut to 32 bits.
  unfoldable pub on_timeout : ℕ → Bytes → World V → Run (World V)
  unfolding on_rsp_handler_timeout notify
  on_timeout fuel msg w = do
    user_data ← deref (platform.timer_user_data msg)
    on_rsp_handler_timeout (notify host fuel) (user_data % 2 ^ 32) w

  -- `MainQueueTaskHandler::handle_task`: the task runs and is deleted.
  unfoldable pub handle_task : Bytes → Process V → Run (Process V)
  handle_task msg s = if ltb (length msg) sizeof_task_ptr then ok s else (do
    task ← deref (s.tasks (platform.task_ptr msg))
    w ← task s.world
    ok (record { world = w; tasks = update s.tasks (platform.task_ptr msg) none }))

  abbrev pub in_world : Run (World V) → Process V → Run (Bool × Process V)
  in_world r s = do w ← r; ok (true, record s { world = w })

  -- `MsgHandlerMgr::handle_msg`.
  unfoldable pub handle_msg :
      ℕ → Repository V → ℕ → Bytes → ServiceId → Process V → Run (Bool × Process V)
  handle_msg fuel repository msg_id msg sender s =
      if msg_id == host.ids.request_msg_id
      then in_world (on_rpc_req_msg host fuel repository msg_id msg sender s.world) s
      else if msg_id == host.ids.response_msg_id
      then in_world (handle_rpc_rsp (notify host fuel) (some msg) s.world) s
      else if msg_id == host.ids.timeout_msg_id
      then in_world (on_timeout fuel msg s.world) s
      else if msg_id == host.ids.schedule_task_msg_id
      then (do s' ← handle_task msg s; ok (true, s'))
      else ok (false, s)
