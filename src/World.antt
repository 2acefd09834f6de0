-- ===== src/World.antt =====
-- The objects that one thread of the library works on: cells, actions, contexts (the structs of
-- core/cell/), the table of response handlers, the sequence id, and what was sent and timed.
-- A pointer is a number; a freed object is missing from the heap, so that its use is a fault.
pub mod Store
use msgrpc.Base.{ℕ, Bool, Option, List}
use msgrpc.Msg.{RpcResult, RspMsgHeader, ServiceId, Bytes, Packet}

abbrev pub Ptr : Type 0
Ptr = ℕ

-- The serialisation of one struct type: its `write` (none: an exception), and its `read` with the
-- count of bytes that it reports.
pub record ThriftStruct (V : Type 0) : Type 0 where
  pub write : V → Option Bytes
  pub read : Bytes → Option (V × ℕ)

-- What client code sees of a cell: `failed_reason()`, and `value()` where `has_value()`.
pub record View (V : Type 0) : Type 0 where
  pub status : RpcResult
  pub value : Option V

-- What the logic of a derived cell does to its result cell.
pub data Decision (V : Type 0) : Type 0 where
  leave : Decision V
  give_value : V → Decision V
  give_failure : RpcResult → Decision V
  -- It does what C++ leaves undefined.
  undefined_behaviour : Decision V

-- A call of a stub method: `IX(ctxt).method(request)`.
pub record RpcCall (V : Type 0) : Type 0 where
  pub service_name : Bytes
  pub iface_index : ℕ
  pub method_index : ℕ
  pub request : V
  pub req_struct : ThriftStruct V
  pub rsp_struct : ThriftStruct V

-- The members of a `TimeoutCell`. `call` is the bound function: none is its `nullptr`.
pub record Guard (V : Type 0) : Type 0 where
  pub ctxt : Ptr
  pub timeout_ms : ℕ
  pub retry_times : ℕ
  pub call : List (View V) → Option (RpcCall V)
  pub args : List Ptr
  pub is_rpc_started : Bool
  pub timeout_cell : Option Ptr

-- Where the function of a `DerivedAsyncCell` has its cell from: a stub's method, or another cell.
pub data Source (V : Type 0) : Type 0 where
  from_call : RpcCall V → Source V
  from_cell : Ptr → Source V

-- The members of a `DerivedAsyncCell`, and the cells that its function reads.
pub record AsyncPart (V : Type 0) : Type 0 where
  pub ctxt : Ptr
  pub source : List (View V) → Source V
  pub args : List Ptr

-- The class of a cell, with the members that the class adds.
pub data Kind (V : Type 0) : Type 0 where
  plain : Kind V
  derived : (List (View V) → Decision V) → List Ptr → Kind V
  guarded : Guard V → Kind V
  derived_async : AsyncPart V → Kind V

-- `value` holds `value_` where `has_value_` is set.
pub record Cell (V : Type 0) : Type 0 where
  pub status : RpcResult
  pub value : Option V
  pub updatables : List Ptr
  pub context : Option Ptr
  pub has_seq_id : Bool
  pub seq_id : ℕ
  pub struct : ThriftStruct V
  pub kind : Kind V

-- The functions that the library itself binds in actions: the response of a service to its
-- caller, and the reactions of a `TimeoutCell` and a `DerivedAsyncCell` (the first pointer) to
-- the cell of their call.
pub data Logic : Type 0 where
  respond : ServiceId → RspMsgHeader → Ptr → Logic
  guard_rpc : Ptr → Ptr → Logic
  follow : Ptr → Ptr → Logic

pub record Action : Type 0 where
  pub is_final_action : Bool
  pub cell : Option Ptr
  pub logic : Logic

pub data Object (V : Type 0) : Type 0 where
  cell : Cell V → Object V
  action : Action → Object V

-- `RpcContext`; of `service_resolver_` it is said whether it is set.
pub record Context : Type 0 where
  pub release_list : List Ptr
  pub has_service_resolver : Bool

pub data TimerCall : Type 0 where
  set_timer : (ms seq_id : ℕ) → TimerCall
  cancel_timer : (seq_id : ℕ) → TimerCall

-- The message ids of `Config`.
pub record MsgIds : Type 0 where
  pub request_msg_id : ℕ
  pub response_msg_id : ℕ
  pub set_timer_msg_id : ℕ
  pub timeout_msg_id : ℕ
  pub schedule_task_msg_id : ℕ

-- What the platform and the adapters answer. Each call sees how many calls came before it.
-- `truth` is the value `true` of a `CellBase<bool>`.
pub record Host (V : Type 0) : Type 0 where
  pub ids : MsgIds
  pub malloc : (tick size : ℕ) → Bool
  pub send_msg : (tick : ℕ) → Packet → Bool
  pub resolve : (tick : ℕ) (service_name request : Bytes) → Option ServiceId
  pub truth : V

pub record World (V : Type 0) : Type 0 where
  pub objects : Ptr → Option (Object V)
  pub contexts : Ptr → Option Context
  pub next_ptr : Ptr
  pub id_func_map : ℕ → Option Ptr
  pub sequence_id : ℕ
  pub sent : List Packet
  pub timers : List TimerCall
  pub ticks : ℕ
