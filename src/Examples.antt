-- ===== src/Examples.antt =====
-- Concrete hosts, structs and worlds on which the theorems are used, and tests of the definitions.
mod Adapter
mod Async
mod Calls
mod Demo
mod Discovery
mod Zookeeper
mod Guarded
mod Loop
mod Processes
mod Thrift
mod Threads
use msgrpc.Base.{
  ℕ, suc, ◌+◌, ◌*◌, Bool, true, false, Option, none, some, List, [], ◌∷◌, Run, ok, if◌then◌else◌,
  ◌==◌,
}
use msgrpc.Msg.{Bytes}
use msgrpc.World.{Ptr, Cell, cell, plain, Context, RpcCall, ThriftStruct, Object, World, Host}
use msgrpc.World.Store.{alloc_object, new_cell}
use msgrpc.Server.{Method, Iface, Repository}

-- A struct of one byte.
abbrev pub first_byte : Bytes → Option (ℕ × ℕ)
first_byte [] = none
first_byte (b ∷ rest) = some (b, 1)

abbrev pub byte : ThriftStruct ℕ
byte = record { write = λ v. some (v ∷ []); read = first_byte }

-- A platform on which every call succeeds, and one that resolves no service.
abbrev pub host : Host ℕ
host = record {
  ids = record {
    request_msg_id = 1;
    response_msg_id = 2;
    set_timer_msg_id = 3;
    timeout_msg_id = 4;
    schedule_task_msg_id = 5;
  };
  malloc = λ t size. true;
  send_msg = λ t p. true;
  resolve = λ t name request. some (127, 7777);
  truth = 1;
}

abbrev pub lonely_host : Host ℕ
lonely_host = record host { resolve = λ t name request. none }

-- One context, at pointer 0, and nothing else.
abbrev pub start : World ℕ
start = record {
  objects = λ p. none;
  contexts = λ p.
      if p == 0 then some (record { release_list = []; has_service_resolver = true }) else none;
  next_ptr = 1;
  id_func_map = λ s. none;
  sequence_id = 6;
  sent = [];
  timers = [];
  ticks = 0;
}

-- A call of method 1 of interface 2 with the argument 21.
abbrev pub call : RpcCall ℕ
call = record {
  service_name = 121 ∷ [];
  iface_index = 2;
  method_index = 1;
  request = 21;
  req_struct = byte;
  rsp_struct = byte;
}

abbrev pub result_cell : ℕ → Cell ℕ
result_cell v = record (new_cell byte plain) { value = some v }

-- The method gives a cell with twice its argument.
abbrev pub double : Method ℕ
double = record {
  req_struct = byte;
  method_impl = λ v w. ok (some w.next_ptr, alloc_object (cell (result_cell (v * 2))) w);
}

abbrev pub services : Repository ℕ
services = λ i. if i == 2 then some ((1, double) ∷ []) else none
