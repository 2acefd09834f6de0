-- ===== src/Lib.antt =====
-- msgrpc: asynchronous remote calls over messages, with cells that hold results to come.
--
-- The program. A caller builds cells in an RpcContext. A stub method encodes its request, takes a
-- sequence id, registers a fresh cell in the table of RspMsgHandler and sends the message. The service
-- finds the interface and the method of the request, runs the method, and sends the value of the cell
-- that it returned, at once or by a final action when the value comes. The response, or a timeout,
-- finds the cell by its sequence id and changes it; the change reaches the listeners of the cell
-- (derived cells, TimeoutCell, actions), which may change cells, send requests and delete contexts.
--
-- Which file models what (paths are from the repository's root; core is
-- msgrpc/include/msgrpc/core and msgrpc/src/msgrpc/core):
--   Msg, Msg/Wire      core/types.h, rpc_result.h: headers, and their bytes in a message
--   SequenceId         core/rpc_sequence_id.h, .cpp: RpcSequenceId on one thread; Threads: on several
--   World, World/Store the objects of one thread: cells, actions, contexts, the table, what was sent
--   SeqTable           core/cell/rsp_cell_base.*, core/msg/msg_handlers/rsp_msg_handler.*: id_func_map_
--   Cell               core/cell/cell_base.h, cell.h: operations on one cell; encode and decode of
--                      msgrpc/include/msgrpc/thrift/thrift_codec.h
--   Destroy            the destructors of core/cell
--   RspMsgHandler      core/msg/msg_handlers/rsp_msg_handler.cpp: responses and timeouts
--   Stub               core/iface_stub/iface_stub_base.h, .cpp: encode_request_and_send
--   Guarded            core/cell/timeout_cell.h: TimeoutCell
--   Async              core/cell/derived_async_cell.h: DerivedAsyncCell
--   Notify             Updatable::update of every class, and MsgSender
--   Derive             core/cell/derived_cell.h, derived_action.h, core/service_interaction/si_base.h
--   Server             core/iface_impl, msgrpc/include/msgrpc/api/api_interface_impl_define.h,
--                      core/msg/msg_handlers/req_msg_handler.cpp
--   Dispatch           core/msg/msg_handlers/msg_handler_mgr.cpp, the timeout and task handlers,
--                      core/schedule
--   Discovery          core/service_discovery, demo_services/service_x/src/service_discovery
--   Discovery/Listeners  there too, and msgrpc/include/msgrpc/util/instances_collector.h: listeners,
--                      and resolvers that follow the instances of their service
--   Discovery/Names    msgrpc/adapter_example/core/adapter/zk_service_register.cpp: strings of instances
--   Discovery/Register the same file: ZkServiceRegister, as the main queue's thread uses it
--   Discovery/Zookeeper the same file: the connection, the watchers and the first fetch
--   Thrift             msgrpc/include/msgrpc/thrift/thrift_types.h, thrift_struct_declare.h: types of
--                      fields, objects of the structs; Objects: how they are set, compared, copied
--   Thrift/Protocol    the operations of a TProtocol, and reading in general
--   Thrift/Codec       thrift_types.h, thrift_struct_define.h: read and write of types and structs;
--                      Evolution: versions of a struct; Loops, Written, RoundTrip,
--                      Ends, Total, Typed and Typing hold proofs
--   Thrift/Structs     a struct as ThriftEncoder and ThriftDecoder see it
--   Thrift/Buffers     msgrpc/include/msgrpc/thrift/thrift_codec.h: the encoder and the decoder of a thread
--   Adapter            msgrpc/adapter_example: details/UdpChannel.h, core/adapter/udp_msg_channel.h and
--                      simple_timer_adapter.h: datagrams and timers; Channels: the channels of a process
--   Adapter/Loop       details/msgrpc_test_loop.h and set_timer_handler.h there: what the loop of a
--                      process does with a message, and the threads that wait for timers
--   Config             core/adapter/config.h, .cpp
--   Api                msgrpc/include/msgrpc/api: what the macros write for the interfaces of a service
--   Demo               demo_services: the methods of service_y, responses of service_z and service_k;
--                      ServiceX: the interactions of service_x; TestRunner: its runner of test cases;
--                      ServiceZ: the methods of service_z
-- Safety and RoundTrip hold theorems that span these parts; Examples holds the witnesses.
--
-- The model. A function that changes state takes a World and gives a Run: ok with the new state,
-- fault (a failed assertion, a null or dangling pointer, an int32_t that overflows), or out_of_fuel.
-- A pointer is a number, and a freed object is missing from the heap. A virtual call of update() is
-- `notify`, which has fuel for the depth of updates that trigger updates; `destroy` has fuel for the
-- depth of contexts inside contexts. The operations of one cell take `notify` as a parameter, so that
-- their theorems hold for any fuel. The loop that reads the fields of a struct has one round for each
-- byte and one more, since each round reads a field header (Thrift/Codec/Total shows that they are
-- enough). The wait for ZooKeeper has fuel, and Discovery/Zookeeper/Connection says how much is
-- enough. The theorems that say what a call or a message does give the result as ok, with one unit of
-- fuel where a cell is destroyed.
--
-- What is a parameter: malloc, the resolver and the message channel (Host, functions of the count of
-- calls so far), the operations of the Apache Thrift protocol (Protocol, with laws Lawful, in the
-- ranges of types and ids that the binary protocol writes, and Advances), each struct's read and
-- write where the calls are concerned (ThriftStruct; Thrift/Structs gives one), Apache Thrift's
-- TMemoryBuffer (MemoryBuffer, with the law IsBuffer), the code of service methods (Method) and of
-- tasks, the ZooKeeper client library (Zookeeper, functions of the count of calls so far), asio's
-- addresses and the C library's strtoul, the layout of timer_info and of pointers (Platform,
-- TimerLayout). Cells of all types hold values of one type V.
--
-- Not modelled: logging; the socket of the example adapter and the start-up of its loops; the
-- singletons of singleton.h (one World is one thread); actions of client code; the main programs and
-- the test cases of the demo services; the code that the thrift compiler generated;
-- session_watcher_fn, which only logs.
pub mod Base
pub mod Msg
pub mod SequenceId
pub mod World
pub mod SeqTable
pub mod Cell
pub mod Destroy
pub mod RspMsgHandler
pub mod Stub
pub mod Guarded
pub mod Async
pub mod Notify
pub mod Derive
pub mod Server
pub mod Dispatch
pub mod Safety
pub mod RoundTrip
pub mod Discovery
pub mod Adapter
pub mod Api
pub mod Config
pub mod Demo
pub mod Thrift
pub mod Examples
