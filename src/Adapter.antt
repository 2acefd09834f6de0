-- ===== src/Adapter.antt =====
-- adapter_example/details/UdpChannel.h and core/adapter/udp_msg_channel.h: messages as datagrams; and
-- core/adapter/simple_timer_adapter.h: the timers of the example.
pub mod Channels
pub mod Datagrams
pub mod Timers
pub mod Loop
use msgrpc.Base.{
  ℕ, zero, suc, ◌+◌, ◌-◌, ◌*◌, ◌/◌, ◌%◌, ◌^◌, Bool, true, false, ◌&&◌, ◌||◌, Option, none, some,
  List, [], ◌∷◌, ◌++◌, Run, ok, fault, ◌>>◌, assert, length, drop, if◌then◌else◌, ◌==◌,
}
use msgrpc.Msg.{Bytes, ServiceId}

-- What `on_msg_func_` is called with: `msg` is all of the buffer behind the message id.
pub record Delivery : Type 0 where
  pub msg_id : ℕ
  pub msg : Bytes
  pub len : ℕ
  pub sender : ServiceId

-- A `UdpChannel`: the buffers that it handed over to `async_send_to` with what they held at the call,
-- what it gave to `on_msg_func_`, and how often it asked the socket for a datagram. The memory of a
-- buffer is a string of the caller, which may be gone when the socket reads it: what goes out on the
-- wire is not modelled. `recv_buffer` holds 10240 bytes, and the socket writes it.
pub record UdpChannel : Type 0 where
  pub service_id : ServiceId
  pub remote_endpoint : ServiceId
  pub recv_buffer : Bytes
  pub handed_over : List (ServiceId × Bytes)
  pub delivered : List Delivery
  pub receives : ℕ

abbrev pub sizeof_msg_id : ℕ
sizeof_msg_id = 2

-- `*(msg_id_t*)mem = msg_id`, and the `memcpy` behind it.
abbrev pub frame : ℕ → Bytes → Bytes
frame msg_id buf = (msg_id % 256) ∷ (msg_id / 256 % 256) ∷ buf

-- `*(msg_id_t*)recv_buffer_.data()`.
abbrev pub leading_msg_id : Bytes → ℕ
leading_msg_id (b ∷ b' ∷ rest) = b + 256 * b'
leading_msg_id _ = 0

-- The errors that a receive reports.
pub data ReceiveError : Type 0 where
  no_error message_size other_error : ReceiveError

abbrev pub start_receive : UdpChannel → UdpChannel
start_receive c = record c { receives = c.receives + 1 }

-- `UdpChannel::handle_receive` of a datagram; a `size_t` has 64 bits.
unfoldable pub deliver_datagram : ℕ → UdpChannel → UdpChannel
deliver_datagram bytes_transferred c = start_receive (record c {
  delivered =
      (record {
        msg_id = leading_msg_id c.recv_buffer;
        msg = drop sizeof_msg_id c.recv_buffer;
        len = (bytes_transferred + 2 ^ 64 - sizeof_msg_id) % 2 ^ 64;
        sender = c.remote_endpoint;
      })
      ∷ c.delivered;
})

unfoldable pub handle_receive : ReceiveError → ℕ → UdpChannel → UdpChannel
unfolding deliver_datagram
handle_receive no_error n c = deliver_datagram n c
handle_receive message_size n c = deliver_datagram n c
handle_receive other_error n c = c

abbrev pub send_msg_to_remote : Bytes → ServiceId → UdpChannel → UdpChannel
send_msg_to_remote msg to c = record c { handed_over = (to, msg) ∷ c.handed_over }

-- `UdpMsgChannel::send_msg`, with the answer of `malloc`: the result is true in any case.
unfoldable pub send_msg : Bool → ServiceId → ℕ → Bytes → UdpChannel → Bool × UdpChannel
send_msg true to msg_id buf c = (true, send_msg_to_remote (frame msg_id buf) to c)
send_msg false to msg_id buf c = (true, c)

abbrev pub send_msg_to_self : Bool → ℕ → Bytes → UdpChannel → Bool × UdpChannel
send_msg_to_self mem msg_id buf c = send_msg mem c.service_id msg_id buf c

-- `UdpMsgChannel::sender`, which asserts that a message is there.
abbrev pub sender_of : UdpChannel → Run ServiceId
sender_of c = do assert (if c.remote_endpoint.1 == 0 then false else true); ok c.remote_endpoint

-- The constructor, before it runs the service: "00init" goes to the channel itself.
abbrev pub new_channel : ServiceId → Bytes → UdpChannel
new_channel service_id buffer =
    send_msg_to_remote (48 ∷ 48 ∷ 105 ∷ 110 ∷ 105 ∷ 116 ∷ []) service_id (
      start_receive (record {
        service_id = service_id;
        remote_endpoint = (0, 0);
        recv_buffer = buffer;
        handed_over = [];
        delivered = [];
        receives = 0;
      }))

-- `TimerMgr`: the ids whose timers were cancelled.
abbrev pub TimerMgr : Type 0
TimerMgr = List ℕ

-- `SimpleTimerAdapter::cancel_timer` with `TimerMgr::cancel_timer`: the id is cut to 32 bits.
unfoldable pub cancel_timer : ℕ → TimerMgr → TimerMgr
cancel_timer user_data canceled = canceled ++ (user_data % 2 ^ 32) ∷ []

abbrev pub is_canceled : ℕ → TimerMgr → Bool
is_canceled id [] = false
is_canceled id (x ∷ xs) = (x == id) || is_canceled id xs

-- `TimerMgr::reset`.
abbrev reset : TimerMgr → TimerMgr
reset canceled = []

-- The copy of a `timer_info` through bytes: its layout is the platform's. The reads give nothing for
-- bytes that are not of its size.
pub record TimerLayout : Type 0 where
  pub timer_bytes : (millionseconds : ℕ) → ServiceId → (user_data : ℕ) → Bytes
  pub user_data : Bytes → Option ℕ
  pub service_id : Bytes → Option ServiceId

module _ (layout : TimerLayout) where
  -- `SimpleTimerAdapter::set_timer`, on the channel that `Config` holds; `current` is the
  -- service's own id, and `timer` that of the timer's service.
  unfoldable pub set_timer :
      Bool
      → (current timer : ServiceId) → (millionseconds timeout_msg_id user_data : ℕ) → UdpChannel
      → UdpChannel
  unfolding send_msg
  set_timer mem current timer millionseconds timeout_msg_id user_data c =
      (send_msg mem timer timeout_msg_id (layout.timer_bytes millionseconds current user_data) c).1

  -- `TimerMgr::should_ignore`; the size of the message is asserted.
  unfoldable pub should_ignore : Bytes → TimerMgr → Run Bool
  should_ignore msg canceled = elim (layout.user_data msg) [
    | none ↦ fault
    | some u ↦ ok (is_canceled (u % 2 ^ 32) canceled)
  ]
