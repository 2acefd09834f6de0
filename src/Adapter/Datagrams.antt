-- ===== src/Adapter/Datagrams.antt =====
-- The frame that a channel hands over for a message, as another channel reads it.
use msgrpc.Base.{ℕ, ◌+◌, ◌-◌, ◌*◌, ◌/◌, ◌%◌, ◌^◌, ◌<◌, ◌≡◌, refl, true, ◌∷◌, ◌++◌, length, arith}
use msgrpc.Msg.{Bytes, ServiceId}
use msgrpc.Adapter.{
  UdpChannel, frame, no_error, handle_receive, deliver_datagram, send_msg, start_receive,
}

msg_id_bytes : (n : ℕ) → n < 2 ^ 16 → n % 256 + 256 * (n / 256 % 256) ≡ n
msg_id_bytes n h = omega arith

-- For a message that memory was there for, `send_msg` hands over one buffer for the remote service;
-- and a channel whose receive buffer holds the bytes that this buffer had at the call, whatever stands
-- behind them, gives the message id, the bytes and their count to the function for messages, with the
-- sender, and asks for the next datagram. The id is below 2^16, the message shorter than 2^63 bytes.
pub send_msg-handle_receive :
    (to : ServiceId) (msg_id : ℕ) (buf rest : Bytes) (from receiver : UdpChannel)
    → msg_id < 2 ^ 16
    → length buf < 2 ^ 63
    → receiver.recv_buffer ≡ frame msg_id buf ++ rest
    → (send_msg true to msg_id buf from
        ≡ (true, record from { handed_over = (to, frame msg_id buf) ∷ from.handed_over }))
      × (handle_receive no_error (length (frame msg_id buf)) receiver
          ≡ start_receive (record receiver {
            delivered =
                (record {
                  msg_id = msg_id;
                  msg = buf ++ rest;
                  len = length buf;
                  sender = receiver.remote_endpoint;
                })
                ∷ receiver.delivered;
          }))
unfolding send_msg handle_receive deliver_datagram
send_msg-handle_receive to msg_id buf rest from receiver small short there =
    let len : (length (frame msg_id buf) + 2 ^ 64 - 2) % 2 ^ 64 ≡ length buf = omega arith in
    (refl, rw (there, len, msg_id_bytes msg_id small) refl)
