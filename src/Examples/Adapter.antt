-- ===== src/Examples/Adapter.antt =====
-- Witnesses for the example adapter and the configuration.
use msgrpc.Base.{ℕ, ◌≡◌, refl, true, none, some, [], ◌∷◌, ◌++◌, ok, arith, length, if◌then◌else◌}
use msgrpc.World.{MsgIds}
use msgrpc.Config.{Config, Configs, init_with, instance_on, shares, init_with-instance_on}
use msgrpc.Adapter.{
  UdpChannel, new_channel, frame, send_msg, handle_receive, no_error, start_receive,
}
use msgrpc.Adapter.Datagrams.{send_msg-handle_receive}

-- The buffer of the receiver still has two bytes of an older datagram.
abbrev sender : UdpChannel
sender = new_channel (127, 1) []

abbrev receiver : UdpChannel
receiver = new_channel (127, 2) (101 ∷ 0 ∷ 7 ∷ 8 ∷ 9 ∷ 5 ∷ 5 ∷ [])

send_msg-handle_receive_example :
    (send_msg true (127, 2) 101 (7 ∷ 8 ∷ 9 ∷ []) sender ≡ (
      true,
      record sender { handed_over = ((127, 2), frame 101 (7 ∷ 8 ∷ 9 ∷ [])) ∷ sender.handed_over },
    ))
    × (handle_receive no_error (length (frame 101 (7 ∷ 8 ∷ 9 ∷ []))) receiver
        ≡ start_receive (record receiver {
          delivered =
              (record {
                msg_id = 101;
                msg = (7 ∷ 8 ∷ 9 ∷ []) ++ (5 ∷ 5 ∷ []);
                len = 3;
                sender = receiver.remote_endpoint;
              })
              ∷ receiver.delivered;
        }))
send_msg-handle_receive_example =
    send_msg-handle_receive (127, 2) 101 (7 ∷ 8 ∷ 9 ∷ []) (5 ∷ 5 ∷ []) sender receiver (omega arith)
      (omega arith) refl

abbrev ids : ℕ → MsgIds
ids n = record {
  request_msg_id = n;
  response_msg_id = n;
  set_timer_msg_id = n;
  timeout_msg_id = n;
  schedule_task_msg_id = n;
}

abbrev empty : Config
empty = record {
  msg_channel = none;
  timer = none;
  service_register = none;
  logger = none;
  ids = ids 0;
}

abbrev thread_local : Configs
thread_local = record {
  thread_local_mode = true;
  thread_local_instance = λ t. empty;
  global_instance = empty;
}

init_with-instance_on_example :
    (c' : Configs) × (init_with 1
        (record {
          msg_channel = some 4;
          timer = some 5;
          service_register = some 6;
          logger = none;
          ids = ids 7;
        })
        thread_local
      ≡ ok c')
    × (instance_on 2 c' ≡ (
        if shares thread_local 2 1
        then record {
          msg_channel = some 4;
          timer = some 5;
          service_register = some 6;
          logger = none;
          ids = ids 7;
        }
        else instance_on 2 thread_local))
init_with-instance_on_example = init_with-instance_on 1 2 4 5 6 none (ids 7) thread_local
