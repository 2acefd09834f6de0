-- ===== src/Examples/Guarded.antt =====
-- The reaction of a guarded call at a concrete call.
use msgrpc.Base.{
  ℕ, ◌<◌, ◌≡◌, arith, refl, true, none, some, [], ◌∷◌, false, ok, if◌then◌else◌, ◌==◌,
}
use msgrpc.Msg.{timeout}
use msgrpc.Cell.{encode}
use msgrpc.Derive.{derive_rpc_cell}
use msgrpc.World.{Cell, Guard, guarded, plain, cell, action, guard_rpc, set_timer, World}
use msgrpc.World.Store.{new_cell, put_cell}
use msgrpc.Guarded.{on_rpc_cell, invoke_rpc_once}
use msgrpc.Guarded.Reactions.{retries, on_rpc_cell-Reacts}
use msgrpc.Guarded.Start.{with_guard, derive_rpc_cell-Starts}
use msgrpc.Stub.Sending.{IsPrepared, waiting, packet}
use msgrpc.Msg.{RspMsgHeader, succeeded}
use msgrpc.Msg.Wire.{put_rsp_header, Fits, IsCanonical}
use msgrpc.Notify.{notify}
use msgrpc.RspMsgHandler.{handle_rpc_rsp, on_rsp_handler_timeout}
use msgrpc.World.{cancel_timer}
use msgrpc.Stub.{request_header}
use msgrpc.Guarded.Calls.{derive_rpc_cell-Answered, derive_rpc_cell-TimesOut}
use msgrpc.Examples.{byte, host, start, call}

abbrev guard : ℕ → Guard ℕ
guard retry_times = record {
  ctxt = 0;
  timeout_ms = 50;
  retry_times = retry_times;
  call = λ vs. some call;
  args = [];
  is_rpc_started = true;
  timeout_cell = none;
}

abbrev guarded_cell : Cell ℕ
guarded_cell = new_cell byte (guarded (guard 2))

-- The rpc cell 2 of the guarded cell 1 has timed out.
abbrev timed_out : Cell ℕ
timed_out = record (new_cell byte plain) { status = timeout }

abbrev timing_out : World ℕ
timing_out = record start {
  objects = λ p.
      if p == 1 then some (cell guarded_cell) else if p == 2 then some (cell timed_out) else none;
  next_ptr = 3;
}

on_rpc_cell-Reacts_example :
    on_rpc_cell host (λ p w. ok w) 1 2 timing_out
    ≡ invoke_rpc_once host
        (λ p w. ok w)
        1
        (put_cell 1 (record guarded_cell { kind = guarded (guard 1) }) timing_out)
on_rpc_cell-Reacts_example =
    on_rpc_cell-Reacts host (λ p w. ok w) 1 2 guarded_cell timed_out (guard 2) timing_out refl refl
      refl refl (retries 1 refl refl)

-- A call with a limit of 50 that is tried once more.
abbrev calling : World ℕ
calling = with_guard host (λ p w. ok w) 0 byte 50 1 (λ vs. some call) start

prepared :
    IsPrepared host 0 call calling
      (21 ∷ [])
      (record { release_list = []; has_service_resolver = true })
unfolding encode
prepared = record { encoded = refl; memory = refl; unused = refl; context = refl; resolver = refl }

abbrev guarded_call : Cell ℕ
guarded_call = new_cell byte (guarded (record (guard 1) { is_rpc_started = true }))

derive_rpc_cell-Starts_example :
    (w' : World ℕ) × (derive_rpc_cell host (λ p w. ok w) 0 byte 50 1 (λ vs. some call) [] start
      ≡ ok (1, w'))
    × (w'.sent ≡ packet host 0 call calling (127, 7777) (21 ∷ []) ∷ [])
    × (w'.timers ≡ set_timer 50 7 ∷ [])
    × (w'.id_func_map 7 ≡ some 2)
    × (w'.objects 1 ≡ some (cell guarded_call))
    × (w'.objects 2 ≡ some (cell (record (waiting host 0 call calling) { updatables = 3 ∷ [] })))
    × (w'.objects 3
        ≡ some (action (record { is_final_action = false; cell = none; logic = guard_rpc 1 2 })))
    × (w'.contexts 0 ≡ some (record { release_list = 2 ∷ 3 ∷ 1 ∷ []; has_service_resolver = true }))
unfolding msgrpc.SequenceId.get
derive_rpc_cell-Starts_example =
    derive_rpc_cell-Starts host (λ p w. ok w) 0 byte 50 1 (λ vs. some call) start call (21 ∷ [])
      (record { release_list = []; has_service_resolver = true }) prepared (127, 7777) refl refl
      refl

-- The response with the value 42 to the call with id 7.
abbrev answer : RspMsgHeader
answer = record { header = request_header call 7; rpc_result = succeeded }

answer-Fits : Fits answer.header
answer-Fits = omega arith

answer-IsCanonical : IsCanonical answer.rpc_result
answer-IsCanonical = tt

one_byte : 0 < 1
one_byte = omega arith

derive_rpc_cell-Answered_example :
    (w1 w2 : World ℕ) × (derive_rpc_cell host (λ p w. ok w) 0 byte 50 1 (λ vs. some call) [] start
      ≡ ok (1, w1))
    × (handle_rpc_rsp (notify host 1) (some (put_rsp_header answer (42 ∷ []))) w1 ≡ ok w2)
    × (w2.objects 1 ≡ some (cell (record guarded_call { value = some 42 })))
    × (w2.timers ≡ set_timer 50 7 ∷ cancel_timer 7 ∷ [])
    × (w2.id_func_map 7 ≡ none)
unfolding msgrpc.SequenceId.get msgrpc.Cell.decode
derive_rpc_cell-Answered_example =
    derive_rpc_cell-Answered host (λ p w. ok w) 0 0 byte 50 1 (λ vs. some call) start call (21 ∷ [])
      (record { release_list = []; has_service_resolver = true }) prepared (127, 7777) refl refl
      refl answer (42 ∷ []) 42 answer-Fits answer-IsCanonical refl refl one_byte refl

-- The same call without a retry.
abbrev calling_once : World ℕ
calling_once = with_guard host (λ p w. ok w) 0 byte 50 0 (λ vs. some call) start

prepared_once :
    IsPrepared host 0 call calling_once
      (21 ∷ [])
      (record { release_list = []; has_service_resolver = true })
unfolding encode
prepared_once = record {
  encoded = refl;
  memory = refl;
  unused = refl;
  context = refl;
  resolver = refl;
}

abbrev called_once : Cell ℕ
called_once = new_cell byte (guarded (guard 0))

derive_rpc_cell-TimesOut_example :
    (w1 w2 : World ℕ) × (derive_rpc_cell host (λ p w. ok w) 0 byte 50 0 (λ vs. some call) [] start
      ≡ ok (1, w1))
    × (on_rsp_handler_timeout (notify host 1) 7 w1 ≡ ok w2)
    × (w2.objects 1 ≡ some (cell (record called_once { status = timeout })))
    × (w2.id_func_map 7 ≡ none)
unfolding msgrpc.SequenceId.get
derive_rpc_cell-TimesOut_example =
    derive_rpc_cell-TimesOut host (λ p w. ok w) 0 0 byte 50 0 (λ vs. some call) start call (21 ∷ [])
      (record { release_list = []; has_service_resolver = true }) prepared_once (127, 7777) refl
      refl refl refl
