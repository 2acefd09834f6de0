-- ===== src/Examples/Loop.antt =====
-- Witnesses for the loop of a process.
use msgrpc.Base.{ℕ, ◌≡◌, refl, false, Option, none, some, [], ◌∷◌, ok, arith}
use msgrpc.Msg.{Bytes, ServiceId}
use msgrpc.Adapter.{TimerLayout, cancel_timer}
use msgrpc.Adapter.Loop.{Loop, on_msg, not_drop_msg, starts_with}
use msgrpc.Adapter.Loop.Messages.{on_msg-cancel_timer}
use msgrpc.Examples.{host, services}
use msgrpc.Examples.Processes.{platform, process}

abbrev fourth : Bytes → Option ℕ
fourth (a ∷ b ∷ c ∷ d ∷ []) = some d
fourth _ = none

abbrev middle : Bytes → Option ServiceId
middle (a ∷ b ∷ c ∷ d ∷ []) = some (b, c)
middle _ = none

-- A `timer_info` of four units.
abbrev layout : TimerLayout
layout = record {
  timer_bytes = λ ms s u. ms ∷ s.0 ∷ s.1 ∷ u ∷ [];
  user_data = fourth;
  service_id = middle;
}

abbrev loop : Loop ℕ
loop = record { process = process; canceled = 3 ∷ []; entry_times = 0; timer_threads = [] }

not_init : starts_with (105 ∷ 110 ∷ 105 ∷ 116 ∷ 0 ∷ []) (10 ∷ 127 ∷ 66 ∷ 7 ∷ 0 ∷ []) ≡ false
unfolding starts_with
not_init = refl

on_msg-cancel_timer_example :
    on_msg layout host platform 3 services
      (λ l. ok l)
      not_drop_msg
      4
      (10 ∷ 127 ∷ 66 ∷ 7 ∷ 0 ∷ [])
      4
      (127, 9999)
      (record loop { canceled = cancel_timer 7 loop.canceled })
    ≡ ok (record loop { canceled = cancel_timer 7 loop.canceled })
on_msg-cancel_timer_example =
    on_msg-cancel_timer layout host platform 3 services (λ l. ok l) not_drop_msg
      (10 ∷ 127 ∷ 66 ∷ 7 ∷ 0 ∷ []) 4 7 7 (127, 9999) loop not_init (omega arith) refl refl
