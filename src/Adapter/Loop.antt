-- ===== src/Adapter/Loop.antt =====
-- adapter_example/details/msgrpc_test_loop.h and set_timer_handler.h: what the loop of a process does
-- with a message, and the threads that wait for timers.
pub mod Messages
use msgrpc.Base.{
  ℕ, zero, suc, ◌+◌, ◌%◌, ◌^◌, Bool, true, false, not, ◌&&◌, ◌||◌, Option, none, some, List, [],
  ◌∷◌, ◌++◌, Run, ok, fault, ◌>>=◌, ◌>>◌, assert, deref, is_some, length, take, ltb, if◌then◌else◌,
  ◌==◌,
}
use msgrpc.Msg.{Bytes, ServiceId}
use msgrpc.Msg.Wire.{get_header, sizeof_req_header}
use msgrpc.World.{Host}
use msgrpc.Server.{Repository}
use msgrpc.Dispatch.{Platform, Process, handle_msg}
use msgrpc.Adapter.{TimerMgr, TimerLayout, should_ignore, UdpChannel, send_msg}

-- A process with its cancelled timers, the count of timers set, and the threads that it started for
-- timers, each with its port and a copy of the `timer_info`.
pub record Loop (V : Type 0) : Type 0 where
  pub process : Process V
  pub canceled : TimerMgr
  pub entry_times : ℕ
  pub timer_threads : List (ℕ × Bytes)

unfoldable pub starts_with : Bytes → Bytes → Bool
starts_with [] bs = true
starts_with (x ∷ xs) [] = false
starts_with (x ∷ xs) (b ∷ bs) = (x == b) && starts_with xs bs

-- `0 == strcmp(msg, "init")`.
abbrev pub is_init : Bytes → Bool
is_init buffer = starts_with (105 ∷ 110 ∷ 105 ∷ 116 ∷ 0 ∷ []) buffer

abbrev pub not_drop_msg : Bytes → Run Bool
not_drop_msg msg = ok false

abbrev pub drop_all_msg : Bytes → Run Bool
drop_all_msg msg = ok true

-- The ids are `int`s, which the comparison takes as `unsigned`.
unfoldable pub among_ids : ℕ → List ℕ → Bool
among_ids id [] = false
among_ids id (x ∷ xs) = (id == x % 2 ^ 32) || among_ids id xs

unfoldable pub drop_msg_with_seq_id : List ℕ → Bytes → Run Bool
unfolding among_ids
drop_msg_with_seq_id ids msg = do
  assert (not (ltb (length msg) sizeof_req_header))
  (req, payload) ← deref (get_header msg)
  ok (among_ids req.sequence_id ids)

module _ (layout : TimerLayout) where
  -- `SetTimerHandler::set_timer`: the size is asserted, and a thread is started.
  unfoldable pub set_timer_thread : {V : Type 0} → Bytes → Loop V → Run (Loop V)
  set_timer_thread msg l = do
    assert (is_some (layout.user_data msg))
    let entry = (l.entry_times + 1) % 2 ^ 16
    ok (record l {
      entry_times = entry;
      timer_threads = ((20000 + entry) % 2 ^ 16, msg) ∷ l.timer_threads;
    })

  -- What a thread of a timer does with a message on its channel: "init" makes it sleep, and send the
  -- `timer_info` to the service that set the timer.
  unfoldable pub timer_thread_on_msg :
      Bool → (timeout_msg_id : ℕ) → (ti : Bytes) → (buffer : Bytes) → UdpChannel → Run UdpChannel
  unfolding send_msg
  timer_thread_on_msg mem timeout_msg_id ti buffer c =
      if is_init buffer
      then (do to ← deref (layout.service_id ti); ok (send_msg mem to timeout_msg_id ti c).1)
      else ok c

  module _ {V : Type 0} (host : Host V) (platform : Platform V) (fuel : ℕ)
      (repository : Repository V) (init_func : Loop V → Run (Loop V))
      (should_drop : Bytes → Run Bool) where
    -- The tests that drop a request, to simulate its loss, or a timeout that was cancelled.
    unfoldable pub is_dropped : ℕ → Bytes → Run Bool
    is_dropped msg_id msg = if msg_id == host.ids.request_msg_id then should_drop msg else ok false

    unfoldable pub is_ignored : ℕ → Bytes → TimerMgr → Run Bool
    unfolding should_ignore
    is_ignored msg_id msg canceled =
        if msg_id == host.ids.timeout_msg_id then should_ignore layout msg canceled else ok false

    abbrev pub in_process : Run (Bool × Process V) → Loop V → Run (Loop V)
    in_process r l = do (known, s) ← r; ok (record l { process = s })

    -- The rest of the loop's function, for a message that is not dropped.
    unfoldable pub on_kept : ℕ → Bytes → ServiceId → Loop V → Run (Loop V)
    unfolding set_timer_thread handle_msg
    on_kept msg_id msg sender l =
        if msg_id == host.ids.set_timer_msg_id
        then set_timer_thread msg l
        else in_process (handle_msg host platform fuel repository msg_id msg sender l.process) l

    -- The function of the loop, on the buffer behind the message id.
    unfoldable pub on_msg : ℕ → (buffer : Bytes) → (len : ℕ) → ServiceId → Loop V → Run (Loop V)
    unfolding is_dropped is_ignored on_kept
    on_msg msg_id buffer len sender l = if is_init buffer then init_func l else (do
      dropped ← is_dropped msg_id (take len buffer)
      ignored ← (if dropped then ok true else is_ignored msg_id (take len buffer) l.canceled)
      if ignored then ok l else on_kept msg_id (take len buffer) sender l)
