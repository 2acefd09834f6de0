-- ===== src/Adapter/Loop/Messages.antt =====
-- Cancelled timers are silent.
use msgrpc.Base.{
  ℕ, ◌%◌, ◌^◌, ◌≡◌, ◌≢◌, refl, ap, ◌∙◌, Bool, true, false, some, Run, ok, take, or_true, ==_self,
  ==_ne,
}
use msgrpc.Msg.{Bytes, ServiceId}
use msgrpc.World.{Host}
use msgrpc.Server.{Repository}
use msgrpc.Dispatch.{Platform}
use msgrpc.Adapter.{TimerLayout, should_ignore, cancel_timer, is_canceled}
use msgrpc.Adapter.Timers.{cancel_timer-should_ignore}
use msgrpc.Adapter.Loop.{Loop, is_init, is_dropped, is_ignored, on_msg}

module _ (layout : TimerLayout) {V : Type 0} (host : Host V) (platform : Platform V) (fuel : ℕ)
    (repository : Repository V) (init_func : Loop V → Run (Loop V))
    (should_drop : Bytes → Run Bool) where
  -- After the timer of an id was cancelled, the message of its timeout changes nothing in the loop, if
  -- its bytes do not begin with "init" and a zero byte, which the loop takes for its start. The
  -- `timer_info` in the message reads back, the ids of the configuration differ, and only the lower
  -- 32 bits of an id count.
  pub on_msg-cancel_timer :
      (buffer : Bytes) (len cancelled user_data : ℕ) (sender : ServiceId) (l : Loop V)
      → is_init buffer ≡ false
      → host.ids.timeout_msg_id ≢ host.ids.request_msg_id
      → layout.user_data (take len buffer) ≡ some user_data
      → cancelled % 2 ^ 32 ≡ user_data % 2 ^ 32
      → on_msg layout host platform fuel repository init_func should_drop host.ids.timeout_msg_id
          buffer len sender
          (record l { canceled = cancel_timer cancelled l.canceled })
        ≡ ok (record l { canceled = cancel_timer cancelled l.canceled })
  unfolding on_msg is_dropped is_ignored
  on_msg-cancel_timer buffer len cancelled user_data sender l kept differ read match =
      let dropped : is_dropped layout host platform fuel repository init_func should_drop
            host.ids.timeout_msg_id (take len buffer)
          ≡ ok false =
        rw (is_dropped, ==_ne host.ids.timeout_msg_id host.ids.request_msg_id differ) refl in
      let silent : should_ignore layout (take len buffer) (cancel_timer cancelled l.canceled)
          ≡ ok true =
        cancel_timer-should_ignore layout cancelled user_data (take len buffer) l.canceled read
        ∙ rw (match, ==_self) (ap ok (or_true (is_canceled (user_data % 2 ^ 32) l.canceled))) in
      rw (on_msg, kept, dropped) (rw (is_ignored, ==_self) (rw silent refl))
