-- ===== src/Adapter/Timers.antt =====
-- Which timeouts are ignored.
use msgrpc.Base.{ℕ, ◌%◌, ◌^◌, ◌≡◌, refl, some, [], ◌∷◌, ◌++◌, ok, ◌||◌, ◌==◌, arith}
use msgrpc.Msg.{Bytes}
use msgrpc.Adapter.{TimerMgr, cancel_timer, is_canceled, TimerLayout, should_ignore}

is_canceled-append :
    (id other : ℕ) (xs : TimerMgr)
    → is_canceled id (xs ++ other ∷ []) ≡ is_canceled id xs || (other == id)
is_canceled-append id other [] = ground arith
is_canceled-append id other (x ∷ xs) = ground (arith, is_canceled-append id other xs)

-- After the timer of an id was cancelled, the timeouts that are ignored are those that were before,
-- and those that carry the id; only the lower 32 bits of an id count.
pub cancel_timer-should_ignore :
    (layout : TimerLayout) (cancelled user_data : ℕ) (msg : Bytes) (canceled : TimerMgr)
    → layout.user_data msg ≡ some user_data
    → should_ignore layout msg (cancel_timer cancelled canceled)
      ≡ ok (is_canceled (user_data % 2 ^ 32) canceled || (cancelled % 2 ^ 32 == user_data % 2 ^ 32))
unfolding should_ignore cancel_timer
cancel_timer-should_ignore layout cancelled user_data msg canceled read =
    rw (should_ignore, read, is_canceled-append (user_data % 2 ^ 32) (cancelled % 2 ^ 32) canceled)
      refl
