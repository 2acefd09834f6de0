-- ===== src/Guarded/Reactions.antt =====
-- How a guarded call reacts to its rpc cell.
use msgrpc.Base.{
  ℕ, suc, Bool, ◌||◌, is_some, ap, ◌>>=◌, ==_self, lt→ltb, ◌-◌, ◌≡◌, refl, true, false, some, none,
  [], Run, ok, arith,
}
use msgrpc.Msg.{succeeded, timeout, is_succeeded, is_timeout_result}
use msgrpc.World.{Ptr, Cell, cell, guarded, Guard, World, Host, cancel_timer}
use msgrpc.World.Store.{put_cell, timer_call}
use msgrpc.Guarded.{
  on_rpc_cell, retry_rpc_if_need, report_timeout, get_guard, put_guard, invoke_rpc_once,
}
use msgrpc.Cell.{set_cell_value}
use msgrpc.RspMsgHandler.Delivery.{set_failed_reason_quiet, set_value_quiet}

suc_sub : (n : ℕ) → suc n - 1 ≡ n
suc_sub n = omega arith

or_true : (b : Bool) → (b || true) ≡ true
or_true true = refl
or_true false = refl

module _ {V : Type 0} (host : Host V) (notify : Ptr → World V → Run (World V)) where
  -- What the guarded cell `c` at `p`, which nothing listens to, does about its rpc cell `rsp`.
  pub data Reacts (p : Ptr) (c : Cell V) (g : Guard V) (rsp : Cell V) (w : World V)
      : Run (World V) → Type 0 where
    takes_value :
        (v : V)
        → rsp.status ≡ succeeded
        → rsp.value ≡ some v
        → rsp.has_seq_id ≡ true
        → Reacts p c g rsp w
            (ok (put_cell p (record c { value = some v }) (timer_call (cancel_timer rsp.seq_id) w)))
    takes_error :
        is_succeeded rsp.status ≡ false
        → is_timeout_result rsp.status ≡ false
        → rsp.has_seq_id ≡ true
        → Reacts p c g rsp w (
            ok (
              put_cell p
                (record c { status = rsp.status })
                (timer_call (cancel_timer rsp.seq_id) w)))
    gives_up :
        rsp.status ≡ timeout
        → g.retry_times ≡ 0
        → g.timeout_cell ≡ none
        → Reacts p c g rsp w (ok (put_cell p (record c { status = timeout }) w))
    retries :
        (n : ℕ)
        → rsp.status ≡ timeout
        → g.retry_times ≡ suc n
        → Reacts p c g rsp w (
            invoke_rpc_once host notify p
              (put_cell p (record c { kind = guarded (record g { retry_times = n }) }) w))

  get_guard-put_cell :
      (p : Ptr) (c : Cell V) (g : Guard V) (w : World V)
      → c.kind ≡ guarded g
      → get_guard p (put_cell p c w) ≡ ok g
  unfolding get_guard
  get_guard-put_cell p c g w kind = rw ==_self (rw kind refl)

  get_guard_at :
      (p : Ptr) (c : Cell V) (g : Guard V) (w : World V)
      → w.objects p ≡ some (cell c)
      → c.kind ≡ guarded g
      → get_guard p w ≡ ok g
  unfolding get_guard
  get_guard_at p c g w at kind = rw at (rw kind refl)

  put_guard_at :
      (p : Ptr) (c : Cell V) (g : Guard V) (w : World V)
      → w.objects p ≡ some (cell c)
      → put_guard p g w ≡ ok (put_cell p (record c { kind = guarded g }) w)
  unfolding put_guard
  put_guard_at p c g w at = rw at refl

  -- A guarded cell without listeners reacts to a response by cancelling the timer and taking the value
  -- or the error; to a timeout, by making the call again with one retry less if a retry is left, and
  -- else by failing with `timeout`, if no cell of its own reports timeouts.
  pub on_rpc_cell-Reacts :
      (p rpc : Ptr) (c rsp : Cell V) (g : Guard V) (w : World V) {run : Run (World V)}
      → w.objects p ≡ some (cell c)
      → w.objects rpc ≡ some (cell rsp)
      → c.kind ≡ guarded g
      → c.updatables ≡ []
      → Reacts p c g rsp w run
      → on_rpc_cell host notify p rpc w ≡ run
  unfolding on_rpc_cell set_cell_value
  on_rpc_cell-Reacts p rpc c rsp g w at rpc_at kind quiet (takes_value v s e id) =
      rw rpc_at (rw s (rw e (rw id (set_value_quiet notify p c v _ at quiet))))
  on_rpc_cell-Reacts p rpc c rsp g w at rpc_at kind quiet (takes_error e nt id) = rw rpc_at (
      rw (nt, e)
        (rw (or_true (is_some rsp.value), id)
          (set_failed_reason_quiet notify p c rsp.status _ at quiet)))
  on_rpc_cell-Reacts p rpc c rsp g w at rpc_at kind quiet (gives_up s no_retry no_cell) =
      rw (rpc_at, s)
        (rw (retry_rpc_if_need, get_guard_at p c g w at kind, no_retry)
          (rw (set_failed_reason_quiet notify p c timeout w at quiet) (
            rw
              (
                report_timeout,
                get_guard-put_cell p (record c { status = timeout }) g w kind,
                no_cell,
              )
              refl)))
  on_rpc_cell-Reacts p rpc c rsp g w at rpc_at kind quiet (retries n s more) =
      rw (rpc_at, s)
        (rw (retry_rpc_if_need, get_guard_at p c g w at kind, more)
          (rw (lt→ltb 0 (suc n) (omega arith), suc_sub n)
            (ap (λ r. r >>= λ w'. invoke_rpc_once host notify p w')
              (put_guard_at p c (record g { retry_times = n }) w at))))
