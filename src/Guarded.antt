-- ===== src/Guarded.antt =====
-- core/cell/timeout_cell.h: a call with a time limit and retries.
pub mod Reactions
pub mod Start
pub mod Answered
pub mod Calls
use msgrpc.Base.{
  ◌-◌, true, false, not, ◌&&◌, none, some, List, [], ◌∷◌, Run, ok, fault, ◌>>=◌, ◌>>◌, assert,
  if◌then◌else◌, ltb, length,
}
use msgrpc.World.{
  Ptr, Cell, Kind, guarded, Guard, View, guard_rpc, Action, action, World, Host, set_timer,
  cancel_timer, ThriftStruct, cell, plain,
}
use msgrpc.World.Store.{get_cell, put_cell, alloc_object, track, view, new_cell, timer_call}
use msgrpc.Cell.{
  has_error, has_value_or_error, is_timeout, set_failed_reason, set_value, set_cell_value,
  register_listener,
}
use msgrpc.Stub.{encode_request_and_send}

module _ {V : Type 0} where
  -- What a function that is bound to cells reads of them.
  unfoldable pub views : List Ptr → World V → Run (List (View V))
  views [] w = ok []
  views (p ∷ ps) w = do c ← get_cell p w; vs ← views ps w; ok (view c ∷ vs)

  -- The members of a pointer that is used as a `TimeoutCell`.
  abbrev pub guard_of : Kind V → Run (Guard V)
  guard_of (guarded g) = ok g
  guard_of _ = fault

  unfoldable pub get_guard : Ptr → World V → Run (Guard V)
  get_guard p w = do c ← get_cell p w; guard_of c.kind

  unfoldable pub put_guard : Ptr → Guard V → World V → Run (World V)
  put_guard p g w = do c ← get_cell p w; ok (put_cell p (record c { kind = guarded g }) w)

module _ {V : Type 0} (host : Host V) (notify : Ptr → World V → Run (World V)) where
  -- `bind_timeout_cell`: `derive_action` of the reaction to the rpc cell. The action listens before it
  -- is tracked.
  unfoldable pub bind_timeout_cell : Ptr → Ptr → Ptr → World V → Run (World V)
  unfolding register_listener track
  bind_timeout_cell ctxt p rpc w = do
    let a = w.next_ptr
    let reaction : Action = record { is_final_action = false; cell = none; logic = guard_rpc p rpc }
    w1 ← register_listener notify rpc a (alloc_object (action reaction) w)
    track ctxt a w1

  -- `invoke_rpc_once` behind the call.
  unfoldable pub watch : Ptr → Guard V → Ptr → World V → Run (World V)
  unfolding bind_timeout_cell put_guard set_failed_reason
  watch p g rpc w = do
    w1 ← put_guard p (record g { is_rpc_started = true }) w
    c ← get_cell rpc w1
    if has_error c then set_failed_reason notify p c.status w1 else (do
      assert c.has_seq_id
      bind_timeout_cell g.ctxt p rpc (timer_call (set_timer g.timeout_ms c.seq_id) w1))

  unfoldable pub invoke_rpc_once : Ptr → World V → Run (World V)
  unfolding get_guard views watch encode_request_and_send
  invoke_rpc_once p w = do
    g ← get_guard p w
    vs ← views g.args w
    elim (g.call vs) [
      | none ↦ ok w
      | some call ↦ (do (rpc, w') ← encode_request_and_send host g.ctxt call w; watch p g rpc w')
    ]

  -- `if (timeout_cell_ != nullptr) timeout_cell_->set_value(true)`: a read of a member of `p`.
  unfoldable pub report_timeout : Ptr → World V → Run (World V)
  unfolding get_guard set_value
  report_timeout p w = do
    g ← get_guard p w
    elim (g.timeout_cell) [ none ↦ ok w | some t ↦ set_value notify t host.truth w ]

  unfoldable pub retry_rpc_if_need : Ptr → Cell V → World V → Run (World V)
  unfolding get_guard put_guard invoke_rpc_once set_failed_reason report_timeout
  retry_rpc_if_need p rsp w = do
    g ← get_guard p w
    if ltb 0 g.retry_times
        then (do
          w' ← put_guard p (record g { retry_times = g.retry_times - 1 }) w
          invoke_rpc_once p w')
        else (do w' ← set_failed_reason notify p rsp.status w; report_timeout p w')

  -- The function that `bind_timeout_cell` binds.
  unfoldable pub on_rpc_cell : Ptr → Ptr → World V → Run (World V)
  unfolding retry_rpc_if_need set_cell_value
  on_rpc_cell p rpc w = do
    rsp ← get_cell rpc w
    if is_timeout rsp
        then retry_rpc_if_need p rsp w
        else if has_value_or_error rsp
        then (do
          assert rsp.has_seq_id
          set_cell_value notify p rsp (timer_call (cancel_timer rsp.seq_id) w))
        else set_cell_value notify p rsp w

  -- `TimeoutCell::update`.
  unfoldable pub update_guard : Ptr → Cell V → Guard V → World V → Run (World V)
  unfolding invoke_rpc_once
  update_guard p c g w = do
    assert (ltb 0 (length g.args))
    if not (has_value_or_error c) && not g.is_rpc_started then invoke_rpc_once p w else ok w

  -- `TimeoutCell::timeout`: the cell that a timeout sets to true, made at the first use.
  unfoldable timeout_of : ThriftStruct V → Ptr → World V → Run (Ptr × World V)
  unfolding get_guard put_guard
  timeout_of bool p w = do
    g ← get_guard p w
    elim (g.timeout_cell) [
      | some t ↦ ok (t, w)
      | none ↦ (do
        let t = w.next_ptr
        w' ←
            put_guard p (record g { timeout_cell = some t })
              (alloc_object (cell (new_cell bool plain)) w)
        ok (t, w'))
    ]
