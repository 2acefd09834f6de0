-- ===== src/Async.antt =====
-- core/cell/derived_async_cell.h: DerivedAsyncCell, whose value comes from a cell that a function gives.
pub mod Following
use msgrpc.Base.{false, none, some, List, Run, ok, ◌>>=◌, if◌then◌else◌}
use msgrpc.World.{
  Ptr, Cell, Source, from_call, from_cell, AsyncPart, follow, Action, action, World, Host,
}
use msgrpc.World.Store.{get_cell, alloc_object, track}
use msgrpc.Cell.{
  has_error, has_value_or_error, set_failed_reason, set_cell_value, register_listener,
}
use msgrpc.Stub.{encode_request_and_send}
use msgrpc.Guarded.{views}

module _ {V : Type 0} (host : Host V) (notify : Ptr → World V → Run (World V)) where
  -- `f_()`: the pointer of the cell that it gives.
  unfoldable pub source_cell : Ptr → Source V → World V → Run (Ptr × World V)
  unfolding encode_request_and_send
  source_cell ctxt (from_call call) w = encode_request_and_send host ctxt call w
  source_cell ctxt (from_cell q) w = ok (q, w)

  -- `derive_action` of the function that follows the cell. The action listens before it is tracked.
  unfoldable pub follow_cell : Ptr → Ptr → Ptr → World V → Run (World V)
  unfolding register_listener track
  follow_cell ctxt p q w = do
    let a = w.next_ptr
    let reaction : Action = record { is_final_action = false; cell = none; logic = follow p q }
    w1 ← register_listener notify q a (alloc_object (action reaction) w)
    track ctxt a w1

  -- `DerivedAsyncCell::update`.
  unfoldable pub update_async : Ptr → Cell V → AsyncPart V → World V → Run (World V)
  unfolding views source_cell follow_cell set_failed_reason
  update_async p c a w = if has_value_or_error c then ok w else (do
    vs ← views a.args w
    (q, w1) ← source_cell a.ctxt (a.source vs) w
    s ← get_cell q w1
    if has_error s then set_failed_reason notify p s.status w1 else follow_cell a.ctxt p q w1)

  -- The function that `update` binds in its action.
  unfoldable pub on_source_cell : Ptr → Ptr → World V → Run (World V)
  unfolding set_failed_reason set_cell_value
  on_source_cell p q w = do
    rsp ← get_cell q w
    if has_error rsp then set_failed_reason notify p rsp.status w else set_cell_value notify p rsp w
