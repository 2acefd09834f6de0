-- ===== src/Cell.antt =====
-- core/cell/cell_base.h and cell.h: the state of one cell, and how a change reaches its listeners.
-- `updatable->update()` is a virtual call, and a parameter here.
pub mod Listener
use msgrpc.Base.{
  ℕ, zero, suc, ◌+◌, Bool, not, ◌||◌, Option, none, some, [], ◌∷◌, ◌++◌, Run, ok, fault, ◌>>=◌,
  length, get_elem?, deref, is_some, if◌then◌else◌, ltb,
}
use msgrpc.Msg.{RpcResult, failed, timeout, RspMsgHeader, Bytes, is_succeeded, is_timeout_result}
use msgrpc.World.{Ptr, Cell, plain, ThriftStruct, World}
use msgrpc.World.Store.{get_cell, put_cell, new_cell}

module _ {V : Type 0} where
  abbrev pub has_value : Cell V → Bool
  has_value c = is_some c.value

  abbrev pub has_error : Cell V → Bool
  has_error c = not (is_succeeded c.status)

  abbrev pub has_value_or_error : Cell V → Bool
  has_value_or_error c = has_value c || has_error c

  abbrev pub is_empty : Cell V → Bool
  is_empty c = not (has_value_or_error c)

  abbrev pub is_timeout : Cell V → Bool
  is_timeout c = is_timeout_result c.status

  -- `Cell::new_instance`.
  unfoldable pub new_instance : ThriftStruct V → RpcResult → Cell V
  new_instance s reason = record (new_cell s plain) { status = reason }

  -- `ThriftDecoder::decode`: an exception and a count of zero are failures.
  unfoldable pub decode : ThriftStruct V → Bytes → Option V
  decode s bytes = elim (s.read bytes) [
    | none ↦ none
    | some (v, count) ↦ if ltb 0 count then some v else none
  ]

  -- `ThriftEncoder::encode`: an exception and an empty encoding are failures.
  unfoldable pub encode : ThriftStruct V → V → Option Bytes
  encode s v = elim (s.write v) [
    | none ↦ none
    | some bytes ↦ if ltb 0 (length bytes) then some bytes else none
  ]

module _ {V : Type 0} (notify : Ptr → World V → Run (World V)) where
  -- The loop of `evaluate_all_derived_cells`, at index `i` with `n` rounds left. Each round reads
  -- the vector of the cell anew.
  unfoldable pub evaluate_loop : ℕ → ℕ → Ptr → World V → Run (World V)
  evaluate_loop zero i p w = ok w
  evaluate_loop (suc n) i p w = do
    c ← get_cell p w
    u ← deref (get_elem? c.updatables i)
    w' ← notify u w
    evaluate_loop n (i + 1) p w'

  unfoldable pub evaluate_all_derived_cells : Ptr → World V → Run (World V)
  unfolding evaluate_loop
  evaluate_all_derived_cells p w = do c ← get_cell p w; evaluate_loop (length c.updatables) 0 p w

  unfoldable pub set_failed_reason : Ptr → RpcResult → World V → Run (World V)
  unfolding evaluate_all_derived_cells
  set_failed_reason p reason w = do
    c ← get_cell p w
    evaluate_all_derived_cells p (put_cell p (record c { status = reason }) w)

  unfoldable pub set_value : Ptr → V → World V → Run (World V)
  unfolding evaluate_all_derived_cells
  set_value p v w = do
    c ← get_cell p w
    evaluate_all_derived_cells p (put_cell p (record c { value = some v }) w)

  -- `set_cell_value(rhs)`: the value of `rhs` is asserted to be there.
  unfoldable pub set_cell_value : Ptr → Cell V → World V → Run (World V)
  unfolding set_failed_reason set_value
  set_cell_value p rhs w =
      if has_error rhs
      then set_failed_reason p rhs.status w
      else (do v ← deref rhs.value; set_value p v w)

  -- The caller holds the listener; a null one is ruled out by the types.
  unfoldable pub register_listener : Ptr → Ptr → World V → Run (World V)
  register_listener p updatable w = do
    c ← get_cell p w
    if has_value_or_error c
        then notify updatable w
        else ok (put_cell p (record c { updatables = c.updatables ++ updatable ∷ [] }) w)

  unfoldable pub set_timeout : Ptr → World V → Run (World V)
  unfolding set_failed_reason
  set_timeout p w = set_failed_reason p timeout w

  -- `Cell::set_rpc_rsp`. A successful response without payload fails an assertion.
  unfoldable pub set_rpc_rsp : Ptr → RspMsgHeader → Bytes → World V → Run (World V)
  set_rpc_rsp p h payload w =
      if not (is_succeeded h.rpc_result)
      then set_failed_reason p h.rpc_result w
      else if ltb 0 (length payload)
      then (do
        c ← get_cell p w
        elim (decode c.struct payload) [
          | none ↦ set_failed_reason p failed w
          | some v ↦ set_value p v w
        ])
      else fault
