-- ===== src/Safety/Cells.antt =====
-- The operations of one cell, over an `update` that keeps worlds linked.
use msgrpc.Base.{
  ℕ, zero, suc, ◌+◌, ◌≡◌, refl, inl, inr, some, Bool-cases, Option-cases, Run, Ensures, normal,
  at_fault, Ensures-bind, Ensures-bind_eq, deref, get_elem?, not, length, ltb,
}
use msgrpc.Msg.{RpcResult, is_succeeded, RspMsgHeader, Bytes, failed, timeout}
use msgrpc.World.{Ptr, Cell, cell, World}
use msgrpc.World.Store.{put_cell, track}
use msgrpc.SeqTable.Linked.{IsLinked, Ensures-get_cell, put_cell-IsLinked}
use msgrpc.Cell.{
  evaluate_loop, evaluate_all_derived_cells, set_failed_reason, set_value, set_cell_value,
  register_listener, set_timeout, set_rpc_rsp, decode, has_error, has_value_or_error,
}

-- A run from `w` keeps the world linked.
abbrev pub Keeps : {V : Type 0} → (World V → Run (World V)) → Type 0
Keeps {V} f = (w : World V) → IsLinked w → Ensures IsLinked (f w)

module _ {V : Type 0} where
  -- A change of a cell that leaves its id alone.
  pub put_cell_ids :
      (w : World V) (p : Ptr) (c c' : Cell V)
      → IsLinked w
      → w.objects p ≡ some (cell c)
      → c'.has_seq_id ≡ c.has_seq_id
      → c'.seq_id ≡ c.seq_id
      → IsLinked (put_cell p c' w)
  put_cell_ids w p c c' l at e f = put_cell-IsLinked w p c c' l at (rw (e, f))

  pub track-Keeps : (ctxt p : Ptr) → Keeps (track {V = V} ctxt p)
  unfolding track
  track-Keeps ctxt p w l = Ensures-bind_eq (deref (w.contexts ctxt)) _ λ c e. normal l

module _ {V : Type 0} (notify : Ptr → World V → Run (World V))
    (keep : (p : Ptr) → Keeps (notify p)) where
  evaluate_loop-Keeps : (n i : ℕ) (p : Ptr) → Keeps (evaluate_loop notify n i p)
  unfolding evaluate_loop
  evaluate_loop-Keeps zero i p w l = normal l
  evaluate_loop-Keeps (suc n) i p w l = Ensures-get_cell p w _ λ c at.
      Ensures-bind_eq (deref (get_elem? c.updatables i)) _
        λ u e. Ensures-bind _ (keep u w l) λ w' l'. evaluate_loop-Keeps n (i + 1) p w' l'

  evaluate-Keeps : (p : Ptr) → Keeps (evaluate_all_derived_cells notify p)
  unfolding evaluate_all_derived_cells
  evaluate-Keeps p w l =
      Ensures-get_cell p w _ λ c at. evaluate_loop-Keeps (length c.updatables) 0 p w l

  pub set_failed_reason-Keeps : (p : Ptr) (r : RpcResult) → Keeps (set_failed_reason notify p r)
  unfolding set_failed_reason
  set_failed_reason-Keeps p r w l =
      Ensures-get_cell p w _
        λ c at. evaluate-Keeps p _ (put_cell_ids w p c (record c { status = r }) l at refl refl)

  pub set_value-Keeps : (p : Ptr) (v : V) → Keeps (set_value notify p v)
  unfolding set_value
  set_value-Keeps p v w l =
      Ensures-get_cell p w _
        λ c at. evaluate-Keeps p _ (put_cell_ids w p c (record c { value = some v }) l at refl refl)

  pub set_cell_value-Keeps : (p : Ptr) (rhs : Cell V) → Keeps (set_cell_value notify p rhs)
  unfolding set_cell_value
  set_cell_value-Keeps p rhs w l = elim (Bool-cases (has_error rhs)) [
    | inl e ↦ rw e (set_failed_reason-Keeps p rhs.status w l)
    | inr e ↦ rw e (Ensures-bind_eq (deref rhs.value) _ λ v _. set_value-Keeps p v w l)
  ]

  pub register_listener-Keeps : (p u : Ptr) → Keeps (register_listener notify p u)
  unfolding register_listener
  register_listener-Keeps p u w l = Ensures-get_cell p w _ λ c at.
      elim (Bool-cases (has_value_or_error c)) [
        | inl e ↦ rw e (keep u w l)
        | inr e ↦ rw e (normal (put_cell_ids w p c _ l at refl refl))
      ]

  pub set_timeout-Keeps : (p : Ptr) → Keeps (set_timeout notify p)
  unfolding set_timeout
  set_timeout-Keeps p = set_failed_reason-Keeps p timeout

  pub set_rpc_rsp-Keeps :
      (p : Ptr) (h : RspMsgHeader) (payload : Bytes) → Keeps (set_rpc_rsp notify p h payload)
  unfolding set_rpc_rsp
  set_rpc_rsp-Keeps p h payload w l = elim (Bool-cases (not (is_succeeded h.rpc_result))) [
    | inl e ↦ rw e (set_failed_reason-Keeps p h.rpc_result w l)
    | inr e ↦ rw e (elim (Bool-cases (ltb 0 (length payload))) [
      | inr short ↦ rw short at_fault
      | inl long ↦ rw long (
          Ensures-get_cell p w _ λ c at. elim (Option-cases (decode c.struct payload)) [
            | inl bad ↦ rw bad (set_failed_reason-Keeps p failed w l)
            | inr (v, good) ↦ rw good (set_value-Keeps p v w l)
          ])
    ])
  ]
