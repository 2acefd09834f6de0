-- ===== src/Async/Following.antt =====
-- A DerivedAsyncCell follows the cell that its function gave.
use msgrpc.Base.{
  ℕ, suc, ◌≡◌, ◌≢◌, refl, sym, false, none, some, List, [], ◌∷◌, ◌++◌, Run, ok, ◌>>=◌, ◌∙◌,
  if◌then◌else◌, ==_self, ==_ne,
}
use msgrpc.Msg.{RpcResult, succeeded, is_succeeded}
use msgrpc.World.{
  Ptr, Cell, cell, derived_async, AsyncPart, follow, action, Context, World, Host, View,
}
use msgrpc.World.Store.{get_cell, put_cell, alloc_object, put_context, track}
use msgrpc.Cell.{
  has_error, has_value_or_error, set_value, set_failed_reason, set_cell_value, register_listener,
}
use msgrpc.Cell.Listener.{then_ok, set_value-told, set_failed_reason-told}
use msgrpc.Guarded.{views}
use msgrpc.Async.{source_cell, follow_cell, update_async, on_source_cell}
use msgrpc.Notify.{notify, update_object, update_cell, update_action, run_logic}

module _ {V : Type 0} (host : Host V) where
  -- A new action listens to the cell `s` at `q`, for the async cell at `p`.
  abbrev pub following : Ptr → Ptr → Ptr → Cell V → Context → World V → World V
  following ctxt p q s x w =
      put_context ctxt (some (record x { release_list = x.release_list ++ w.next_ptr ∷ [] })) (
        put_cell q (record s { updatables = w.next_ptr ∷ [] })
          (alloc_object
            (action (record { is_final_action = false; cell = none; logic = follow p q })) w))

  module _ (k a p q : Ptr) (s : Cell V) (w : World V)
      (at_a : w.objects a
        ≡ some (action (record { is_final_action = false; cell = none; logic = follow p q })))
      (at_q : w.objects q ≡ some (cell s)) where
    notify-takes :
        (v : V)
        → s.status ≡ succeeded
        → s.value ≡ some v
        → notify host (suc k) a w ≡ set_value (notify host k) p v w
    unfolding notify update_object update_action run_logic on_source_cell set_cell_value
    notify-takes v status full = rw at_a (rw at_q (rw (status, full) (then_ok _)))

    notify-fails :
        is_succeeded s.status ≡ false
        → notify host (suc k) a w ≡ set_failed_reason (notify host k) p s.status w
    unfolding notify update_object update_action run_logic on_source_cell
    notify-fails bad = rw at_a (rw at_q (rw bad (then_ok _)))

  module _ (k : ℕ) (p q : Ptr) (s : Cell V) (part : AsyncPart V) (x : Context) (w : World V)
      (at_q : w.objects q ≡ some (cell s)) (fresh_q : q ≢ w.next_ptr) (quiet_q : s.updatables ≡ [])
      (status : s.status ≡ succeeded) where
    abbrev followed : World V
    followed = following part.ctxt p q s x w

    follow_cell-following :
        s.value ≡ none
        → w.contexts part.ctxt ≡ some x
        → follow_cell host (notify host k) part.ctxt p q w ≡ ok followed
    unfolding follow_cell register_listener track
    follow_cell-following empty at_ctxt =
        rw (==_ne q w.next_ptr fresh_q, at_q) (rw (status, empty) (rw (at_ctxt, quiet_q) refl))

    -- The action, when the cell that it listens to has changed to `s'`.
    changed_action :
        (s' : Cell V)
        → (put_cell q s' followed).objects w.next_ptr
          ≡ some (action (record { is_final_action = false; cell = none; logic = follow p q }))
    changed_action s' = rw (==_ne w.next_ptr q (λ e. fresh_q (sym e)), ==_self) refl

    set_value-followed :
        (v : V)
        → set_value (notify host (suc k)) q v followed
          ≡ set_value
              (notify host k)
              p
              v
              (put_cell q (record s { value = some v; updatables = w.next_ptr ∷ [] }) followed)
    set_value-followed v =
        let s' : Cell V = record s { value = some v; updatables = w.next_ptr ∷ [] } in
        set_value-told (notify host (suc k)) q w.next_ptr s followed (rw ==_self refl) v
        ∙ notify-takes k w.next_ptr p q s' (put_cell q s' followed) (changed_action s')
            (rw ==_self refl) v status refl

    set_failed_reason-followed :
        (r : RpcResult)
        → is_succeeded r ≡ false
        → set_failed_reason (notify host (suc k)) q r followed
          ≡ set_failed_reason
              (notify host k)
              p
              r
              (put_cell q (record s { status = r; updatables = w.next_ptr ∷ [] }) followed)
    set_failed_reason-followed r bad =
        let s' : Cell V = record s { status = r; updatables = w.next_ptr ∷ [] } in
        set_failed_reason-told (notify host (suc k)) q w.next_ptr s followed (rw ==_self refl) r
        ∙ notify-fails k w.next_ptr p q s' (put_cell q s' followed) (changed_action s')
            (rw ==_self refl) bad

  -- The choice of `update`, where the cell that the function gave has not failed.
  not_failed :
      (q : Ptr) (s : Cell V) (w : World V) (failing : Cell V → Run (World V))
      (going : Run (World V))
      → w.objects q ≡ some (cell s)
      → s.status ≡ succeeded
      → (get_cell q w >>= λ r. if has_error r then failing r else going) ≡ going
  not_failed q s w failing going at status = rw at (rw status refl)

  -- An async cell that has no value yet, whose function gives another cell that waits and that
  -- nothing listens to: after the update, a value of that cell is set as the value of the async cell
  -- when it comes, and a failure as its failure, with all that setting it does, whatever listens to
  -- the async cell. The async cell is still there then, and as it was. One unit of fuel more than
  -- the update's is enough.
  pub notify-Follows :
      (k : ℕ) (p q : Ptr) (c s : Cell V) (part : AsyncPart V) (x : Context) (vs : List (View V))
      (w w1 : World V)
      → w.objects p ≡ some (cell (record c { kind = derived_async part }))
      → has_value_or_error c ≡ false
      → views part.args w ≡ ok vs
      → source_cell host (notify host k) part.ctxt (part.source vs) w ≡ ok (q, w1)
      → w1.objects p ≡ some (cell (record c { kind = derived_async part }))
      → w1.objects q ≡ some (cell s)
      → p ≢ q
      → p ≢ w1.next_ptr
      → q ≢ w1.next_ptr
      → s.updatables ≡ []
      → s.status ≡ succeeded
      → s.value ≡ none
      → w1.contexts part.ctxt ≡ some x
      → (w2 : World V) × (notify host (suc k) p w ≡ ok w2)
        × (w2.objects p ≡ some (cell (record c { kind = derived_async part })))
        × ((v : V)
            → set_value (notify host (suc k)) q v w2
              ≡ set_value
                  (notify host k)
                  p
                  v
                  (put_cell q (record s { value = some v; updatables = w1.next_ptr ∷ [] }) w2))
        × ((r : RpcResult)
            → is_succeeded r ≡ false
            → set_failed_reason (notify host (suc k)) q r w2
              ≡ set_failed_reason
                  (notify host k)
                  p
                  r
                  (put_cell q (record s { status = r; updatables = w1.next_ptr ∷ [] }) w2))
  unfolding notify update_object update_cell update_async
  notify-Follows k p q c s part x vs w w1 at_w waits read given at at_q ne fresh fresh_q quiet_q
        status empty at_ctxt =
      (
        following part.ctxt p q s x w1,
        rw at_w (
            rw (waits, read)
              (rw given (
                not_failed q s w1 (λ r. set_failed_reason (notify host k) p r.status w1) _ at_q
                  status
                ∙ follow_cell-following k p q s part x w1 at_q fresh_q quiet_q status empty
                    at_ctxt))),
        rw (==_ne p q ne, ==_ne p w1.next_ptr fresh) at,
        (λ v. set_value-followed k p q s part x w1 at_q fresh_q quiet_q status v),
        λ r bad. set_failed_reason-followed k p q s part x w1 at_q fresh_q quiet_q status r bad,
      )
