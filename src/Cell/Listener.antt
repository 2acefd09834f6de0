-- ===== src/Cell/Listener.antt =====
-- A change of a cell that one other object listens to.
use msgrpc.Base.{◌≡◌, refl, ◌∙◌, ◌>>=◌, fault, out_of_fuel, some, [], ◌∷◌, Run, ok, ==_self}
use msgrpc.Msg.{RpcResult}
use msgrpc.World.{Ptr, Cell, cell, World}
use msgrpc.World.Store.{put_cell}
use msgrpc.Cell.{set_value, set_failed_reason, evaluate_all_derived_cells, evaluate_loop}

module _ {V : Type 0} where
  -- The end of the loop.
  pub then_ok : (r : Run (World V)) → (r >>= λ w'. ok w') ≡ r
  then_ok (ok w') = refl
  then_ok fault = refl
  then_ok out_of_fuel = refl

  -- A change of a cell with one listener, whatever the listener does.
  module _ (n : Ptr → World V → Run (World V)) (q u : Ptr) (s : Cell V) (w : World V)
      (at_q : w.objects q ≡ some (cell (record s { updatables = u ∷ [] }))) where
    pub set_value-told :
        (v : V)
        → set_value n q v w ≡ n u (put_cell q (record s { value = some v; updatables = u ∷ [] }) w)
    unfolding set_value evaluate_all_derived_cells evaluate_loop
    set_value-told v = rw at_q (rw ==_self (rw ==_self (then_ok _)))

    pub set_failed_reason-told :
        (r : RpcResult)
        → set_failed_reason n q r w
          ≡ n u (put_cell q (record s { status = r; updatables = u ∷ [] }) w)
    unfolding set_failed_reason evaluate_all_derived_cells evaluate_loop
    set_failed_reason-told r = rw at_q (rw ==_self (rw ==_self (then_ok _)))

  -- A change of a cell with one listener.
  module _ (n : Ptr → World V → Run (World V)) (q u : Ptr) (s : Cell V) (w w' : World V)
      (at_q : w.objects q ≡ some (cell (record s { updatables = u ∷ [] }))) where
    pub set_value-one :
        (v : V)
        → n u (put_cell q (record s { value = some v; updatables = u ∷ [] }) w) ≡ ok w'
        → set_value n q v w ≡ ok w'
    set_value-one v told = set_value-told n q u s w at_q v ∙ told

    pub set_failed_reason-one :
        (r : RpcResult)
        → n u (put_cell q (record s { status = r; updatables = u ∷ [] }) w) ≡ ok w'
        → set_failed_reason n q r w ≡ ok w'
    set_failed_reason-one r told = set_failed_reason-told n q u s w at_q r ∙ told
