-- ===== src/Safety/Destructors.antt =====
-- Destructors: a cell takes its handler with it, and a context all that it tracks.
use msgrpc.Base.{
  ℕ, zero, suc, ◌≡◌, refl, inl, inr, Option, none, some, List, [], ◌∷◌, Option-cases, Run, Ensures,
  normal, at_fault, at_limit, Ensures-bind, Ensures-bind_eq, deref,
}
use msgrpc.World.{Ptr, Kind, plain, derived, guarded, derived_async, Object, cell, action, World}
use msgrpc.SeqTable.Linked.{
  IsLinked, Ensures-get_cell, release_seq_id-IsLinked, remove_object-IsLinked,
}
use msgrpc.Destroy.{delete_all, delete_bound_context, delete_members, destroy_cell, destroy}
use msgrpc.Safety.Cells.{Keeps}

module _ {V : Type 0} (delete : Ptr → World V → Run (World V))
    (keep : (p : Ptr) → Keeps (delete p)) where
  delete_all-Keeps : (ps : List Ptr) → Keeps (delete_all delete ps)
  unfolding delete_all
  delete_all-Keeps [] w l = normal l
  delete_all-Keeps (p ∷ ps) w l = Ensures-bind _ (keep p w l) (delete_all-Keeps ps)

  delete_bound_context-Keeps : (c : Option Ptr) → Keeps (delete_bound_context delete c)
  unfolding delete_bound_context
  delete_bound_context-Keeps none w l = normal l
  delete_bound_context-Keeps (some ctxt) w l =
      Ensures-bind_eq (deref (w.contexts ctxt)) _
        λ c e. Ensures-bind _ (delete_all-Keeps c.release_list w l) λ w' l'. normal l'

  delete_members-Keeps : (k : Kind V) → Keeps (delete_members delete k)
  unfolding delete_members
  delete_members-Keeps plain w l = normal l
  delete_members-Keeps (derived logic args) w l = normal l
  delete_members-Keeps (derived_async a) w l = normal l
  delete_members-Keeps (guarded g) w l = elim (Option-cases g.timeout_cell) [
    | inl e ↦ rw e (normal l)
    | inr (t, e) ↦ rw e (keep t w l)
  ]

  destroy_cell-Keeps : (p : Ptr) (k : Kind V) → Keeps (destroy_cell delete p k)
  unfolding destroy_cell
  destroy_cell-Keeps p k w l = Ensures-bind _ (delete_members-Keeps k w l) λ w' l'.
      Ensures-get_cell p w' _
        λ c at. delete_bound_context-Keeps c.context _ (release_seq_id-IsLinked w' p c l' at)

module _ {V : Type 0} where
  destroy_object :
      (k : ℕ) (p : Ptr)
      → ((q : Ptr) → Keeps (destroy {V = V} k q))
      → (o : Option (Object V)) (w : World V) → w.objects p ≡ o
      → IsLinked w
      → Ensures IsLinked (destroy (suc k) p w)
  unfolding destroy
  destroy_object k p keep none w at l = rw (at, destroy) at_fault
  destroy_object k p keep (some (cell c)) w at l =
      rw (at, destroy) (destroy_cell-Keeps (destroy k) keep p c.kind w l)
  destroy_object k p keep (some (action a)) w at l =
      rw (at, destroy) (normal (remove_object-IsLinked w p l (rw at)))

  -- Deleting an object, with all that it owns, keeps the world linked.
  pub destroy-Keeps : (k : ℕ) (p : Ptr) → Keeps (destroy {V = V} k p)
  unfolding destroy
  destroy-Keeps zero p w l = at_limit
  destroy-Keeps (suc k) p w l = destroy_object k p (destroy-Keeps k) (w.objects p) w refl l
