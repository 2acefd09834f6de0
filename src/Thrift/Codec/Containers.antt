-- ===== src/Thrift/Codec/Containers.antt =====
-- The loops over the elements of lists, sets and maps, written and read again.
use msgrpc.Base.{
  ◌≡◌, refl, Bool, List, [], ◌∷◌, ◌++◌, map, Run, length, append_assoc, append-nil, map-append, ok,
  ap, fault, out_of_fuel,
}
use msgrpc.Msg.{Bytes}
use msgrpc.Thrift.Protocol.{Reader, return, ◌<+>◌}
use msgrpc.Thrift.Protocol.Laws.{Reads-return, Inverts, Inverts-ok, Inverts-bind, Inverts-map}
use msgrpc.Thrift.Codec.{write_all, read_many, insert, read_into_set, entry, assign, read_into_map}
use msgrpc.Thrift.Codec.Writable.{All, Above, Ascending}

module _ {A : Type 0} (write : A → Run Bytes) (read : Reader A) where
  pub read_many-write_all :
      (xs : List A)
      → All (λ x. Inverts (write x) read x) xs
      → Inverts (write_all write xs) (read_many (length xs) read) xs
  unfolding write_all read_many
  read_many-write_all [] h = Inverts-ok (return []) [] [] (Reads-return [])
  read_many-write_all (x ∷ xs) (h, hs) =
      Inverts-bind (write x) (write_all write xs) read _ x (x ∷ xs) h (
        Inverts-map (write_all write xs) (read_many (length xs) read) (λ ys. x ∷ ys) xs
          (read_many-write_all xs hs))

join_assoc : (r s t : Run Bytes) → (r <+> s) <+> t ≡ r <+> (s <+> t)
join_assoc (ok a) (ok b) (ok c) = ap ok (append_assoc a b c)
join_assoc (ok a) (ok b) fault = refl
join_assoc (ok a) (ok b) out_of_fuel = refl
join_assoc (ok a) fault t = refl
join_assoc (ok a) out_of_fuel t = refl
join_assoc fault s t = refl
join_assoc out_of_fuel s t = refl

module _ {K : Type 0} (less : K → K → Bool) where
  insert-Above : (x : K) (xs : List K) → Above less xs x → insert less x xs ≡ xs ++ x ∷ []
  unfolding insert
  insert-Above x [] h = refl
  insert-Above x (y ∷ ys) ((below, not_above), hs) =
      rw (not_above, below, insert-Above x ys hs) refl

  pub read_into_set-write_all :
      (write : K → Run Bytes) (read : Reader K) (set xs : List K)
      → All (λ x. Inverts (write x) read x) xs
      → Ascending less set xs
      → Inverts (write_all write xs) (read_into_set less (length xs) read set) (set ++ xs)
  unfolding write_all read_into_set
  read_into_set-write_all write read set [] h a =
      rw append-nil (Inverts-ok (return set) [] set (Reads-return set))
  read_into_set-write_all write read set (x ∷ xs) (h, hs) (a, as_) =
      Inverts-bind (write x) (write_all write xs) read _ x (set ++ x ∷ xs) h (
        rw (insert-Above x set a) (
          rw (← append_assoc set (x ∷ []) xs)
            (read_into_set-write_all write read (set ++ x ∷ []) xs hs as_)))

  module _ {V : Type 0} (initial : V) where
    entry-Above :
        (k : K) (m : List (K × V))
        → Above less (map (λ e. e.0) m) k
        → entry less initial k m ≡ initial
    unfolding entry
    entry-Above k [] h = refl
    entry-Above k ((j, v) ∷ m) ((below, not_above), hs) = rw (not_above, below) (entry-Above k m hs)

    assign-Above :
        (k : K) (v : V) (m : List (K × V))
        → Above less (map (λ e. e.0) m) k
        → assign less k v m ≡ m ++ (k, v) ∷ []
    unfolding assign
    assign-Above k v [] h = refl
    assign-Above k v ((j, u) ∷ m) ((below, not_above), hs) =
        rw (not_above, below, assign-Above k v m hs) refl

    pub read_into_map-write_all :
        (write_key : K → Run Bytes) (write_value : V → Run Bytes) (read_key : Reader K)
        (read_value : V → Reader V) (m es : List (K × V))
        → All
            (λ e.
              Inverts (write_key e.0) read_key e.0
              × Inverts (write_value e.1) (read_value initial) e.1)
            es
        → Ascending less (map (λ e. e.0) m) (map (λ e. e.0) es)
        → Inverts
            (write_all (λ e. write_key e.0 <+> write_value e.1) es)
            (read_into_map less initial (length es) read_key read_value m)
            (m ++ es)
    unfolding write_all read_into_map
    read_into_map-write_all write_key write_value read_key read_value m [] h a =
        rw append-nil (Inverts-ok (return m) [] m (Reads-return m))
    read_into_map-write_all write_key write_value read_key read_value m ((k, v) ∷ es) ((hk, hv), hs)
          (a, as_) =
        rw (join_assoc (write_key k) (write_value v)) (
          Inverts-bind (write_key k) _ read_key _ k (m ++ (k, v) ∷ es) hk (
            Inverts-bind (write_value v) _ (read_value (entry less initial k m)) _ v
              (m ++ (k, v) ∷ es) (rw (entry-Above k m a) hv)
              (rw (assign-Above k v m a) (
                rw (← append_assoc m ((k, v) ∷ []) es) (
                  read_into_map-write_all write_key write_value read_key read_value
                    (m ++ (k, v) ∷ []) es hs (rw (map-append (λ e. e.0) m ((k, v) ∷ [])) as_))))))
