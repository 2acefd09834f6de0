-- ===== src/World/Store.antt =====
-- Reading and writing the objects of a world.
use msgrpc.Base.{
  ℕ, ◌+◌, Bool, Option, none, some, [], ◌∷◌, ◌++◌, ◌==◌, if◌then◌else◌, Run, ok, fault, ◌>>=◌,
  deref,
}
use msgrpc.Msg.{Packet}
use msgrpc.World.{Ptr, Cell, Kind, ThriftStruct, Object, cell, Context, World, View, TimerCall}
use msgrpc.Msg.{succeeded}

abbrev pub update {ℓ} : {A : Type ℓ} → (ℕ → Option A) → ℕ → Option A → ℕ → Option A
update f p v q = if q == p then v else f q

module _ {V : Type 0} where
  -- A pointer that is used as a `Cell`.
  abbrev pub as_cell : Option (Object V) → Run (Cell V)
  as_cell (some (cell c)) = ok c
  as_cell _ = fault

  abbrev pub get_cell : Ptr → World V → Run (Cell V)
  get_cell p w = as_cell (w.objects p)

  abbrev pub put_object : Ptr → Option (Object V) → World V → World V
  put_object p o w = record w { objects = update w.objects p o }

  abbrev pub put_cell : Ptr → Cell V → World V → World V
  put_cell p c = put_object p (some (cell c))

  -- `new`: a fresh pointer.
  abbrev pub alloc_object : Object V → World V → World V
  alloc_object o w = record w {
    objects = update w.objects w.next_ptr (some o);
    next_ptr = w.next_ptr + 1;
  }

  abbrev pub put_context : Ptr → Option Context → World V → World V
  put_context p c w = record w { contexts = update w.contexts p c }

  -- `RpcContext::track`.
  unfoldable pub track : Ptr → Ptr → World V → Run (World V)
  track ctxt p w = do
    c ← deref (w.contexts ctxt)
    ok (put_context ctxt (some (record c { release_list = c.release_list ++ p ∷ [] })) w)

  abbrev pub new_cell : ThriftStruct V → Kind V → Cell V
  new_cell s k = record {
    status = succeeded;
    value = none;
    updatables = [];
    context = none;
    has_seq_id = Bool.false;
    seq_id = 0;
    struct = s;
    kind = k;
  }

  abbrev pub view : Cell V → View V
  view c = record { status = c.status; value = c.value }

  -- One call of `MsgChannel::send_msg`: the packet goes out, and the channel answers.
  abbrev pub sent_packet : Packet → World V → World V
  sent_packet p w = record w { sent = w.sent ++ p ∷ []; ticks = w.ticks + 1 }

  abbrev pub timer_call : TimerCall → World V → World V
  timer_call t w = record w { timers = w.timers ++ t ∷ [] }

  abbrev pub tick : World V → World V
  tick w = record w { ticks = w.ticks + 1 }
