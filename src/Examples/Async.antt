-- ===== src/Examples/Async.antt =====
-- A DerivedAsyncCell whose function calls a stub.
use msgrpc.Base.{◌≡◌, refl, true, false, none, some, [], ◌∷◌, ok, ℕ, ◌==◌, if◌then◌else◌, arith}
use msgrpc.Msg.{RpcResult, is_succeeded}
use msgrpc.Cell.{set_value, set_failed_reason, encode}
use msgrpc.World.{Cell, cell, derived_async, AsyncPart, from_call, Context, World}
use msgrpc.World.Store.{new_cell, put_cell}
use msgrpc.Stub.Sending.{IsPrepared, waiting, under_way, encode_request_and_send-under_way}
use msgrpc.Guarded.{views}
use msgrpc.Async.{source_cell}
use msgrpc.Notify.{notify}
use msgrpc.Async.Following.{notify-Follows}
use msgrpc.Examples.{byte, host, start, call}

abbrev part : AsyncPart ℕ
part = record { ctxt = 0; source = λ vs. from_call call; args = [] }

abbrev async_cell : Cell ℕ
async_cell = record (new_cell byte (derived_async part)) { updatables = 7 ∷ [] }

abbrev updating : World ℕ
updating = record start {
  objects = λ p. if p == 1 then some (cell async_cell) else none;
  next_ptr = 2;
}

abbrev resolving : Context
resolving = record { release_list = []; has_service_resolver = true }

prepared : IsPrepared host 0 call updating (21 ∷ []) resolving
unfolding encode
prepared = record { encoded = refl; memory = refl; unused = refl; context = refl; resolver = refl }

abbrev called : World ℕ
called = under_way host 0 call updating (21 ∷ []) resolving prepared (127, 7777)

calls : source_cell host (notify host 1) 0 (from_call call) updating ≡ ok (2, called)
unfolding source_cell
calls =
    encode_request_and_send-under_way host 0 call updating (21 ∷ []) resolving prepared (127, 7777)
      refl refl

reads_nothing : views [] updating ≡ ok []
unfolding views
reads_nothing = refl

-- Another cell listens to the async cell.
notify-Follows_example :
    (w2 : World ℕ) × (notify host 2 1 updating ≡ ok w2)
    × (w2.objects 1 ≡ some (cell async_cell))
    × ((v : ℕ)
        → set_value (notify host 2) 2 v w2
          ≡ set_value (notify host 1) 1 v (
              put_cell 2
                (record (waiting host 0 call updating) { value = some v; updatables = 3 ∷ [] })
                w2))
    × ((r : RpcResult)
        → is_succeeded r ≡ false
        → set_failed_reason (notify host 2) 2 r w2
          ≡ set_failed_reason (notify host 1) 1 r (
              put_cell 2
                (record (waiting host 0 call updating) { status = r; updatables = 3 ∷ [] })
                w2))
notify-Follows_example =
    notify-Follows host 1 1 2 async_cell (waiting host 0 call updating) part
      (record resolving { release_list = 2 ∷ [] }) [] updating called refl refl reads_nothing calls
      refl refl (omega arith) (omega arith) (omega arith) refl refl refl refl
