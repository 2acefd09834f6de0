-- ===== src/Stub/Sending.antt =====
-- What a call of a remote method does on each way out.
use msgrpc.Base.{
  ℕ, ◌+◌, ◌≡◌, refl, true, false, none, some, List, [], ◌∷◌, ◌++◌, ok, length, arith, ==_self, ◌∙◌,
  ◌⊎◌, inl, inr,
}
use msgrpc.Msg.{failed, Bytes, ServiceId, Packet}
use msgrpc.Msg.Wire.{put_header, sizeof_req_header}
use msgrpc.SequenceId
use msgrpc.World.{Ptr, Cell, cell, plain, Context, RpcCall, World, Host}
use msgrpc.World.Store.{new_cell, alloc_object, put_object, tick, sent_packet, put_context}
use msgrpc.SeqTable.{erase_handler, register_rsp_handler, remove_rsp_handler}
use msgrpc.SeqTable.Linked.{registered}
use msgrpc.Cell.{encode, new_instance}
use msgrpc.Destroy.{destroy}
use msgrpc.Stub.{
  request_header, resolve_and_send, send_rpc_request_buf, keep_or_fail, encode_request_and_send,
  failed_cell_with_reason,
}

module _ {V : Type 0} (host : Host V) (ctxt : Ptr) (call : RpcCall V) (w : World V) where
  abbrev pub seq : ℕ
  seq = SequenceId.get w.sequence_id

  -- The cell that will wait for the response.
  abbrev pub waiting : Cell V
  waiting = record (new_cell call.rsp_struct plain) { seq_id = seq; has_seq_id = true }

  abbrev pub request : Bytes → Bytes
  request buf = put_header (request_header call seq) buf

  abbrev pub packet : ServiceId → Bytes → Packet
  packet id buf = record { to = id; msg_id = host.ids.request_msg_id; buf = request buf }

  -- The world in which the request is under way.
  abbrev pub after_register : World V
  after_register =
      registered seq w.next_ptr (new_cell call.rsp_struct plain)
        (record (alloc_object (cell (new_cell call.rsp_struct plain)) w) {
          sequence_id = seq;
          ticks = w.ticks + 1;
        })

  -- What the call needs before it resolves the service: an encoding, memory, an unused id, and a
  -- context with a resolver.
  pub record IsPrepared (buf : Bytes) (x : Context) : Type 0 where
    pub encoded : encode call.req_struct call.request ≡ some buf
    pub memory : host.malloc w.ticks (sizeof_req_header + length buf) ≡ true
    pub unused : w.id_func_map seq ≡ none
    pub context : w.contexts ctxt ≡ some x
    pub resolver : x.has_service_resolver ≡ true

  destroy-waiting :
      (w2 : World V) (q : Ptr)
      → w2.objects w.next_ptr ≡ some (cell waiting)
      → w2.id_func_map seq ≡ some q
      → destroy 1 w.next_ptr w2 ≡ ok (put_object w.next_ptr none (erase_handler seq w2))
  unfolding destroy
  destroy-waiting w2 q at known = rw (at, destroy) (rw at (rw (known, remove_rsp_handler) refl))

  module _ (buf : Bytes) (x : Context) (h : IsPrepared buf x) where
    register_fresh :
        register_rsp_handler seq w.next_ptr
          (record (alloc_object (cell (new_cell call.rsp_struct plain)) w) {
            sequence_id = seq;
            ticks = w.ticks + 1;
          })
        ≡ ok after_register
    unfolding register_rsp_handler
    register_fresh = rw h.unused (rw ==_self refl)

    send_prepared :
        send_rpc_request_buf host ctxt call buf w.next_ptr
          (alloc_object (cell (new_cell call.rsp_struct plain)) w)
        ≡ ok (resolve_and_send host call.service_name (request buf) after_register)
    unfolding send_rpc_request_buf
    send_prepared = rw h.memory (rw register_fresh (rw h.context (rw h.resolver refl)))

    begin :
        encode_request_and_send host ctxt call w
        ≡ keep_or_fail host ctxt call w.next_ptr
            (resolve_and_send host call.service_name (request buf) after_register)
    unfolding encode_request_and_send
    begin = rw (h.encoded, encode_request_and_send) (rw send_prepared refl)

    -- The world in which the channel has taken the request.
    abbrev pub under_way : ServiceId → World V
    under_way id =
        put_context ctxt (some (record x { release_list = x.release_list ++ w.next_ptr ∷ [] }))
          (sent_packet (packet id buf) (tick after_register))

    pub encode_request_and_send-under_way :
        (id : ServiceId)
        → host.resolve (w.ticks + 1) call.service_name (request buf) ≡ some id
        → host.send_msg (w.ticks + 1 + 1) (packet id buf) ≡ true
        → encode_request_and_send host ctxt call w ≡ ok (w.next_ptr, under_way id)
    unfolding keep_or_fail resolve_and_send
    encode_request_and_send-under_way id resolved accepted =
        begin ∙ rw (resolved, resolve_and_send) (rw accepted (rw h.context refl))

    -- A request that the channel takes: one packet with the header of the call, the new id and the
    -- encoded request goes to the service's instance, and a fresh cell is the handler of the id.
    pub encode_request_and_send_sent :
        (id : ServiceId)
        → host.resolve (w.ticks + 1) call.service_name (request buf) ≡ some id
        → host.send_msg (w.ticks + 1 + 1) (packet id buf) ≡ true
        → (w' : World V) × (encode_request_and_send host ctxt call w ≡ ok (w.next_ptr, w'))
          × (w'.sent ≡ w.sent ++ packet id buf ∷ [])
          × (w'.id_func_map seq ≡ some w.next_ptr)
          × (w'.objects w.next_ptr ≡ some (cell waiting))
          × (w'.contexts ctxt
              ≡ some (record x { release_list = x.release_list ++ w.next_ptr ∷ [] }))
    encode_request_and_send_sent id resolved accepted = (
      under_way id,
      encode_request_and_send-under_way id resolved accepted,
      refl,
      rw ==_self,
      rw ==_self,
      rw ==_self,
    )

    -- The waiting cell goes, and a failed cell takes its place in the context.
    abbrev pub given_up : List Packet → ℕ → World V
    given_up sent ticks =
        put_context ctxt
          (some (record x { release_list = x.release_list ++ (w.next_ptr + 1) ∷ [] }))
          (alloc_object (cell (new_instance call.rsp_struct failed)) (
            put_object w.next_ptr none
              (erase_handler seq (record after_register { sent = sent; ticks = ticks }))))

    fail_registered :
        (sent : List Packet) (ticks : ℕ)
        → keep_or_fail host ctxt call w.next_ptr
            (false, record after_register { sent = sent; ticks = ticks })
          ≡ ok (w.next_ptr + 1, given_up sent ticks)
    unfolding keep_or_fail failed_cell_with_reason
    fail_registered sent ticks =
        rw
          (destroy-waiting (record after_register { sent = sent; ticks = ticks }) w.next_ptr
            (rw ==_self) (rw ==_self))
          (rw h.context refl)

    -- What a failed call leaves behind.
    pub record IsFailedCall (w' : World V) : Type 0 where
      pub failed_cell :
          w'.objects (w.next_ptr + 1) ≡ some (cell (new_instance call.rsp_struct failed))
      pub no_waiting_cell : w'.objects w.next_ptr ≡ none
      pub same_handlers : (s : ℕ) → w'.id_func_map s ≡ w.id_func_map s
      pub tracked :
          w'.contexts ctxt
          ≡ some (record x { release_list = x.release_list ++ (w.next_ptr + 1) ∷ [] })

    given_up-IsFailedCall : (sent : List Packet) (ticks : ℕ) → IsFailedCall (given_up sent ticks)
    given_up-IsFailedCall sent ticks = record {
      failed_cell = rw ==_self;
      no_waiting_cell = ground arith;
      same_handlers = λ s. ground (arith, h.unused);
      tracked = rw ==_self;
    }

    -- A service that cannot be resolved, or a channel that refuses the request: the caller gets a cell
    -- that has failed, the cell that would have waited is deleted, and no handler is left behind.
    pub encode_request_and_send_failed :
        (host.resolve (w.ticks + 1) call.service_name (request buf) ≡ none)
          ⊎ ((id : ServiceId) × (host.resolve (w.ticks + 1) call.service_name (request buf)
                ≡ some id)
              × (host.send_msg (w.ticks + 1 + 1) (packet id buf) ≡ false))
        → (w' : World V) × (encode_request_and_send host ctxt call w ≡ ok (w.next_ptr + 1, w'))
          × IsFailedCall w'
    unfolding resolve_and_send
    encode_request_and_send_failed (inl unresolved) = (
      given_up w.sent (w.ticks + 1 + 1),
      begin ∙ rw (unresolved, resolve_and_send) (fail_registered w.sent (w.ticks + 1 + 1)),
      given_up-IsFailedCall _ _,
    )
    encode_request_and_send_failed (inr (id, resolved, refused)) = (
      given_up (w.sent ++ packet id buf ∷ []) (w.ticks + 1 + 1 + 1),
      begin ∙ rw (resolved, resolve_and_send) (rw refused (fail_registered _ _)),
      given_up-IsFailedCall _ _,
    )
