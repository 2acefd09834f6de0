-- ===== src/Adapter/Channels.antt =====
-- adapter_example/details/UdpChannel.h: the channels of a process, and how they are closed.
use msgrpc.Base.{
  ℕ, Bool, true, Option, none, some, List, [], ◌∷◌, ◌++◌, ◌≡◌, refl, if◌then◌else◌, ◌==◌, ==_self,
  arith,
}
use msgrpc.Msg.{Bytes}
use msgrpc.World.{Ptr}
use msgrpc.Adapter.{UdpChannel, send_msg_to_remote}

-- `io_services_` of all threads, `g_msg_channel` of each thread, and the services that were stopped.
pub record Channels : Type 0 where
  pub io_services : List Ptr
  pub msg_channel : ℕ → Option Ptr
  pub stopped : Ptr → Bool

-- What the constructor of the channel `p` does before it runs its service.
unfoldable pub open_channel : (thread : ℕ) → Ptr → Channels → Channels
open_channel thread p c = record c {
  io_services = c.io_services ++ p ∷ [];
  msg_channel = λ t.
      if t == thread
      then (elim (c.msg_channel thread) [ none ↦ some p | some q ↦ some q ])
      else c.msg_channel t;
}

-- The loop of `close_all_channels`.
unfoldable pub stop_each : List Ptr → (Ptr → Bool) → Ptr → Bool
stop_each [] stopped = stopped
stop_each (p ∷ ps) stopped = stop_each ps (λ q. if q == p then true else stopped q)

unfoldable pub close_all_channels : Channels → Channels
unfolding stop_each
close_all_channels c = record c { io_services = []; stopped = stop_each c.io_services c.stopped }

unfoldable pub send_msg_to_sender : Bytes → UdpChannel → UdpChannel
send_msg_to_sender msg c = send_msg_to_remote msg c.remote_endpoint c

-- A service that was stopped stays so.
stop_each-stopped :
    (ps : List Ptr) (stopped : Ptr → Bool) (p : Ptr)
    → stopped p ≡ true
    → stop_each ps stopped p ≡ true
unfolding stop_each
stop_each-stopped [] stopped p h = h
stop_each-stopped (q ∷ ps) stopped p h =
    stop_each-stopped ps (λ r. if r == q then true else stopped r) p (ground (arith, h))

stop_each-stops :
    (ps qs : List Ptr) (stopped : Ptr → Bool) (p : Ptr) → stop_each (ps ++ p ∷ qs) stopped p ≡ true
unfolding stop_each
stop_each-stops [] qs stopped p =
    stop_each-stopped qs (λ r. if r == p then true else stopped r) p (rw ==_self refl)
stop_each-stops (q ∷ ps) qs stopped p =
    stop_each-stops ps qs (λ r. if r == q then true else stopped r) p

-- The service of a channel that was opened is stopped when all the channels are closed.
close_all_channels-open_channel :
    (thread : ℕ) (p : Ptr) (c : Channels)
    → (close_all_channels (open_channel thread p c)).stopped p ≡ true
unfolding close_all_channels open_channel
close_all_channels-open_channel thread p c = stop_each-stops c.io_services [] c.stopped p
