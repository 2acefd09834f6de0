-- ===== src/Examples/Processes.antt =====
-- The safety of whole processes at a concrete process.
use msgrpc.Base.{ℕ, ◌*◌, ◌≡◌, refl, none, some, [], ◌∷◌, Ensures, normal, arith}
use msgrpc.World.{cell}
use msgrpc.World.Store.{alloc_object}
use msgrpc.SeqTable.Linked.{IsLinked, alloc_object-IsLinked}
use mathlib.Core.Path.{subst}
use msgrpc.Msg.Wire.{put_header}
use msgrpc.Stub.{request_header}
use msgrpc.Dispatch.{Platform, Process, handle_msg}
use msgrpc.Server.{Method, Iface, find_method}
use msgrpc.Safety.Messages.{RepositoryKeeps, MethodKeeps}
use msgrpc.Safety.Processes.{IsSafe, handle_msg-IsSafe}
use msgrpc.Examples.{host, start, call, result_cell, double, services}

abbrev pub platform : Platform ℕ
platform = record {
  timer_user_data = λ bytes. some 7;
  task_ptr = λ bytes. 0;
  task_bytes = λ p. [];
  self = (127, 7777);
}

double-Keeps : MethodKeeps double
double-Keeps v w l =
    normal {a = (some w.next_ptr, alloc_object (cell (result_cell (v * 2))) w)}
      (alloc_object-IsLinked w (cell (result_cell (v * 2))) l refl)

only_double :
    (i j : ℕ) (iface : Iface ℕ) (m : Method ℕ)
    → services i ≡ some iface
    → find_method j iface ≡ some m
    → double ≡ m
unfolding find_method
only_double i j iface m e f = ground arith

pub services-Keeps : RepositoryKeeps services
services-Keeps i iface e j m f =
    subst (λ x. MethodKeeps x) (only_double i j iface m e f) double-Keeps

start-IsLinked : IsLinked start
start-IsLinked = record { alive = λ s p e. cc; known = λ p s e. cc; fresh = λ p h. refl }

abbrev pub process : Process ℕ
process = record { world = start; tasks = λ p. none }

pub process-IsSafe : IsSafe host platform 3 process
process-IsSafe = record { linked = start-IsLinked; tasks = λ p t e. cc }

handle_msg-IsSafe_example :
    Ensures
      (λ r. IsSafe host platform 3 r.1)
      (handle_msg host platform 3 services 1
        (put_header (request_header call 7) (21 ∷ []))
        (127, 6666)
        process)
handle_msg-IsSafe_example =
    handle_msg-IsSafe host platform 3 services 1 (put_header (request_header call 7) (21 ∷ []))
      (127, 6666) process services-Keeps process-IsSafe
