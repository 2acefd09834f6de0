-- ===== src/Examples/Threads.antt =====
-- Witnesses for sequence ids on several threads.
use msgrpc.Base.{ℕ, ◌+◌, ◌<◌, ◌≤◌, ◌≡◌, arith}
use msgrpc.SequenceId.{get}
use msgrpc.SequenceId.Threads.{returned, Threads, Reach}
use msgrpc.SequenceId.Threads.Interleavings.{Alone, get-Alone, returned-IsEarly, same_id_twice}

get-Alone_example :
    (get 4294967295 ≡ 1)
    × Alone 4294967295 1 (returned 1)
    × ((now id : ℕ) → Alone 4294967295 now (returned id) → (now ≡ 1) × (id ≡ 1))
get-Alone_example = get-Alone 4294967295 (omega arith)

same_id_twice_example : (t : Threads) × Reach 6 2 t × (t.pc 0 ≡ returned 8) × (t.pc 1 ≡ returned 8)
same_id_twice_example = same_id_twice 6 (omega arith)

raced : (t : Threads) × Reach 6 2 t × (t.pc 0 ≡ returned 8) × (t.pc 1 ≡ returned 8)
raced = same_id_twice 6 (omega arith)

returned-IsEarly_example : (6 < 8) × (8 ≤ 6 + 2)
returned-IsEarly_example = returned-IsEarly 6 2 1 8 raced.0 raced.1 (omega arith) raced.3
