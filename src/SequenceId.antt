-- ===== src/SequenceId.antt =====
-- rpc_sequence_id.h, rpc_sequence_id.cpp: the source of sequence ids, as one thread uses it.
pub mod Laws
pub mod Threads
use msgrpc.Base.{ℕ, zero, suc, ◌+◌, ◌%◌, ◌^◌, if◌then◌else◌, ◌==◌}
use msgrpc.Msg.{k_invalid_rpc_sequence_id}

-- `++sequence_id_` on a 32-bit atomic.
pub increment : ℕ → ℕ
increment s = (s + 1) % 2 ^ 32

-- The new value of `sequence_id_`, which is also what is returned.
unfoldable pub get : ℕ → ℕ
unfolding increment
get s = if increment s == k_invalid_rpc_sequence_id then increment (increment s) else increment s

pub reset : ℕ → ℕ
reset s = k_invalid_rpc_sequence_id

-- The id that the `n`-th of a row of calls returns, and the value that it leaves behind.
pub get_nth : ℕ → ℕ → ℕ
get_nth zero s = s
get_nth (suc n) s = get (get_nth n s)
