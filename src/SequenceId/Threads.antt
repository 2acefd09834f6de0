-- ===== src/SequenceId/Threads.antt =====
-- rpc_sequence_id.cpp: `RpcSequenceId::get` on several threads. Each access to the atomic counter is
-- a step, and the steps of the threads are interleaved in any order.
pub mod Interleavings
use msgrpc.Base.{ℕ, suc, ◌+◌, ◌≡◌, ◌≢◌, Bool, true, false, if◌then◌else◌, ◌==◌}
use msgrpc.SequenceId.{increment}

-- Where a call stands: before `++sequence_id_`, before the test, before the second `++`, before the
-- read of the result, and behind it.
pub data Pc : Type 0 where
  start added must_skip must_read : Pc
  returned : ℕ → Pc

-- A step of one thread on the counter; `adds` says whether it was an increment.
pub data Move (s : ℕ) : Pc → (adds : Bool) → ℕ → Pc → Type 0 where
  add : {s' : ℕ} → s' ≡ increment s → Move s start true s' added
  test_invalid : s ≡ 0 → Move s added false s must_skip
  test_valid : s ≢ 0 → Move s added false s must_read
  skip : {s' : ℕ} → s' ≡ increment s → Move s must_skip true s' must_read
  read : Move s must_read false s (returned s)
  again : {id : ℕ} → Move s (returned id) false s start

pub record Threads : Type 0 where
  pub sequence_id : ℕ
  pub pc : ℕ → Pc

abbrev pub set_pc : (ℕ → Pc) → ℕ → Pc → ℕ → Pc
set_pc pc i p j = if j == i then p else pc j

abbrev pub one_more : Bool → ℕ → ℕ
one_more true n = suc n
one_more false n = n

-- What the threads can reach from a counter `s`, when no call has begun, with `n` increments.
pub data Reach (s : ℕ) : ℕ → Threads → Type 0 where
  begin : Reach s 0 (record { sequence_id = s; pc = λ i. start })
  step :
      {n : ℕ} {t : Threads} (i : ℕ) {adds : Bool} {s' : ℕ} {p : Pc}
      → Reach s n t
      → Move t.sequence_id (t.pc i) adds s' p
      → Reach s (one_more adds n) (record { sequence_id = s'; pc = set_pc t.pc i p })
