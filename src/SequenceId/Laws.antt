-- ===== src/SequenceId/Laws.antt =====
-- Ids are valid and do not come back before the counter has gone round.
use msgrpc.Base.{ℕ, zero, suc, ◌+◌, ◌-◌, ◌%◌, ◌^◌, ◌<◌, ◌≡◌, ◌≢◌, arith}
use msgrpc.SequenceId.{get, get_nth}

-- An id that `get` can have returned.
abbrev pub IsValidId : ℕ → Type 0
IsValidId s = (0 < s) × (s < 2 ^ 32)

-- Whatever the counter holds, `get` returns a 32-bit value that is not the invalid id.
pub get-IsValidId : (s : ℕ) → IsValidId (get s)
unfolding get
get-IsValidId s = ground arith

-- The ids go round the numbers from 1 to 2^32 - 1.
pub get_lem : (s : ℕ) → s < 2 ^ 32 → get s ≡ s % (2 ^ 32 - 1) + 1
unfolding get
get_lem s h = ground arith

-- The ids of a row of calls run through all valid ids in turn.
pub get_nth_lem : (n s : ℕ) → IsValidId s → get_nth n s ≡ (s - 1 + n) % (2 ^ 32 - 1) + 1
unfolding get_nth
get_nth_lem zero s v = omega arith
get_nth_lem (suc n) s v = omega (arith, get_nth_lem n s v, get_lem (get_nth n s))

-- After an id was given out, none of the next 2^32 - 2 calls gives it out again.
pub get_nth-ne :
    (i j s : ℕ) → IsValidId s → i < j → j < i + (2 ^ 32 - 1) → get_nth i s ≢ get_nth j s
get_nth-ne i j s v lt close = omega (arith, get_nth_lem i s v, get_nth_lem j s v)
