-- ===== src/Limiter/State/Speed.antt =====
-- The limit that is in force where two limits meet: `determineSpeedLimit` of limiter/dynamic.go.
use Prim.Native.Nat.{min}
use v2b_x_patched_by_haman.Prelude.{ℕ, ℤ, pos, ◌≡◌, ◌==◌, nat_eq, if◌then◌else◌, arith}
use v2b_x_patched_by_haman.Limiter.State.{determine_speed_limit}

-- The order of the two limits does not matter, whatever their signs.
pub determine_speed_limit_comm : (a b : ℤ) → determine_speed_limit a b ≡ determine_speed_limit b a
unfolding determine_speed_limit
determine_speed_limit_comm a b = ground arith

-- Of two limits that are not negative, one that is 0 stands for none and leaves the other in
-- force; of two others the smaller one is in force.
pub determine_speed_limit_lem :
    (m n : ℕ)
    → determine_speed_limit (pos m) (pos n)
      ≡ pos (if m == 0 then n else if n == 0 then m else min m n)
unfolding determine_speed_limit
determine_speed_limit_lem m n = ground arith
