-- ===== src/Prelude/Int.antt =====
-- Go's `int` where a caller may give a negative number. `negsuc n` is -(n + 1).
use Prim.Native.Nat.{ℕ}
use mathlib.Core.Option.{Option, none, some}
use nats_guest_access.Prelude.Tests.{ltb, if◌then◌else◌}

pub data ℤ : Type 0 where
  pos : ℕ → ℤ
  negsuc : ℕ → ℤ

-- The number, if it is between 0 and `limit`.
unfoldable pub up_to : ℕ → ℤ → Option ℕ
up_to limit (pos n) = if ltb limit n then none else some n
up_to limit (negsuc n) = none
