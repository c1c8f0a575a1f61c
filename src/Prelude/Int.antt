-- ===== src/Prelude/Int.antt =====
-- Integers over the native numbers: `negsuc n` is -(n + 1).
use Prim.Native.Nat.{ℕ}
use mathlib.Core.Bool.{Bool, true, false}
use quick_find.Prelude.Tests.{ltb, truthy}

pub data ℤ : Type 0 where
  pos : ℕ → ℤ
  negsuc : ℕ → ℤ

-- An integer where the source tests its truth.
abbrev pub is_set : ℤ → Bool
is_set (pos n) = truthy n
is_set (negsuc n) = true

-- `n < z` and `n > z`.
abbrev pub below : ℕ → ℤ → Bool
below n (pos m) = ltb n m
below n (negsuc m) = false

abbrev pub above : ℕ → ℤ → Bool
above n (pos m) = ltb m n
above n (negsuc m) = true
