-- ===== src/Common/Integers.antt =====
-- Signed integers over the native numbers; `negsuc n` is `-1 - n`.
use Prim.Native.Nat.{ℕ}
use mathlib.Core.Bool.{Bool, false}
use idk.Common.Tests.{leb}

pub data ℤ : Type 0 where
  pos : ℕ → ℤ
  negsuc : ℕ → ℤ

-- `(0..=high).contains(&x)`
abbrev pub up_to : ℕ → ℤ → Bool
up_to high (pos n) = leb n high
up_to high (negsuc n) = false
