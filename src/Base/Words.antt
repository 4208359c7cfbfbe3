-- ===== src/Base/Words.antt =====
-- The conversions between `int`, `uint32_t` and sizes that the code makes without a cast.
use Prim.Native.Nat.{ℕ, ◌-◌, ◌%◌, ◌^◌, ◌<◌}
use mathlib.Core.Path.{◌≡◌}
use native.Mathlib.Omega.{arith}
use blockchain_raft.Base.Tests.{ltb, if◌then◌else◌}
use blockchain_raft.Base.Int.{ℤ, pos, negsuc}

abbrev pub u32_mod : ℕ
u32_mod = 2 ^ 32

abbrev pub int_max_suc : ℕ
int_max_suc = 2 ^ 31

-- A size or a `uint32_t` read as an `int`.
unfoldable pub int_of_ℕ : ℕ → ℤ
int_of_ℕ n = let r = n % u32_mod in if ltb r int_max_suc then pos r else negsuc (u32_mod - 1 - r)

-- An `int` that meets a `uint32_t` in a comparison becomes unsigned.
unfoldable pub u32_of_int : ℤ → ℕ
u32_of_int (pos n) = n % u32_mod
u32_of_int (negsuc n) = u32_mod - 1 - n % u32_mod

pub int_of_ℕ-small : (n : ℕ) → n < int_max_suc → int_of_ℕ n ≡ pos n
unfolding int_of_ℕ
int_of_ℕ-small n h = ground arith

pub u32_of_int-pos : (n : ℕ) → n < u32_mod → u32_of_int (pos n) ≡ n
unfolding u32_of_int
u32_of_int-pos n h = omega arith

-- What an `int` can hold.
abbrev pub IsInt : ℤ → Type 0
IsInt (pos n) = n < int_max_suc
IsInt (negsuc n) = n < int_max_suc

pub int_of_ℕ-u32_of_int : (z : ℤ) → IsInt z → int_of_ℕ (u32_of_int z) ≡ z
unfolding int_of_ℕ u32_of_int
int_of_ℕ-u32_of_int (pos n) h = ground arith
int_of_ℕ-u32_of_int (negsuc n) h = ground arith
