-- ===== src/Prelude/Integers.antt =====
-- Signed integers of a fixed width, as conversions of the source make them.
use Prim.Native.Nat.{ℕ, ◌+◌, ◌-◌, ◌*◌, ◌/◌, ◌%◌, ◌<◌}
use mathlib.Core.Path.{◌≡◌}
use mathlib.Core.Logic.{inl, inr}
use native.Mathlib.Omega.{arith}
use backend_go.Prelude.Tests.{ltb, if◌then◌else◌, Bool-cases}

pub data ℤ : Type 0 where
  pos negsuc : ℕ → ℤ

-- int32(n) and int64(n): the low bits in two's complement
unfoldable pub to_int32 : ℕ → ℤ
to_int32 n =
    let bits = n % 4_294_967_296 in
    if ltb bits 2_147_483_648 then pos bits else negsuc (4_294_967_295 - bits)

unfoldable pub to_int64 : ℕ → ℤ
to_int64 n =
    let bits = n % 18_446_744_073_709_551_616 in
    if ltb bits 9_223_372_036_854_775_808
    then pos bits
    else negsuc (18_446_744_073_709_551_615 - bits)

-- the integer between -half and half - 1 that differs from n by a multiple of 2 * half
abbrev pub IsSigned : ℕ → ℕ → ℤ → Type 0
IsSigned half n (pos m) = (k : ℕ) × (m < half) × (n ≡ m + k * (half + half))
IsSigned half n (negsuc m) = (k : ℕ) × (m < half) × (n + m + 1 ≡ k * (half + half))

pub to_int32-IsSigned : (n : ℕ) → IsSigned 2_147_483_648 n (to_int32 n)
unfolding to_int32
to_int32-IsSigned n = elim (Bool-cases (ltb (n % 4_294_967_296) 2_147_483_648)) [
  | inl e ↦ rw e (n / 4_294_967_296, ground arith, omega arith)
  | inr e ↦ rw e (n / 4_294_967_296 + 1, ground arith, ground arith)
]

pub to_int64-IsSigned : (n : ℕ) → IsSigned 9_223_372_036_854_775_808 n (to_int64 n)
unfolding to_int64
to_int64-IsSigned n =
    elim (Bool-cases (ltb (n % 18_446_744_073_709_551_616) 9_223_372_036_854_775_808)) [
      | inl e ↦ rw e (n / 18_446_744_073_709_551_616, ground arith, omega arith)
      | inr e ↦ rw e (n / 18_446_744_073_709_551_616 + 1, ground arith, ground arith)
    ]
