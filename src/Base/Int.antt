-- ===== src/Base/Int.antt =====
-- The values of a C `int`, over the native numbers.
use Prim.Native.Nat.{ℕ, suc, ◌+◌, ◌-◌, ◌^◌}
use mathlib.Core.Path.{◌≡◌, ap}
use mathlib.Core.Logic.{◌≢◌}
use mathlib.Core.Bool.{Bool, true, false, ◌&&◌}
use native.Mathlib.Omega.{arith}
use yalnix_os_project.Base.Tests.{ltb, leb, if◌then◌else◌}

-- `negsuc n` is -(n + 1).
pub data ℤ : Type 0 where
  pos : ℕ → ℤ
  negsuc : ℕ → ℤ

abbrev pub pos_part : ℤ → ℕ
pos_part (pos n) = n
pos_part (negsuc n) = 0

abbrev pub neg_part : ℤ → ℕ
neg_part (pos n) = 0
neg_part (negsuc n) = suc n

abbrev pub ltb_ℤ : ℤ → ℤ → Bool
ltb_ℤ a b = ltb (pos_part a + neg_part b) (pos_part b + neg_part a)

abbrev pub leb_ℤ : ℤ → ℤ → Bool
leb_ℤ a b = leb (pos_part a + neg_part b) (pos_part b + neg_part a)

-- A 32-bit word read as an `int`.
abbrev pub as_int : ℕ → ℤ
as_int n = if ltb n (2 ^ 31) then pos n else negsuc (2 ^ 32 - n - 1)

abbrev pub eqb_ℤ : ℤ → ℤ → Bool
eqb_ℤ a b = leb_ℤ a b && leb_ℤ b a

pub eqb_ℤ-eq : (a b : ℤ) → a ≡ b → eqb_ℤ a b ≡ true
eqb_ℤ-eq (pos a) (pos b) e = let same : a ≡ b = cc in ground arith
eqb_ℤ-eq (pos a) (negsuc b) e = cc
eqb_ℤ-eq (negsuc a) (pos b) e = cc
eqb_ℤ-eq (negsuc a) (negsuc b) e = let same : a ≡ b = cc in ground arith

pub eqb_ℤ-ne : (a b : ℤ) → a ≢ b → eqb_ℤ a b ≡ false
eqb_ℤ-ne (pos a) (pos b) n = let other : a ≢ b = λ e. n (ap pos e) in ground arith
eqb_ℤ-ne (pos a) (negsuc b) n = ground arith
eqb_ℤ-ne (negsuc a) (pos b) n = ground arith
eqb_ℤ-ne (negsuc a) (negsuc b) n = let other : a ≢ b = λ e. n (ap negsuc e) in ground arith

pub eqb_ℤ→eq : (a b : ℤ) → eqb_ℤ a b ≡ true → a ≡ b
eqb_ℤ→eq (pos a) (pos b) h = let same : a ≡ b = ground arith in ap pos same
eqb_ℤ→eq (pos a) (negsuc b) h = absurd (ground arith)
eqb_ℤ→eq (negsuc a) (pos b) h = absurd (ground arith)
eqb_ℤ→eq (negsuc a) (negsuc b) h = let same : a ≡ b = ground arith in ap negsuc same
