-- ===== src/Prelude/Decimal.antt =====
-- shopspring/decimal values, as the code uses them. A Decimal is an integral number of
-- ten-thousandths of a baht: four places hold every column of the schema (numeric(18,2), and
-- numeric(10,4) for maturity_interest_per_unit) and the product of a two-place amount with 0.02.
use Prim.Native.Nat.{ℕ, suc, ◌+◌, ◌*◌, ◌/◌, ◌%◌}
use mathlib.Core.Path.{◌≡◌}
use native.Mathlib.Omega.{arith}
use gsb_salak_backend.Prelude.Int.{ℤ, pos, negsuc, pos_part, neg_part, ◌+ℤ◌, ◌-ℤ◌, ◌≤ℤ◌}

abbrev pub Decimal : Type 0
Decimal = ℤ

-- 10,000 parts to a baht.
abbrev pub baht : ℕ → Decimal
baht n = pos (n * 10000)

abbrev pub round_ℕ : ℕ → ℕ
round_ℕ n = (n + 50) / 100 * 100

abbrev pub neg_ℕ : ℕ → ℤ
neg_ℕ n = pos 0 -ℤ pos n

-- `d.Round(2)`, half away from zero. The numeric(18,2) columns round the same way on assignment.
unfoldable pub round2 : Decimal → Decimal
unfolding ◌-ℤ◌
round2 (pos n) = pos (round_ℕ n)
round2 (negsuc n) = neg_ℕ (round_ℕ (suc n))

-- At most two decimal places: a whole number of satang.
abbrev pub IsCents : Decimal → Type 0
IsCents d = (pos_part d % 100 ≡ 0) × (neg_part d % 100 ≡ 0)

-- A value with two places is stored as it is.
pub round2-cents : (d : Decimal) → IsCents d → round2 d ≡ d
unfolding round2
round2-cents (pos n) h = ground arith
round2-cents (negsuc n) h = ground arith

-- What is stored has two places.
pub round2-IsCents : (d : Decimal) → IsCents (round2 d)
unfolding round2
round2-IsCents (pos n) = ground arith
round2-IsCents (negsuc n) = ground arith

pub add-IsCents : (a b : Decimal) → IsCents a → IsCents b → IsCents (a +ℤ b)
unfolding ◌+ℤ◌
add-IsCents a b h k = ground arith

pub sub-IsCents : (a b : Decimal) → IsCents a → IsCents b → IsCents (a -ℤ b)
unfolding ◌-ℤ◌
sub-IsCents a b h k = ground arith

pub round2_nonneg : (d : Decimal) → pos 0 ≤ℤ d → pos 0 ≤ℤ round2 d
unfolding round2
round2_nonneg (pos n) h = ground arith
round2_nonneg (negsuc n) h = ground arith
