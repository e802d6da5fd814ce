-- ===== src/Prelude/Digits.antt =====
-- Numbers as decimal digits, the way fmt.Sprintf pads them with zeros, and back.
use gsb_salak_backend.Prelude.Tests.{◌==◌, if◌then◌else◌, Bool-cases}
use Prim.Native.Nat.{ℕ, zero, suc, ◌+◌, ◌-◌, ◌*◌, ◌/◌, ◌%◌, ◌<◌}
use mathlib.Core.Path.{◌≡◌, ◌∙◌, refl}
use mathlib.Core.Logic.{inl, inr}
use mathlib.Core.List.{List, [], ◌∷◌, ◌++◌}
use native.Mathlib.Omega.{arith}

-- The `k` lowest decimal digits, and those above without leading zeros, at most `k` of them.
unfoldable pub low_digits : ℕ → ℕ → List ℕ
low_digits zero n = []
low_digits (suc k) n = low_digits k (n / 10) ++ (b'0' + n % 10) ∷ []

unfoldable pub high_digits : ℕ → ℕ → List ℕ
high_digits zero n = []
high_digits (suc k) n =
    let above = high_digits k (n / 10) in if n == 0 then [] else above ++ (b'0' + n % 10) ∷ []

-- A number without its `k` lowest digits.
abbrev pub without : ℕ → ℕ → ℕ
without zero n = n
without (suc k) n = without k (n / 10)

abbrev pub ten_to : ℕ → ℕ
ten_to zero = 1
ten_to (suc k) = 10 * ten_to k

-- Ten to the power `k + j`.
abbrev pub ten_past : ℕ → ℕ → ℕ
ten_past zero j = ten_to j
ten_past (suc k) j = 10 * ten_past k j

-- `fmt.Sprintf("%0kd", n)` of a number with at most twelve digits above the `k` lowest.
unfoldable pub padded_to : ℕ → ℕ → List ℕ
unfolding low_digits high_digits
padded_to k n = high_digits 12 (without k n) ++ low_digits k n

-- What a text of digits stands for.
abbrev value_from : ℕ → List ℕ → ℕ
value_from acc [] = acc
value_from acc (d ∷ ds) = value_from (acc * 10 + (d - b'0')) ds

abbrev pub value : List ℕ → ℕ
value = value_from 0

value_from-append :
    (acc : ℕ) (xs ys : List ℕ) → value_from acc (xs ++ ys) ≡ value_from (value_from acc xs) ys
value_from-append acc [] ys = refl
value_from-append acc (x ∷ xs) ys = value_from-append (acc * 10 + (x - b'0')) xs ys

value_from-low : (k n : ℕ) → value_from (without k n) (low_digits k n) ≡ n
unfolding low_digits
value_from-low zero n = refl
value_from-low (suc k) n =
    value_from-append (without k (n / 10)) (low_digits k (n / 10)) ((b'0' + n % 10) ∷ [])
    ∙ rw (value_from-low k (n / 10)) (omega arith)

value-high : (k n : ℕ) → n < ten_to k → value (high_digits k n) ≡ n
unfolding high_digits
value-high zero n h = omega (arith, h)
value-high (suc k) n h = elim (Bool-cases (n == 0)) [
  | inl none_left ↦ rw none_left (ground arith)
  | inr some_left ↦ rw some_left (
      value_from-append 0 (high_digits k (n / 10)) ((b'0' + n % 10) ∷ [])
      ∙ rw (value-high k (n / 10) (omega (arith, h))) (omega arith))
]

without-lt : (k j n : ℕ) → n < ten_past k j → without k n < ten_to j
without-lt zero j n h = h
without-lt (suc k) j n h = without-lt k j (n / 10) (omega (arith, h))

-- The digits of a number stand for it.
pub value-padded_to : (k n : ℕ) → n < ten_past k 12 → value (padded_to k n) ≡ n
unfolding padded_to
value-padded_to k n h =
    value_from-append 0 (high_digits 12 (without k n)) (low_digits k n)
    ∙ rw (value-high 12 (without k n) (without-lt k 12 n h)) (value_from-low k n)
