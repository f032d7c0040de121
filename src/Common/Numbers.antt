-- ===== src/Common/Numbers.antt =====
-- Facts about products, quotients and differences.
use Prim.Native.Nat.{ℕ, ◌+◌, ◌-◌, ◌*◌, ◌/◌, ◌≤◌, ◌<◌}
use mathlib.Core.Path.{◌≡◌}
use native.Mathlib.Omega.{arith}
use native.Mathlib.Nat.{div-add-mod, mod-lt}
use apigateaway.Common.Tests.{◌≤?◌, ceil_div}

pub mul_sub_split : (a b c l : ℕ) → a ≤ b → b ≤ c → (b - a) * l + (c - b) * l ≡ (c - a) * l
mul_sub_split a b c l h k = grind arith

pub div_le_of_lt : (x b u : ℕ) → 0 < b → x < (u + 1) * b → x / b ≤ u
div_le_of_lt x b u h k = grind arith

pub lt_of_div_le : (x b u : ℕ) → 0 < b → x / b ≤ u → x < (u + 1) * b
lt_of_div_le x b u h k = grind (arith, div-add-mod x b, mod-lt x h)

pub ceil_div-le_of_le : (a b u : ℕ) → 0 < b → a ≤ u * b → ceil_div a b ≤ u
ceil_div-le_of_le a b u h k = div_le_of_lt _ b u h (grind arith)

pub le_of_ceil_div-le : (a b u : ℕ) → 0 < b → ceil_div a b ≤ u → a ≤ u * b
le_of_ceil_div-le a b u h k = grind (arith, lt_of_div_le (a + b - 1) b u h k)

-- `Math.ceil(a / b)` is the least whole number with at least `a / b`.
pub ceil_div-test : (a b u : ℕ) → 0 < b → (ceil_div a b ≤? u) ≡ (a ≤? u * b)
ceil_div-test a b u h = ground (arith, ceil_div-le_of_le a b u h, le_of_ceil_div-le a b u h)

pub div_mono : (x y b : ℕ) → x ≤ y → x / b ≤ y / b
div_mono x y b h = grind arith

pub mul_mono : (a b c : ℕ) → a ≤ b → a * c ≤ b * c
mul_mono a b c h = grind arith

pub le_of_mul-le : (a b c : ℕ) → 0 < c → a * c ≤ b * c → a ≤ b
le_of_mul-le a b c h k = grind arith
