-- ===== src/Common/Numbers.antt =====
-- Division with remainder by a product, digit by digit.
use Prim.Native.Nat.{ℕ, ◌+◌, ◌*◌, ◌/◌, ◌%◌, ◌<◌}
use mathlib.Core.Path.{◌≡◌, ap, ◌∙◌}
use native.Mathlib.Omega.{arith}
use native.Mathlib.Nat.{div-add-mod, mod-lt, mod-eq_of_lt, mul-add-mod_self_left}

below_product : (b P h l : ℕ) → h < P → l < b → h * b + l < P * b
below_product b P h l hp lb = grind arith

-- The low digits of x in base b, and its last digit.
pub mod-mul_digits : (b P x : ℕ) → 0 < b → 0 < P → x % (P * b) ≡ x / b % P * b + x % b
mod-mul_digits b P x hb hP =
    let y : ℕ = x / b in
    let r : ℕ = y % P * b + x % b in
    let low : b * y + x % b ≡ x = div-add-mod x b in
    let high : P * (y / P) + y % P ≡ y = div-add-mod y P in
    let whole : x ≡ P * b * (y / P) + r = omega (arith, low, ap (λ (t : ℕ). b * t) high) in
    let small : r < P * b = below_product b P (y % P) (x % b) (mod-lt y hP) (mod-lt x hb) in
    ap (λ (t : ℕ). t % (P * b)) whole
    ∙ (mul-add-mod_self_left (P * b) (y / P) r ∙ mod-eq_of_lt small)
