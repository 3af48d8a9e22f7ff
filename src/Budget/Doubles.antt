-- ===== src/Budget/Doubles.antt =====
-- The arithmetic of JavaScript that fait-budget.service.ts and budget-saisie.service.ts use on
-- amounts: IEEE 754 binary64, the numbers from 0 up. Such a number is a multiple of 2^-1074, and
-- stands here as this multiple. Infinity, from 2^1024 on, is not modelled.
use Prim.Native.Nat.{◌^◌}
use budget_backend.Base.{
  ℕ, zero, suc, ◌+◌, ◌*◌, ◌/◌, ◌%◌, true, false, ltb, ◌==◌, ◌&&◌, ◌||◌, if◌then◌else◌,
}

-- The number 1
unfoldable pub un : ℕ
un = 2 ^ 1074

-- The distance of two neighbours at `n`: one up to 53 binary digits, then doubled for each digit more.
-- 2 100 steps are enough below 2^1024.
unfoldable pub ecart : ℕ → ℕ → ℕ
ecart zero n = 1
ecart (suc fuel) n = elim (ltb n (2 ^ 53)) [ true ↦ 1 | false ↦ 2 * ecart fuel (n / 2) ]

-- The multiple of `pas` next to `p / q`; of two, the even one
abbrev multiple_voisin : (p q pas : ℕ) → ℕ
multiple_voisin p q pas =
    let k = p / (q * pas) in
    let reste = p % (q * pas) in
    if ltb (2 * reste) (q * pas) || (2 * reste == q * pas && k % 2 == 0)
    then k * pas
    else suc k * pas

-- The number that stands for the fraction `p / q` of a multiple
unfoldable pub double : (p q : ℕ) → ℕ
double p q = multiple_voisin p q (ecart 2100 (p / q))

-- A decimal number with four places, given in ten-thousandths
unfoldable pub of_decimal : ℕ → ℕ
of_decimal n = double (n * un) 10000

-- `x * y`
unfoldable pub fois : ℕ → ℕ → ℕ
fois x y = double (x * y) un

-- `x * 10000`, and `x / 12`
unfoldable pub fois_10000 : ℕ → ℕ
fois_10000 x = double (x * 10000) 1

unfoldable pub sur_12 : ℕ → ℕ
sur_12 x = double x 12

-- `Math.round(x)`: a half goes up
unfoldable pub math_round : ℕ → ℕ
math_round x = (2 * x + un) / (2 * un)
