-- ===== src/Checkout/Doubles.antt =====
-- Non-negative doubles, which the amounts in GHS are. A double is the multiple of the smallest one,
-- 2^-1074, that it is: a natural number with at most 53 bits before its trailing zeros. Results are
-- rounded to the nearest double, a tie to the even one. Results stay under 2^1024, and the whole
-- numbers that are counted stay under 2^53, where a double is exact.
use nexra.Prelude.{
  ℕ, zero, suc, ◌+◌, ◌*◌, ◌/◌, ◌%◌, ◌^◌, ltb, ◌==◌, ◌||◌, ◌&&◌, if◌then◌else◌, ◌≡◌, refl, subst,
  arith,
}

abbrev pub one : ℕ
one = 2 ^ 1_074

-- How often a number is halved until it has at most 53 bits.
unfoldable pub exponent : ℕ → ℕ → ℕ
exponent zero n = 0
exponent (suc fuel) n = let more = exponent fuel (n / 2) in if ltb n (2 ^ 53) then 0 else suc more

-- The nearest multiple of `d`, counted in `d`.
unfoldable pub nearest : ℕ → ℕ → ℕ
nearest n d =
    let q = n / d in
    let twice = 2 * (n % d) in if ltb d twice || (twice == d && q % 2 == 1) then q + 1 else q

-- The double that is nearest to n/d; 2045 halvings are enough for what is under 2^1024.
unfoldable pub round : ℕ → ℕ → ℕ
unfolding exponent nearest
round n d = let grid = 2 ^ exponent 2_045 (n / d) in nearest n (d * grid) * grid

-- A decimal numeral, n/d.
unfoldable pub decimal : ℕ → ℕ → ℕ
unfolding round
decimal n d = round (n * one) d

-- A whole number times a double.
unfoldable pub times : ℕ → ℕ → ℕ
unfolding round
times n x = round (n * x) 1

-- `Math.floor(x / y)`, for `y` that is not 0.
unfoldable pub floor_quotient : ℕ → ℕ → ℕ
unfolding round
floor_quotient x y = round (x * one) y / one

round-zero : round 0 1 ≡ 0
unfolding round nearest exponent
round-zero = refl

pub times-zero : (x : ℕ) → times 0 x ≡ 0
unfolding times
times-zero x =
    let nothing : 0 ≡ 0 * x = omega arith in subst (λ n. round n 1 ≡ 0) nothing round-zero
