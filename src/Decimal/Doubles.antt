-- ===== src/Decimal/Doubles.antt =====
-- The numbers of JavaScript, where application/todo-ledger.ts counts ids on: a natural number is
-- the nearest double, of 53 bits, and a double prints as the shortest digits that are read as it,
-- with an exponent from 10 ^ 21 on. An id has at most 64 characters, so none is near the infinite.
use world_wide_woo.Common.{
  ℕ, zero, suc, ◌+◌, ◌-◌, ◌*◌, ◌/◌, ◌%◌, ◌≤◌, ◌≡◌, String, true, false, ltb, leb, ◌==◌,
  if◌then◌else◌, arith, refl,
}
use world_wide_woo.Value.{points, is_empty, take_points, drop_points}
use world_wide_woo.Decimal.{decimal, append}

abbrev pub two_to_53 : ℕ
two_to_53 = 9007199254740992

-- The least `u * 2 ^ k` at which `n` has at most 53 bits.
unfoldable pub unit_of : ℕ → ℕ → ℕ → ℕ
unit_of zero n u = u
unit_of (suc f) n u = let rest = unit_of f n (u * 2) in if ltb n (u * two_to_53) then u else rest

-- The nearest multiple of `u`, the even one of two.
abbrev nearest_even : ℕ → ℕ → ℕ
nearest_even n u =
    let q = n / u in
    let r = n % u in
    if ltb (r * 2) u
    then q * u
    else if ltb u (r * 2)
    then (q + 1) * u
    else if q % 2 == 0
    then q * u
    else (q + 1) * u

-- The double nearest to `n`; the fuel is enough up to 2 ^ 253.
unfoldable pub double : ℕ → ℕ
unfolding unit_of
double n = elim (leb n two_to_53) [ true ↦ n | false ↦ nearest_even n (unit_of 200 n 1) ]

-- The least power of ten, from `u` on, that has as many digits as `n`.
unfoldable pub leading_unit : ℕ → ℕ → ℕ → ℕ
leading_unit zero n u = u
leading_unit (suc f) n u =
    let rest = leading_unit f n (u * 10) in if ltb n (u * 10) then u else rest

abbrev shorter : ℕ → ℕ → ℕ × ℕ → ℕ × ℕ
unfolding double
shorter n u rest =
    let down = n / u * u in
    let up = down + u in
    let near = if ltb (n - down) (up - n) then down else up in
    let far = if ltb (n - down) (up - n) then up else down in
    if double near == n then (near, u) else if double far == n then (far, u) else rest

-- The number with the fewest digits that is read as the double `n`, and the unit of its last one.
unfoldable pub shortest : ℕ → ℕ → ℕ → ℕ × ℕ
unfolding double
shortest zero n u = (n, 1)
shortest (suc f) n u = shorter n u (shortest f n (u / 10))

abbrev with_point : String → String
unfolding append
with_point digits =
    if is_empty (drop_points 1 digits)
    then digits
    else append (take_points 1 digits) (append "." (drop_points 1 digits))

unfoldable pub long_text : ℕ × ℕ → String
unfolding append decimal
long_text (c, u) =
    if ltb c 1000000000000000000000
    then decimal c
    else append (with_point (decimal (c / u))) (append "e+" (decimal (points (decimal c) - 1)))

-- `${n}` of a double.
unfoldable pub number_text : ℕ → String
unfolding decimal leading_unit shortest long_text
number_text n = elim (leb n two_to_53) [
  | true ↦ decimal n
  | false ↦ long_text (shortest 80 n (leading_unit 80 n 1))
]

pub double_exact : (n : ℕ) → n ≤ two_to_53 → double n ≡ n
unfolding double
double_exact n h = let small : leb n two_to_53 ≡ true = ground (arith, h) in rw (double, small) refl

pub number_text_exact : (n : ℕ) → n ≤ two_to_53 → number_text n ≡ decimal n
unfolding number_text
number_text_exact n h =
    let small : leb n two_to_53 ≡ true = ground (arith, h) in rw (number_text, small) refl
