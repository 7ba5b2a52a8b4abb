-- ===== src/Tests/Numbers.antt =====
-- Doubles and their texts at concrete inputs.
use world_wide_woo.Common.{◌≡◌, refl}
use world_wide_woo.Decimal.{decimal, append}
use world_wide_woo.Decimal.Doubles.{unit_of, double, leading_unit, shortest, long_text, number_text}

tie_to_even : double 9007199254740993 ≡ 9007199254740992
unfolding double unit_of
tie_to_even = refl

fewest_digits : number_text (double 1152921504606846976) ≡ "1152921504606847000"
unfolding number_text double unit_of shortest leading_unit decimal append long_text
fewest_digits = refl

exponent_text : number_text (double 123456789012345678901234) ≡ "1.2345678901234569e+23"
unfolding number_text double unit_of shortest leading_unit decimal append long_text
exponent_text = refl

highest_power : number_text (double 1000000000000000000000) ≡ "1e+21"
unfolding number_text double unit_of shortest leading_unit decimal append long_text
highest_power = refl
