-- ===== src/Decimal.antt =====
-- Numbers inside ids, as application/todo-ledger.ts writes and reads them: `${prefix}${n}`, and the
-- match of /^prefix(\d+)$/. The numbers are exact here; Doubles has what the source makes of them.
pub mod Doubles
pub mod RoundTrip
use Prim.Native.Char.{Char, code}
use Prim.Native.String
use world_wide_woo.Common.{
  ℕ, zero, suc, ◌+◌, ◌-◌, ◌*◌, ◌/◌, ◌%◌, String, Bool, true, false, Option, none, some, ◌==◌,
  if◌then◌else◌,
}
use world_wide_woo.Value.{is_digit}

digit_char : ℕ → Char
digit_char zero = "0"
digit_char (suc zero) = "1"
digit_char (suc (suc zero)) = "2"
digit_char (suc (suc (suc zero))) = "3"
digit_char (suc (suc (suc (suc zero)))) = "4"
digit_char (suc (suc (suc (suc (suc zero))))) = "5"
digit_char (suc (suc (suc (suc (suc (suc zero)))))) = "6"
digit_char (suc (suc (suc (suc (suc (suc (suc zero))))))) = "7"
digit_char (suc (suc (suc (suc (suc (suc (suc (suc zero)))))))) = "8"
digit_char _ = "9"

-- The digits of `n` before `s`; as much fuel as `suc n` is enough.
decimal_onto : ℕ → ℕ → String → String
unfolding digit_char
decimal_onto zero n s = s
decimal_onto (suc f) n s =
    let digits = String.◌∷◌ (digit_char (n % 10)) s in
    let longer = decimal_onto f (n / 10) digits in if n / 10 == 0 then digits else longer

unfoldable pub decimal : ℕ → String
unfolding decimal_onto
decimal n = decimal_onto (suc n) n ""

parse_onto : ℕ → String → Option ℕ
unfolding is_digit
parse_onto acc String.[] = some acc
parse_onto acc (String.◌∷◌ c s) =
    let rest = parse_onto (acc * 10 + (code c - 48)) s in if is_digit (code c) then rest else none

unfoldable pub parse_decimal : String → Option ℕ
unfolding parse_onto
parse_decimal String.[] = none
parse_decimal (String.◌∷◌ c s) = parse_onto 0 (String.◌∷◌ c s)

-- `${a}${b}`.
unfoldable pub append : String → String → String
append String.[] t = t
append (String.◌∷◌ c s) t = String.◌∷◌ c (append s t)

-- What follows the prefix, where the text begins with it.
unfoldable pub after_prefix : String → String → Option String
after_prefix String.[] t = some t
after_prefix (String.◌∷◌ c s) String.[] = none
after_prefix (String.◌∷◌ c s) (String.◌∷◌ d t) = if code c == code d then after_prefix s t else none

unfoldable pub number_after : String → String → Option ℕ
unfolding after_prefix parse_decimal
number_after prefix s = elim (after_prefix prefix s) [
  | none ↦ none
  | some rest ↦ parse_decimal rest
]
