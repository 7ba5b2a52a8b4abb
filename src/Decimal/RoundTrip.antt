-- ===== src/Decimal/RoundTrip.antt =====
-- A number written after a prefix is read back.
use Prim.Native.Char.{Char, code}
use world_wide_woo.Common.{
  ℕ, zero, suc, ◌+◌, ◌*◌, ◌/◌, ◌%◌, ◌<◌, String, ◌≡◌, refl, Bool, true, false, some, ◌==◌,
  if◌then◌else◌, arith, Bool-cases, inl, inr, ◌∙◌, ap,
}
use world_wide_woo.Decimal.{
  digit_char, decimal_onto, decimal, parse_onto, parse_decimal, append, after_prefix, number_after,
}

code-digit_char : (n : ℕ) → n < 10 → code (digit_char n) ≡ 48 + n
unfolding digit_char
code-digit_char zero h = refl
code-digit_char (suc zero) h = refl
code-digit_char (suc (suc zero)) h = refl
code-digit_char (suc (suc (suc zero))) h = refl
code-digit_char (suc (suc (suc (suc zero)))) h = refl
code-digit_char (suc (suc (suc (suc (suc zero))))) h = refl
code-digit_char (suc (suc (suc (suc (suc (suc zero)))))) h = refl
code-digit_char (suc (suc (suc (suc (suc (suc (suc zero))))))) h = refl
code-digit_char (suc (suc (suc (suc (suc (suc (suc (suc zero)))))))) h = refl
code-digit_char (suc (suc (suc (suc (suc (suc (suc (suc (suc zero))))))))) h = refl
code-digit_char (suc (suc (suc (suc (suc (suc (suc (suc (suc (suc n)))))))))) h =
    absurd (omega arith)

parse-digit :
    (acc n : ℕ) (s : String)
    → n < 10
    → parse_onto acc (String.◌∷◌ (digit_char n) s) ≡ parse_onto (acc * 10 + n) s
unfolding parse_onto
parse-digit acc n s h = ground (arith, code-digit_char n h)

parse_decimal_onto :
    (f n : ℕ) (s : String) → n < f → parse_onto 0 (decimal_onto f n s) ≡ parse_onto n s
unfolding decimal_onto
parse_decimal_onto zero n s h = elim h [ ]
parse_decimal_onto (suc f) n s h = elim (Bool-cases (n / 10 == 0)) [
  | inl last ↦
      rw last (parse-digit 0 (n % 10) s (omega arith) ∙ ap (λ k. parse_onto k s) (ground arith))
  | inr more ↦ rw more (
      parse_decimal_onto f (n / 10) (String.◌∷◌ (digit_char (n % 10)) s) (ground arith)
      ∙ (parse-digit (n / 10) (n % 10) s (omega arith) ∙ ap (λ k. parse_onto k s) (omega arith)))
]

if_same : {A : Type 0} (b : Bool) (x : A) → (if b then x else x) ≡ x
if_same true x = refl
if_same false x = refl

decimal_onto-cons :
    (f n : ℕ) (s : String) → (c : Char) × (t : String) × (decimal_onto (suc f) n s ≡ String.◌∷◌ c t)
unfolding decimal_onto
decimal_onto-cons zero n s = (digit_char (n % 10), s, if_same (n / 10 == 0) _)
decimal_onto-cons (suc f) n s = elim (Bool-cases (n / 10 == 0)) [
  | inl last ↦ (digit_char (n % 10), s, rw last)
  | inr more ↦
      let (c, t, e) = decimal_onto-cons f (n / 10) (String.◌∷◌ (digit_char (n % 10)) s) in
      (c, t, rw more e)
]

parse_decimal-decimal : (n : ℕ) → parse_decimal (decimal n) ≡ some n
unfolding decimal parse_decimal
parse_decimal-decimal n =
    let (c, t, e) = decimal_onto-cons n n "" in
    rw e ((rw e at (parse_decimal_onto (suc n) n "" (omega arith))))

append-prefix : (p s : String) → after_prefix p (append p s) ≡ some s
unfolding after_prefix append
append-prefix String.[] s = refl
append-prefix (String.◌∷◌ c p) s = ground (arith, append-prefix p s)

-- The number in the id `${prefix}${n}` is `n`.
pub number_after-append :
    (prefix : String) (n : ℕ) → number_after prefix (append prefix (decimal n)) ≡ some n
unfolding number_after
number_after-append prefix n =
    rw (append-prefix prefix (decimal n), number_after) (parse_decimal-decimal n)
