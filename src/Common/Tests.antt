-- ===== src/Common/Tests.antt =====
-- Boolean tests, the conditional, and case analyses that keep the equation.
use Prim.Native.Nat.{ℕ, compare, Ordering}
use Prim.Native.String.{String}
use mathlib.Core.Path.{◌≡◌, refl, sym, subst}
use mathlib.Core.Logic.{◌⊎◌, inl, inr}
use mathlib.Core.Bool.{Bool, true, false, ◌&&◌}
use mathlib.Core.Option.{Option, none, some}
use native.Mathlib.Omega.{arith}
use text.Mathlib.Text.{◌==◌ as str_eq}
use text.Mathlib.TextEquality.{eq_iff}

pub Bool-cases : (b : Bool) → (b ≡ true) ⊎ (b ≡ false)
Bool-cases true = inl refl
Bool-cases false = inr refl

abbrev pub ltb : ℕ → ℕ → Bool
ltb a b = elim (compare a b) [ Ordering.lt ↦ true | _ ↦ false ]

abbrev pub leb : ℕ → ℕ → Bool
leb a b = elim (compare a b) [ Ordering.gt ↦ false | _ ↦ true ]

infix 50 ◌==◌
abbrev pub ◌==◌ : ℕ → ℕ → Bool
a == b = elim (compare a b) [ Ordering.eq ↦ true | _ ↦ false ]

-- `===` on texts.
infix 50 ◌is◌
abbrev pub ◌is◌ : String → String → Bool
s is t = str_eq s t

pub is_refl : (s : String) → (s is s) ≡ true
is_refl s = (eq_iff s s).1 refl

pub is→≡ : (s t : String) → (s is t) ≡ true → s ≡ t
is→≡ s t = (eq_iff s t).0

pub is_sym_false : (s t : String) → (s is t) ≡ false → (t is s) ≡ false
is_sym_false s t h = elim (Bool-cases (t is s)) [
  | inr other ↦ other
  | inl same ↦
      let r : (s is t) ≡ true = subst (λ u. (s is u) ≡ true) (sym (is→≡ t s same)) (is_refl s) in
      cc (h, r)
]

-- `===` on `string | null`.
abbrev pub opt_is : Option String → Option String → Bool
opt_is none none = true
opt_is none (some t) = false
opt_is (some s) none = false
opt_is (some s) (some t) = s is t

infix 1 if◌then◌else◌
abbrev pub if◌then◌else◌ {ℓ} : {A : Type ℓ} → Bool → A → A → A
if true then x else y = x
if false then x else y = y

pub and_left : (a b : Bool) → (a && b) ≡ true → a ≡ true
and_left a b h = ground arith

pub and_right : (a b : Bool) → (a && b) ≡ true → b ≡ true
and_right a b h = ground arith

pub Option-cases {ℓ} : {A : Type ℓ} (o : Option A) → (o ≡ none) ⊎ ((a : A) × (o ≡ some a))
Option-cases none = inl refl
Option-cases (some a) = inr (a, refl)
