-- ===== src/Ledger/State/Rules.antt =====
-- Rules for the ledger's actions: inversion of a success, and invariants kept on every way out.
use world_wide_woo.Common.{◌≡◌, refl, Bool, true, false, Result, ok, err, if◌then◌else◌}
use world_wide_woo.Ledger.State.{
  LedgerError, Ledger, Exec, pure, throw, lift, gets, continue, ◌>>=◌,
}

module _ {S A B : Type 0} where
  continue-ok :
      (r : Result LedgerError A) (f : A → Exec S B) (l : Ledger S) {b : B}
      → (continue r f l).0 ≡ ok b
      → (a : A) × (r ≡ ok a) × (continue r f l ≡ f a l)
  continue-ok (ok a) f l h = (a, refl, refl)
  continue-ok (err e) f l h = cc

  -- A sequence that succeeds went through both of its parts.
  pub bind-ok :
      (m : Exec S A) (f : A → Exec S B) (l : Ledger S) {b : B}
      → ((m >>= f) l).0 ≡ ok b
      → (a : A) × ((m l).0 ≡ ok a) × ((m >>= f) l ≡ f a (m l).1)
  bind-ok m f l h = continue-ok (m l).0 f (m l).1 h

-- `m` keeps `P`, whether it returns or throws.
pub record Keeps {S A : Type 0} (P : Ledger S → Type 0) (m : Exec S A) : Type 0 where
  pub kept : (l : Ledger S) → P l → P (m l).1

module _ {S : Type 0} {P : Ledger S → Type 0} where
  pub Keeps-pure : {A : Type 0} (a : A) → Keeps P (pure a)
  Keeps-pure a = record { kept = λ l h. h }

  pub Keeps-throw : {A : Type 0} (e : LedgerError) → Keeps P (throw {A = A} e)
  Keeps-throw e = record { kept = λ l h. h }

  pub Keeps-lift : {A : Type 0} (r : Result LedgerError A) → Keeps P (lift r)
  Keeps-lift r = record { kept = λ l h. h }

  pub Keeps-gets : {A : Type 0} (f : Ledger S → A) → Keeps P (gets f)
  Keeps-gets f = record { kept = λ l h. h }

  continue-keeps :
      {A B : Type 0} (r : Result LedgerError A) (f : A → Exec S B) (l : Ledger S)
      → ((a : A) → r ≡ ok a → Keeps P (f a))
      → P l
      → P (continue r f l).1
  continue-keeps (ok a) f l k h = (k a refl).kept l h
  continue-keeps (err e) f l k h = h

  pub Keeps-bind :
      {A B : Type 0} (m : Exec S A) (f : A → Exec S B)
      → Keeps P m
      → ((a : A) → Keeps P (f a))
      → Keeps P (m >>= f)
  Keeps-bind m f k ks = record {
    kept = λ l h. continue-keeps (m l).0 f (m l).1 (λ a _. ks a) (k.kept l h);
  }

  -- After a pure computation, with what its success tells.
  pub Keeps-bind-lift :
      {A B : Type 0} (r : Result LedgerError A) (f : A → Exec S B)
      → ((a : A) → r ≡ ok a → Keeps P (f a))
      → Keeps P (lift r >>= f)
  Keeps-bind-lift r f ks = record { kept = λ l h. continue-keeps r f l ks h }

  -- With a fact about what the first part returns.
  pub Keeps-bind-when :
      {A B : Type 0} (Q : A → Type 0) (m : Exec S A) (f : A → Exec S B)
      → Keeps P m
      → ((l : Ledger S) (a : A) → (m l).0 ≡ ok a → Q a)
      → ((a : A) → Q a → Keeps P (f a))
      → Keeps P (m >>= f)
  Keeps-bind-when Q m f k q ks = record {
    kept = λ l h. continue-keeps (m l).0 f (m l).1 (λ a e. ks a (q l a e)) (k.kept l h);
  }

  pub Keeps-if :
      {A : Type 0} (b : Bool) (m n : Exec S A)
      → Keeps P m
      → Keeps P n
      → Keeps P (if b then m else n)
  Keeps-if true m n k k' = k
  Keeps-if false m n k k' = k'

pub ruleset keeps_rules = (Keeps-pure, Keeps-throw, Keeps-lift, Keeps-gets, Keeps-bind, Keeps-if)
