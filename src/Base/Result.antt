-- ===== src/Base/Result.antt =====
-- Go's (value, error) pairs, with the errors as data.

use mathlib.Core.Path.{◌≡◌, refl, subst}
use gole.Base.Tests.{if◌then◌else◌}
use mathlib.Core.Logic.{◌⊎◌, inl, inr}
use mathlib.Core.Bool.{Bool, true, false}
use mathlib.Core.Option.{Option, none, some}

pub data Result (E : Type 0) (A : Type 0) : Type 0 where
  ok : A → Result E A
  err : E → Result E A

infixl 5 ◌>>=◌ ◌>>◌
abbrev pub ◌>>=◌ : {E A B : Type 0} → Result E A → (A → Result E B) → Result E B
ok a >>= f = f a
err e >>= f = err e

abbrev pub ◌>>◌ : {E B : Type 0} → Result E (Unit {0}) → Result E B → Result E B
m >> k = m >>= λ _. k

-- An early return of an error unless the test passes.
abbrev pub guard : {E : Type 0} → Bool → E → Result E (Unit {0})
guard true e = ok tt
guard false e = err e

-- An early return of an error where there is no value.
abbrev pub or_fail : {E A : Type 0} → Option A → E → Result E A
or_fail none e = err e
or_fail (some a) e = ok a

-- fmt.Errorf("...: %w", err)
abbrev pub wrap : {E F A : Type 0} → (E → F) → Result E A → Result F A
wrap f (ok a) = ok a
wrap f (err e) = err (f e)

pub >>=-eq-ok :
    {E A B : Type 0} (first : Result E A) (rest : A → Result E B) {value : B}
    → (first >>= rest) ≡ ok value
    → (mid : A) × (first ≡ ok mid) × (rest mid ≡ ok value)
>>=-eq-ok (err e) rest passed = cc
>>=-eq-ok (ok mid) rest passed = (mid, refl, passed)

pub guard_passed : {E : Type 0} (b : Bool) (e : E) {u : Unit {0}} → guard b e ≡ ok u → b ≡ true
guard_passed true e h = refl
guard_passed false e h = cc

pub or_fail_found : {E A : Type 0} (o : Option A) (e : E) {a : A} → or_fail o e ≡ ok a → o ≡ some a
or_fail_found none e h = cc
or_fail_found (some b) e h = cc

pub Result-cases :
    {E A : Type 0} (m : Result E A) → ((e : E) × (m ≡ err e)) ⊎ ((a : A) × (m ≡ ok a))
Result-cases (err e) = inl (e, refl)
Result-cases (ok a) = inr (a, refl)

-- What a result is, unless it is an error
abbrev pub Ensures : {E A : Type 0} → (A → Type 0) → Result E A → Type 0
Ensures P (ok a) = P a
Ensures P (err e) = Unit {0}

pub Ensures-bind :
    {E A B : Type 0} (P : A → Type 0) (Q : B → Type 0) (m : Result E A) (f : A → Result E B)
    → Ensures P m
    → ((a : A) → P a → Ensures Q (f a))
    → Ensures Q (m >>= f)
Ensures-bind P Q (ok a) f h k = k a h
Ensures-bind P Q (err e) f h k = tt

pub Ensures-any :
    {E A B : Type 0} (Q : B → Type 0) (m : Result E A) (f : A → Result E B)
    → ((a : A) → Ensures Q (f a))
    → Ensures Q (m >>= f)
Ensures-any Q (ok a) f k = k a
Ensures-any Q (err e) f k = tt

pub Ensures-guard :
    {E B : Type 0} (Q : B → Type 0) (b : Bool) (e : E) (rest : Result E B)
    → (b ≡ true → Ensures Q rest)
    → Ensures Q (guard b e >> rest)
Ensures-guard Q true e rest k = k refl
Ensures-guard Q false e rest k = tt

pub Ensures-if :
    {E A : Type 0} (P : A → Type 0) (b : Bool) (m n : Result E A)
    → (b ≡ true → Ensures P m)
    → (b ≡ false → Ensures P n)
    → Ensures P (if b then m else n)
Ensures-if P true m n h k = h refl
Ensures-if P false m n h k = k refl

pub Ensures-ok :
    {E A : Type 0} (P : A → Type 0) (m : Result E A) {a : A} → Ensures P m → m ≡ ok a → P a
Ensures-ok P m h e = subst (Ensures P) e h
