-- ===== src/Base/Decimal.antt =====
-- fmt's %d on an unsigned number, and what makes dotted keys of such numbers unambiguous.
use Prim.Native.Nat.{ℕ, zero, suc, ◌+◌, ◌-◌, ◌*◌, ◌/◌, ◌%◌, ◌≤◌, ◌<◌}
use mathlib.Core.Path.{◌≡◌, refl, ap, ◌∙◌, sym}
use mathlib.Core.List.{[], ◌∷◌, ◌++◌}
use native.Mathlib.Omega.{arith}
use gole.Base.Tests.{Bytes, ltb, if◌then◌else◌, Bool-cases}
use mathlib.Core.Logic.{inl, inr}
use gole.Base.Lists.{All}

itoa_loop : ℕ → ℕ → Bytes
itoa_loop zero n = (48 + n) ∷ []
itoa_loop (suc fuel) n =
    let more = itoa_loop fuel (n / 10) ++ ((48 + n % 10) ∷ []) in
    if ltb n 10 then (48 + n) ∷ [] else more

-- The digits of n; n rounds are enough, since n / 10 is below n.
unfoldable pub itoa : ℕ → Bytes
unfolding itoa_loop
itoa n = itoa_loop n n

abbrev pub IsDigit : ℕ → Type 0
IsDigit c = (48 ≤ c) × (c < 58)

value : ℕ → Bytes → ℕ
value acc [] = acc
value acc (c ∷ cs) = value (acc * 10 + (c - 48)) cs

value-snoc : (acc c : ℕ) (xs : Bytes) → value acc (xs ++ c ∷ []) ≡ value acc xs * 10 + (c - 48)
unfolding value
value-snoc acc c [] = refl
value-snoc acc c (x ∷ xs) = value-snoc (acc * 10 + (x - 48)) c xs

value-itoa_loop : (fuel n : ℕ) → n ≤ fuel → value 0 (itoa_loop fuel n) ≡ n
unfolding itoa_loop
value-itoa_loop zero n h = unfold value in omega arith
value-itoa_loop (suc fuel) n h = elim (Bool-cases (ltb n 10)) [
  | inl e ↦ rw e (unfold value in omega arith)
  | inr e ↦ rw e (
      value-snoc 0 (48 + n % 10) (itoa_loop fuel (n / 10))
      ∙ ground (arith, value-itoa_loop fuel (n / 10)))
]

All-snoc : (c : ℕ) (xs : Bytes) → IsDigit c → All IsDigit xs → All IsDigit (xs ++ c ∷ [])
All-snoc c [] h k = (h, tt)
All-snoc c (x ∷ xs) h k = (k.0, All-snoc c xs h k.1)

itoa_loop-digits : (fuel n : ℕ) → n ≤ fuel → All IsDigit (itoa_loop fuel n)
unfolding itoa_loop
itoa_loop-digits zero n h = omega arith
itoa_loop-digits (suc fuel) n h = elim (Bool-cases (ltb n 10)) [
  | inl e ↦ rw e (ground arith)
  | inr e ↦ rw e (
      All-snoc (48 + n % 10) (itoa_loop fuel (n / 10)) (omega arith)
        (itoa_loop-digits fuel (n / 10) (ground arith)))
]

pub itoa-digits : (n : ℕ) → All IsDigit (itoa n)
unfolding itoa
itoa-digits n = itoa_loop-digits n n (omega arith)

pub itoa-injective : (m n : ℕ) → itoa m ≡ itoa n → m ≡ n
unfolding itoa
itoa-injective m n e =
    sym (value-itoa_loop m m (omega arith)) ∙ ap (value 0) e ∙ value-itoa_loop n n (omega arith)

-- Two texts that begin with digits and go on with a dot agree in both parts.
pub dot_unique :
    (xs ys r s : Bytes)
    → All IsDigit xs
    → All IsDigit ys
    → xs ++ (46 ∷ r) ≡ ys ++ (46 ∷ s)
    → (xs ≡ ys) × (r ≡ s)
dot_unique [] [] r s h k e = ground arith
dot_unique [] (y ∷ ys) r s h k e = absurd (ground arith)
dot_unique (x ∷ xs) [] r s h k e = absurd (ground arith)
dot_unique (x ∷ xs) (y ∷ ys) r s h k e = ground (arith, dot_unique xs ys r s h.1 k.1)
