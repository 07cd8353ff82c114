-- ===== src/Base/Words.antt =====
-- encoding/binary's little-endian words, and what they carry.
use Prim.Native.Nat.{ℕ, zero, suc, ◌+◌, ◌*◌, ◌/◌, ◌%◌, ◌^◌, ◌<◌}
use mathlib.Core.Path.{◌≡◌, refl, ap}
use mathlib.Core.List.{[], ◌∷◌, ◌++◌}
use native.Mathlib.Omega.{arith}
use gole.Base.Tests.{Bytes}
use gole.Base.Lists.{length, All}

-- The low w bytes of n, lowest first.
unfoldable pub le_bytes : ℕ → ℕ → Bytes
le_bytes zero n = []
le_bytes (suc w) n = (n % 256) ∷ le_bytes w (n / 256)

unfoldable pub le_value : Bytes → ℕ
le_value [] = 0
le_value (b ∷ bs) = b + 256 * le_value bs

pub length-le_bytes : (w n : ℕ) → length (le_bytes w n) ≡ w
unfolding le_bytes
length-le_bytes zero n = refl
length-le_bytes (suc w) n = ap suc (length-le_bytes w (n / 256))

pub le_value-le_bytes : (w n : ℕ) → n < 256 ^ w → le_value (le_bytes w n) ≡ n
unfolding le_bytes le_value
le_value-le_bytes zero n h = ground arith
le_value-le_bytes (suc w) n h = ground (arith, le_value-le_bytes w (n / 256) (ground arith))

pub le_bytes-IsByte : (w n : ℕ) → All (λ b. b < 256) (le_bytes w n)
unfolding le_bytes
le_bytes-IsByte zero n = tt
le_bytes-IsByte (suc w) n = (omega arith, le_bytes-IsByte w (n / 256))

pub append_cancel :
    (xs ys r s : Bytes) → length xs ≡ length ys → xs ++ r ≡ ys ++ s → (xs ≡ ys) × (r ≡ s)
append_cancel [] [] r s h e = (refl, e)
append_cancel [] (y ∷ ys) r s h e = absurd (omega arith)
append_cancel (x ∷ xs) [] r s h e = absurd (omega arith)
append_cancel (x ∷ xs) (y ∷ ys) r s h e = ground (arith, append_cancel xs ys r s)
