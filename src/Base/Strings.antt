-- ===== src/Base/Strings.antt =====
-- The functions of the package strings that the source uses, on bytes.
use Prim.Native.Nat.{ℕ, ◌+◌}
use mathlib.Core.Path.{◌≡◌, refl, ap, ◌∙◌}
use mathlib.Core.Bool.{Bool, true, false, ◌&&◌}
use mathlib.Core.Logic.{inl, inr}
use mathlib.Core.List.{List, [], ◌∷◌, ◌++◌}
use native.Mathlib.Omega.{arith}
use gole.Base.Tests.{Bytes, nat_beq, nat_eq, leb, ◌==◌, if◌then◌else◌, Bool-cases}

-- strings.HasPrefix
unfoldable pub has_prefix : Bytes → Bytes → Bool
has_prefix s [] = true
has_prefix [] (p ∷ ps) = false
has_prefix (b ∷ s) (p ∷ ps) = nat_beq b p && has_prefix s ps

-- strings.ToLower on ASCII
unfoldable pub to_lower : Bytes → Bytes
to_lower [] = []
to_lower (c ∷ cs) = (if leb 65 c && leb c 90 then c + 32 else c) ∷ to_lower cs

-- strings.SplitN(s, sep, 2): the parts before and after the first separator
unfoldable pub split_first : ℕ → Bytes → Bytes × List Bytes
split_first sep [] = ([], [])
split_first sep (c ∷ cs) =
    let (before, after) = split_first sep cs in
    if c == sep then ([], cs ∷ []) else (c ∷ before, after)

-- strings.Split(s, sep), the first part apart
unfoldable pub split : ℕ → Bytes → Bytes × List Bytes
split sep [] = ([], [])
split sep (c ∷ cs) =
    let (first, others) = split sep cs in
    if c == sep then ([], first ∷ others) else (c ∷ first, others)

unfoldable pub join : ℕ → Bytes → List Bytes → Bytes
join sep first [] = first
join sep first (p ∷ ps) = first ++ (sep ∷ join sep p ps)

pub join-split : (sep : ℕ) (s : Bytes) → join sep (split sep s).0 (split sep s).1 ≡ s
unfolding split join
join-split sep [] = refl
join-split sep (c ∷ cs) = elim (Bool-cases (nat_beq c sep)) [
  | inl b ↦ rw b (ap (◌∷◌ sep) (join-split sep cs) ∙ ap (λ z. z ∷ cs) (ground (arith, b)))
  | inr b ↦
      rw b (join_front c sep (split sep cs).0 (split sep cs).1 ∙ ap (◌∷◌ c) (join-split sep cs))
]
  where
    join_front :
        (c sep : ℕ) (first : Bytes) (ps : List Bytes)
        → join sep (c ∷ first) ps ≡ c ∷ join sep first ps
    join_front c sep first [] = refl
    join_front c sep first (p ∷ ps) = refl
