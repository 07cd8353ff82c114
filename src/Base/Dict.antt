-- ===== src/Base/Dict.antt =====
-- The source's maps, as association lists. Go leaves the order of a map's entries open: the
-- theorems hold for whatever order the list has.
use Prim.Native.Nat.{◌+◌}
use mathlib.Core.Path.{◌≡◌, refl}
use mathlib.Core.List.{List, [], ◌∷◌}
use mathlib.Core.Option.{Option, none, some}
use native.Mathlib.Omega.{arith}
use mathlib.Core.Logic.{inl, inr}
use gole.Base.Tests.{Option-cases, Eq, ◌==◌, if◌then◌else◌}
use gole.Base.Lists.{length}

abbrev pub Dict : Type 0 → Type 0 → Type 0
Dict K V = List (K × V)

module _ {K V : Type 0} ⦃e : Eq K⦄ where
  -- v, ok := m[k]
  unfoldable pub lookup : K → Dict K V → Option V
  lookup k [] = none
  lookup k ((j, v) ∷ m) = if j == k then some v else lookup k m

  -- m[k] = v
  unfoldable pub insert : K → V → Dict K V → Dict K V
  insert key new [] = (key, new) ∷ []
  insert key new ((j, old) ∷ m) =
      let rest = insert key new m in if j == key then (key, new) ∷ m else (j, old) ∷ rest

  -- delete(m, k)
  unfoldable pub delete : K → Dict K V → Dict K V
  delete k [] = []
  delete k ((j, v) ∷ m) = let rest = delete k m in if j == k then rest else (j, v) ∷ rest

  pub lookup-insert :
      (key other : K) (new : V) (m : Dict K V)
      → lookup other (insert key new m) ≡ (if key == other then some new else lookup other m)
  unfolding lookup insert
  lookup-insert key other new ((i, old) ∷ m) = ground (
    arith,
    lookup-insert key other new m,
    e.test_iff i key,
    e.test_iff i other,
    e.test_iff key other,
  )
  lookup-insert key other new [] = refl

  pub lookup-delete :
      (k j : K) (m : Dict K V) → lookup j (delete k m) ≡ (if k == j then none else lookup j m)
  unfolding lookup delete
  lookup-delete k j [] = ground arith
  lookup-delete k j ((i, w) ∷ m) =
      ground (arith, e.test_iff k j, e.test_iff i k, e.test_iff i j, lookup-delete k j m)

  pub length-insert :
      (k : K) (v : V) (m : Dict K V) → lookup k m ≡ none → length (insert k v m) ≡ length m + 1
  unfolding lookup insert
  length-insert k v [] h = omega arith
  length-insert k v ((i, w) ∷ m) h = ground (arith, length-insert k v m)

  pub length-insert_old :
      (k : K) (v w : V) (m : Dict K V) → lookup k m ≡ some w → length (insert k v m) ≡ length m
  unfolding lookup insert
  length-insert_old k v w [] h = ground arith
  length-insert_old k v w ((i, u) ∷ m) h = ground (arith, length-insert_old k v w m)

  pub lookup-insert_self : (k : K) (v : V) (m : Dict K V) → lookup k (insert k v m) ≡ some v
  lookup-insert_self k v m = ground (arith, lookup-insert k k v m, e.test_iff k k)

  -- No key stands twice.
  abbrev pub UniqueKeys : Dict K V → Type 0
  UniqueKeys [] = Unit {0}
  UniqueKeys ((k, v) ∷ m) = (lookup k m ≡ none) × UniqueKeys m

  pub insert-UniqueKeys : (k : K) (v : V) (m : Dict K V) → UniqueKeys m → UniqueKeys (insert k v m)
  unfolding lookup insert
  insert-UniqueKeys k v [] u = (refl, tt)
  insert-UniqueKeys k v ((j, w) ∷ m) u =
      ground
        (arith, e.test_iff j k, e.test_iff k j, lookup-insert k j v m, insert-UniqueKeys k v m u.1)

  -- A loop over a map that returns at the first entry with a result.
  unfoldable pub first_match : {A : Type 0} → (V → Option A) → Dict K V → Option A
  first_match f [] = none
  first_match f ((k, v) ∷ m) =
      let rest = first_match f m in elim (f v) [ none ↦ rest | some a ↦ some a ]

  pub first_match-some :
      {A : Type 0} (f : V → Option A) (m : Dict K V) {a : A}
      → UniqueKeys m
      → first_match f m ≡ some a
      → (k : K) × (v : V) × (lookup k m ≡ some v) × (f v ≡ some a)
  unfolding lookup first_match
  first_match-some f [] u h = absurd (ground arith)
  first_match-some f ((k, v) ∷ m) u h = elim (Option-cases (f v)) [
    | inl q ↦
        let (j, w, l, r) = first_match-some f m u.1 (ground arith) in
        (j, w, ground (arith, e.test_iff k j, u.0), r)
    | inr (b, q) ↦ (k, v, ground (arith, e.test_iff k k), ground arith)
  ]

  pub first_match-none :
      {A : Type 0} (f : V → Option A) (m : Dict K V) (k : K) (v : V)
      → first_match f m ≡ none
      → lookup k m ≡ some v
      → f v ≡ none
  unfolding lookup first_match
  first_match-none f [] k v h l = absurd (ground arith)
  first_match-none f ((j, w) ∷ m) k v h l = elim (Option-cases (f w)) [
    | inl q ↦ ground (arith, first_match-none f m k v)
    | inr (b, q) ↦ absurd (ground arith)
  ]
