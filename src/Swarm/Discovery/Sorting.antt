-- ===== src/Swarm/Discovery/Sorting.antt =====
-- The contract of sort.Slice that swarm/discovery.go relies on, and a sort that meets it.
use gole.Base.{
  ◌≡◌, ◌↔◌, ◌⊎◌, inl, inr, Bool, true, false, List, [], ◌∷◌, All, Bool-cases, if◌then◌else◌,
}
use gole.Swarm.Types.Transport.{RelayInfo}

abbrev pub In : RelayInfo → List RelayInfo → Type 0
In x [] = ⊥
In x (y ∷ ys) = (x ≡ y) ⊎ In x ys

-- What sort.Slice asks of its order: a strict weak order.
pub record IsWeakOrder (less : RelayInfo → RelayInfo → Bool) : Type 0 where
  pub irreflexive : (a : RelayInfo) → less a a ≡ false
  pub asymmetric : (a b : RelayInfo) → less a b ≡ true → less b a ≡ false
  pub incomparable_trans :
      (a b c : RelayInfo) → less b a ≡ false → less c b ≡ false → less c a ≡ false

-- Nothing later in the list comes before anything earlier.
abbrev pub IsRanked : (RelayInfo → RelayInfo → Bool) → List RelayInfo → Type 0
IsRanked less [] = Unit
IsRanked less (x ∷ xs) = All (λ y. less y x ≡ false) xs × IsRanked less xs

pub record SortLaws (sort : (RelayInfo → RelayInfo → Bool) → List RelayInfo → List RelayInfo)
    : Type 0 where
  pub same_elements :
      (less : RelayInfo → RelayInfo → Bool) (x : RelayInfo) (xs : List RelayInfo)
      → In x (sort less xs) ↔ In x xs
  pub ranked :
      (less : RelayInfo → RelayInfo → Bool) (xs : List RelayInfo)
      → IsWeakOrder less
      → IsRanked less (sort less xs)

unfoldable pub put : (RelayInfo → RelayInfo → Bool) → RelayInfo → List RelayInfo → List RelayInfo
put less x [] = x ∷ []
put less x (y ∷ ys) = let rest = put less x ys in if less y x then y ∷ rest else x ∷ y ∷ ys

unfoldable pub insertion_sort : (RelayInfo → RelayInfo → Bool) → List RelayInfo → List RelayInfo
insertion_sort less [] = []
insertion_sort less (x ∷ xs) = put less x (insertion_sort less xs)

put-In :
    (less : RelayInfo → RelayInfo → Bool) (a x : RelayInfo) (xs : List RelayInfo)
    → In a (put less x xs) ↔ ((a ≡ x) ⊎ In a xs)
unfolding put
put-In less a x [] = ((λ h. h), (λ h. h))
put-In less a x (y ∷ ys) =
    let (there, back) = put-In less a x ys in
    elim (Bool-cases (less y x)) [
      | inl b ↦ rw b (
        λ h. elim h [
          | inl e ↦ inr (inl e)
          | inr i ↦ elim (there i) [ inl e ↦ inl e | inr j ↦ inr (inr j) ]
        ],
        λ h. elim h [
          | inl e ↦ inr (back (inl e))
          | inr i ↦ elim i [ inl e ↦ inl e | inr j ↦ inr (back (inr j)) ]
        ],
      )
      | inr b ↦ rw b ((λ h. h), (λ h. h))
    ]

insertion_sort-In :
    (less : RelayInfo → RelayInfo → Bool) (a : RelayInfo) (xs : List RelayInfo)
    → In a (insertion_sort less xs) ↔ In a xs
unfolding insertion_sort
insertion_sort-In less a [] = ((λ h. h), (λ h. h))
insertion_sort-In less a (x ∷ xs) =
    let (there, back) = put-In less a x (insertion_sort less xs) in
    let (down, up) = insertion_sort-In less a xs in
    (
      λ h. elim (there h) [ inl e ↦ inl e | inr i ↦ inr (down i) ],
      λ h. elim h [ inl e ↦ back (inl e) | inr i ↦ back (inr (up i)) ],
    )

All-put :
    (P : RelayInfo → Type 0) (less : RelayInfo → RelayInfo → Bool) (x : RelayInfo)
    (xs : List RelayInfo)
    → P x
    → All P xs
    → All P (put less x xs)
unfolding put
All-put P less x [] p a = (p, tt)
All-put P less x (y ∷ ys) p a = elim (Bool-cases (less y x)) [
  | inl b ↦ rw b (a.0, All-put P less x ys p a.1)
  | inr b ↦ rw b (p, a)
]

All-below :
    (less : RelayInfo → RelayInfo → Bool) (x y : RelayInfo) (ys : List RelayInfo)
    → IsWeakOrder less
    → less y x ≡ false
    → All (λ z. less z y ≡ false) ys
    → All (λ z. less z x ≡ false) ys
All-below less x y [] o h a = tt
All-below less x y (z ∷ zs) o h a =
    (o.incomparable_trans x y z h a.0, All-below less x y zs o h a.1)

put-IsRanked :
    (less : RelayInfo → RelayInfo → Bool) (x : RelayInfo) (xs : List RelayInfo)
    → IsWeakOrder less
    → IsRanked less xs
    → IsRanked less (put less x xs)
unfolding put
put-IsRanked less x [] o r = (tt, tt)
put-IsRanked less x (y ∷ ys) o r = elim (Bool-cases (less y x)) [
  | inl b ↦ rw b (
    All-put (λ z. less z y ≡ false) less x ys (o.asymmetric y x b) r.0,
    put-IsRanked less x ys o r.1,
  )
  | inr b ↦ rw b ((b, All-below less x y ys o b r.0), r)
]

insertion_sort-IsRanked :
    (less : RelayInfo → RelayInfo → Bool) (xs : List RelayInfo)
    → IsWeakOrder less
    → IsRanked less (insertion_sort less xs)
unfolding insertion_sort
insertion_sort-IsRanked less [] o = tt
insertion_sort-IsRanked less (x ∷ xs) o =
    put-IsRanked less x (insertion_sort less xs) o (insertion_sort-IsRanked less xs o)

pub insertion_sort-SortLaws : SortLaws insertion_sort
insertion_sort-SortLaws = record {
  same_elements = insertion_sort-In;
  ranked = insertion_sort-IsRanked;
}
