-- ===== src/Swarm/Discovery/Ranking.antt =====
-- swarm/discovery.go: what bestRelay finds, and when SelectTransport goes through a relay.
use gole.Base.{
  ◌≡◌, refl, ◌↔◌, inl, inr, sym, ap, subst, Bool, true, false, Option, none, some, List, [], ◌∷◌,
  arith, All, some_inj, Bool-cases, Option-cases, nat_eq,
}
use gole.Base.Int.{pos, ltℤ}
use gole.Swarm.Types.Transport.{RelayInfo}
use gole.Swarm.Discovery.Sorting.{In, IsWeakOrder, IsRanked, SortLaws}
use gole.Swarm.Discovery.Select.{rank_less, first_probed, head_of, rank_relays, best_relay}

pub rank_less-IsWeakOrder : IsWeakOrder rank_less
unfolding rank_less
rank_less-IsWeakOrder = record {
  irreflexive = λ a. ground arith;
  asymmetric = λ a b h. ground (arith, h);
  incomparable_trans = λ a b c h k. ground (arith, h, k);
}

-- A latency that a probe has measured
abbrev pub IsProbed : RelayInfo → Type 0
IsProbed r = ltℤ (pos 0) r.latency ≡ true

-- r is in the list, and has the least of the latencies that have been measured, if any has.
pub record IsBest (relays : List RelayInfo) (r : RelayInfo) : Type 0 where
  pub listed : In r relays
  pub fastest :
      (x : RelayInfo) → In x relays → IsProbed x → IsProbed r × (ltℤ x.latency r.latency ≡ false)

All-In : (P : RelayInfo → Type 0) (x : RelayInfo) (xs : List RelayInfo) → All P xs → In x xs → P x
All-In P x [] a i = elim i [ ]
All-In P x (y ∷ ys) a (inl e) = subst P (sym e) a.0
All-In P x (y ∷ ys) a (inr i) = All-In P x ys a.1 i

first_probed-none :
    (xs : List RelayInfo) (x : RelayInfo)
    → first_probed xs ≡ none
    → In x xs
    → ltℤ (pos 0) x.latency ≡ false
unfolding first_probed
first_probed-none [] x h i = elim i [ ]
first_probed-none (y ∷ ys) x h i = elim (Bool-cases (ltℤ (pos 0) y.latency)) [
  | inl b ↦ absurd (ground (arith, b, h))
  | inr b ↦ elim i [
    | inl e ↦ subst (λ z. ltℤ (pos 0) z.latency ≡ false) (sym e) b
    | inr j ↦ first_probed-none ys x (ground (arith, b, h)) j
  ]
]

ranked_below :
    (x y : RelayInfo)
    → rank_less y x ≡ false
    → IsProbed x
    → IsProbed y
    → ltℤ y.latency x.latency ≡ false
unfolding rank_less
ranked_below x y h p q = ground (arith, h, p, q)

first_probed-IsBest :
    (xs : List RelayInfo) (r : RelayInfo)
    → IsRanked rank_less xs
    → first_probed xs ≡ some r
    → IsBest xs r
unfolding first_probed
first_probed-IsBest [] r o h = absurd (ground (arith, h))
first_probed-IsBest (y ∷ ys) r o h = elim (Bool-cases (ltℤ (pos 0) y.latency)) [
  | inl b ↦
      let e : y ≡ r = some_inj (ground (arith, b, h)) in
      subst (IsBest (y ∷ ys)) e (record {
        listed = inl refl;
        fastest = λ x i p. elim i [
          | inl s ↦ (b, ground (arith, ap (λ z. z.latency) s))
          | inr j ↦ (b, ranked_below y x (All-In (λ z. rank_less z y ≡ false) x ys o.0 j) b p)
        ];
      })
  | inr b ↦
      let rest = first_probed-IsBest ys r o.1 (ground (arith, b, h)) in
      record {
        listed = inr rest.listed;
        fastest = λ x i p. elim i [
          | inl s ↦ absurd (ground (arith, b, p, ap (λ z. z.latency) s))
          | inr j ↦ rest.fastest x j p
        ];
      }
]

head_of-IsBest :
    (xs : List RelayInfo) (r : RelayInfo)
    → first_probed xs ≡ none
    → head_of xs ≡ some r
    → IsBest xs r
unfolding head_of
head_of-IsBest [] r n h = absurd (ground (arith, h))
head_of-IsBest (y ∷ ys) r n h = record {
  listed = inl (sym (some_inj h));
  fastest = λ x i p. absurd (ground (arith, p, first_probed-none (y ∷ ys) x n i));
}

-- bestRelay on the ranked list
best_of : List RelayInfo → Option RelayInfo
best_of xs = elim (first_probed xs) [ some r ↦ some r | none ↦ head_of xs ]

best_of-none : (xs : List RelayInfo) → best_of xs ≡ none → xs ≡ []
unfolding best_of head_of
best_of-none [] h = refl
best_of-none (y ∷ ys) h = elim (Option-cases (first_probed (y ∷ ys))) [
  | inl q ↦ absurd (ground (arith, q, h))
  | inr (r, q) ↦ absurd (ground (arith, q, h))
]

best_of-IsBest :
    (xs : List RelayInfo) (r : RelayInfo)
    → IsRanked rank_less xs
    → best_of xs ≡ some r
    → IsBest xs r
unfolding best_of
best_of-IsBest xs r o h = elim (Option-cases (first_probed xs)) [
  | inl q ↦ head_of-IsBest xs r q (ground (arith, q, h))
  | inr (x, q) ↦ first_probed-IsBest xs r o (ground (arith, q, h))
]

no_element : (xs : List RelayInfo) → ((x : RelayInfo) → ¬ In x xs) → xs ≡ []
no_element [] h = refl
no_element (x ∷ xs) h = absurd (h x (inl refl))

module _ (sort_slice : (RelayInfo → RelayInfo → Bool) → List RelayInfo → List RelayInfo)
    (laws : SortLaws sort_slice) where
  unranked :
      (relays : List RelayInfo) (r : RelayInfo)
      → IsBest (rank_relays sort_slice relays) r
      → IsBest relays r
  unfolding rank_relays
  unranked relays r b = record {
    listed = (laws.same_elements rank_less r relays).0 b.listed;
    fastest = λ x i p. b.fastest x ((laws.same_elements rank_less x relays).1 i) p;
  }

  -- With any sort that meets the contract of sort.Slice, bestRelay returns a relay of the list, of
  -- the least latency among those measured wherever one is, and none exactly for an empty list.
  pub best_relay-IsBest :
      (relays : List RelayInfo)
      → ((best_relay sort_slice relays ≡ none) ↔ (relays ≡ []))
        × ((r : RelayInfo) → best_relay sort_slice relays ≡ some r → IsBest relays r)
  unfolding best_relay rank_relays best_of first_probed head_of
  best_relay-IsBest relays = (
    (
      λ h.
          let e = best_of-none (sort_slice rank_less relays) h in
          no_element relays (λ x i. subst (In x) e ((laws.same_elements rank_less x relays).1 i)),
      λ h.
          let e =
            no_element (sort_slice rank_less relays)
              (λ x i. subst (In x) h ((laws.same_elements rank_less x relays).0 i)) in
          ap best_of e,
    ),
    λ r h. unranked relays r (
        best_of-IsBest (sort_slice rank_less relays) r
          (laws.ranked rank_less relays rank_less-IsWeakOrder) h),
  )
