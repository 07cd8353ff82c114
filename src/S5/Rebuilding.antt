-- ===== src/S5/Rebuilding.antt =====
-- s5/s5.go: a message that has the length of a request is one.
use gole.Base.{
  ℕ, zero, suc, ◌+◌, ◌-◌, ◌*◌, ◌/◌, ◌%◌, ◌≤◌, ◌<◌, ◌≡◌, refl, ◌∙◌, sym, ap, subst, inl, inr, List,
  [], ◌∷◌, ◌++◌, arith, Bytes, length, length-append, concat, take, drop, take-append-drop,
  length-take, All, leb, ltb, Bool-cases, nat_eq, nat_beq,
}
use mathlib.Core.List.{append_assoc}
use gole.Base.Result.{Result, ok, err}
use gole.S5.Stream.{IoError, read_more, byte_at}
use gole.S5.Server.{request_length}
use gole.S5.Requests.{Target, ip4, ip6, name, IsTarget, request}

ok_inj :
    {a b : Bytes × List Bytes} → ◌≡◌ {A = Result IoError (Bytes × List Bytes)} (ok a) (ok b) → a ≡ b
ok_inj {a} h = ap (λ m. elim m [ ok x ↦ x | err x ↦ a ]) h

-- What a read took, and what it left
abbrev Took : ℕ → ℕ → Bytes → Bytes → Bytes × List Bytes → Type 0
Took room min got arriving r =
    (got ++ arriving ≡ r.0 ++ concat r.1) × (min ≤ length r.0) × (length r.0 ≤ length got + room)

-- A read takes a prefix of what arrives.
pub read_more_sound :
    (room min : ℕ) (e : IoError) (got : Bytes) (cs : List Bytes) {r : Bytes × List Bytes}
    → read_more room min e got cs ≡ ok r
    → min ≤ length got + room
    → Took room min got (concat cs) r
unfolding read_more concat
read_more_sound room min e got [] {r} h fit = elim (Bool-cases (leb min (length got))) [
  | inl b ↦
      let now : read_more room min e got [] ≡ ok (got, []) = rw b refl in
      subst (Took room min got []) (ok_inj (sym now ∙ h)) (refl, ground (arith, b), omega arith)
  | inr b ↦ absurd (ground (arith, b, h))
]
read_more_sound room min e got (c ∷ cs) {r} h fit = elim (Bool-cases (leb min (length got))) [
  | inl b ↦
      let now : read_more room min e got (c ∷ cs) ≡ ok (got, c ∷ cs) = rw b refl in
      subst (Took room min got (c ++ concat cs)) (ok_inj (sym now ∙ h))
        (refl, ground (arith, b), omega arith)
  | inr b ↦ elim (Bool-cases (ltb room (length c))) [
    | inl d ↦
        let now : read_more room min e got (c ∷ cs) ≡ ok (got ++ take room c, drop room c ∷ cs) =
          rw (b, d) refl in
        let full : length (take room c) ≡ room = length-take room c (ground (arith, d)) in
        let size : length (got ++ take room c) ≡ length got + room =
          length-append got (take room c) ∙ omega (arith, full) in
        let split : got ++ (c ++ concat cs) ≡ (got ++ take room c) ++ (drop room c ++ concat cs) =
          ap (λ z. got ++ (z ++ concat cs)) (sym (take-append-drop room c))
          ∙ (ap (λ z. got ++ z) (append_assoc (take room c) (drop room c) (concat cs))
              ∙ sym (append_assoc got (take room c) (drop room c ++ concat cs))) in
        subst (Took room min got (c ++ concat cs)) (ok_inj (sym now ∙ h))
          (split, omega (arith, size, fit), omega (arith, size))
    | inr d ↦
        let now : read_more room min e got (c ∷ cs)
            ≡ read_more (room - length c) min e (got ++ c) cs =
          rw (b, d) refl in
        let fits : length c ≤ room = ground (arith, d) in
        let more : length (got ++ c) ≡ length got + length c = length-append got c in
        let (whole, low, high) =
          read_more_sound (room - length c) min e (got ++ c) cs (sym now ∙ h)
            (omega (arith, fit, fits, more)) in
        (sym (append_assoc got c (concat cs)) ∙ whole, low, omega (arith, high, fits, more))
  ]
]

-- A tail of an address and a port
tail_split :
    (m : ℕ) (tail : Bytes)
    → length tail ≡ m + 2
    → All (λ b. b < 256) tail
    → (a : Bytes) × (p : ℕ) × (length a ≡ m) × (p < 65536) × (tail ≡ a ++ (p / 256 ∷ p % 256 ∷ []))
tail_split zero [] h k = absurd (omega (arith, h))
tail_split zero (x ∷ []) h k = absurd (omega (arith, h))
tail_split zero (x ∷ y ∷ []) h k = (
  [],
  x * 256 + y,
  refl,
  omega (arith, k.0, k.1.0),
  ap (λ z. z ∷ y ∷ []) {x = x} {y = (x * 256 + y) / 256} (omega (arith, k.1.0))
      ∙ ap (λ z. (x * 256 + y) / 256 ∷ z ∷ []) {x = y} {y = (x * 256 + y) % 256}
          (omega (arith, k.1.0)),
)
tail_split zero (x ∷ y ∷ z ∷ tail) h k = absurd (omega (arith, h))
tail_split (suc m) [] h k = absurd (omega (arith, h))
tail_split (suc m) (x ∷ tail) h k =
    let (a, p, len, small, e) = tail_split m tail (omega (arith, h)) k.1 in
    (x ∷ a, p, omega (arith, len), small, ap (◌∷◌ x) e)

-- A message whose length is that of a request is one.
abbrev IsRequest : Bytes → Type 0
IsRequest msg =
    (reserved : ℕ) × (t : Target) × (port : ℕ) × IsTarget t
    × (port < 65536)
    × (msg ≡ request reserved t port)

byte_at-IsByte : (i : ℕ) (xs : Bytes) → All (λ b. b < 256) xs → byte_at i xs < 256
unfolding byte_at
byte_at-IsByte i [] h = omega arith
byte_at-IsByte zero (x ∷ xs) h = h.0
byte_at-IsByte (suc i) (x ∷ xs) h = byte_at-IsByte i xs h.1

same_front :
    {v c r kind kind' : ℕ} {tail tail' : Bytes}
    → v ≡ 5
    → c ≡ 1
    → kind ≡ kind'
    → tail ≡ tail'
    → ◌≡◌ {A = Bytes} (v ∷ c ∷ r ∷ kind ∷ tail) (5 ∷ 1 ∷ r ∷ kind' ∷ tail')
same_front e f g h = cc

rebuild_name :
    (v0 c0 r kind : ℕ) (tail : Bytes)
    → All (λ b. b < 256) tail
    → v0 ≡ 5
    → c0 ≡ 1
    → kind ≡ 3
    → length tail ≡ byte_at 0 tail + 3
    → IsRequest (v0 ∷ c0 ∷ r ∷ kind ∷ tail)
unfolding byte_at
rebuild_name v0 c0 r kind [] k v c f h = absurd (omega (arith, h))
rebuild_name v0 c0 r kind (l ∷ tail) k v c f h =
    let (a, p, len, small, e) = tail_split l tail (omega (arith, h)) k.1 in
    let more : l ∷ tail ≡ length a ∷ (a ++ (p / 256 ∷ p % 256 ∷ [])) = rw (e, len) refl in
    (r, name a, p, omega (arith, len, k.0), small, same_front v c f more)

-- A message that has the length of its kind of address is a request.
pub rebuild :
    (msg : Bytes)
    → All (λ b. b < 256) msg
    → byte_at 0 msg ≡ 5
    → byte_at 1 msg ≡ 1
    → request_length msg ≡ ok (length msg)
    → IsRequest msg
unfolding byte_at request_length
rebuild [] k v c h = absurd cc
rebuild (v0 ∷ []) k v c h = absurd cc
rebuild (v0 ∷ c0 ∷ []) k v c h = absurd cc
rebuild (v0 ∷ c0 ∷ r ∷ []) k v c h = absurd cc
rebuild (v0 ∷ c0 ∷ r ∷ kind ∷ tail) k v c h = elim (Bool-cases (nat_beq kind 1)) [
  | inl b ↦
      let n : length tail ≡ 4 + 2 = ground (arith, b, h) in
      let (a, p, len, small, e) = tail_split 4 tail n k.1.1.1.1 in
      (r, ip4 a, p, len, small, same_front v c (ground (arith, b)) e)
  | inr b ↦ elim (Bool-cases (nat_beq kind 4)) [
    | inl d ↦
        let n : length tail ≡ 16 + 2 = ground (arith, b, d, h) in
        let (a, p, len, small, e) = tail_split 16 tail n k.1.1.1.1 in
        (r, ip6 a, p, len, small, same_front v c (ground (arith, d)) e)
    | inr d ↦ elim (Bool-cases (nat_beq kind 3)) [
      | inl f ↦
          rebuild_name v0 c0 r kind tail k.1.1.1.1 v c (ground (arith, f))
            (ground (arith, b, d, f, h))
      | inr f ↦ absurd (ground (arith, b, d, f, h))
    ]
  ]
]
