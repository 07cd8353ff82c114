-- ===== src/S5/Conns.antt =====
-- s5/s5.go: what the deferred loop of HandleConnection leaves in Conns.
use gole.Base.{
  ℕ, zero, suc, ◌+◌, ◌-◌, ◌≡◌, ◌≢◌, refl, ◌∙◌, sym, ap, true, false, List, [], ◌∷◌, ◌++◌, arith,
  length, length-append, take, take-append, drop, length-drop, All, nat_beq, nat_eq,
}
use mathlib.Core.List.{append_assoc, append-nil}
use gole.S5.Stream.{byte_at}
use gole.S5.Reading.{byte_at-after}
use gole.S5.Proxy.{shift_down, leave_loop, leave}

-- conn is not among them.
abbrev pub IsAbsent : ℕ → List ℕ → Type 0
IsAbsent conn xs = All (λ x. x ≢ conn) xs

IsAbsent-append :
    (conn : ℕ) (a b : List ℕ) → IsAbsent conn a → IsAbsent conn b → IsAbsent conn (a ++ b)
IsAbsent-append conn [] b h k = k
IsAbsent-append conn (x ∷ a) b h k = (h.0, IsAbsent-append conn a b h.1 k)

differs : (x conn : ℕ) → x ≢ conn → nat_beq x conn ≡ false
differs x conn h = ground (arith, h)

miss :
    (conn rounds i n x : ℕ) (array : List ℕ)
    → byte_at i array ≡ x
    → x ≢ conn
    → leave_loop (suc rounds) i conn array n ≡ leave_loop rounds (i + 1) conn array n
unfolding leave_loop
miss conn rounds i n x array e d = rw (e, differs x conn d) refl

place : (before rest : List ℕ) (x : ℕ) → byte_at (length before) (before ++ (x ∷ rest)) ≡ x
unfolding byte_at
place before rest x =
    ap (λ z. byte_at z (before ++ (x ∷ rest))) {x = length before} {y = length before + 0}
      (omega arith)
    ∙ byte_at-after 0 before (x ∷ rest)

-- The loop goes past other connections.
leave_loop-IsAbsent :
    (conn rounds n : ℕ) (before a after : List ℕ)
    → IsAbsent conn a
    → leave_loop (length a + rounds) (length before) conn (before ++ (a ++ after)) n
      ≡ leave_loop rounds (length (before ++ a)) conn (before ++ (a ++ after)) n
leave_loop-IsAbsent conn rounds n before [] after h =
    ap (λ z. leave_loop z (length before) conn (before ++ after) n) {x = 0 + rounds} {y = rounds}
      (omega arith)
    ∙ ap (λ z. leave_loop rounds (length z) conn (before ++ after) n) (sym (append-nil before))
leave_loop-IsAbsent conn rounds n before (x ∷ a) after h =
    let array : List ℕ = before ++ (x ∷ (a ++ after)) in
    let next : List ℕ = before ++ (x ∷ []) in
    let same : next ++ (a ++ after) ≡ array = append_assoc before (x ∷ []) (a ++ after) in
    let count : length next ≡ length before + 1 = length-append before (x ∷ []) in
    ap (λ z. leave_loop z (length before) conn array n) {x = suc (length a) + rounds}
      {y = suc (length a + rounds)} (omega arith)
    ∙ (miss conn (length a + rounds) (length before) n x array (place before (a ++ after) x) h.0
        ∙ (ap (λ z. leave_loop (length a + rounds) z conn array n) (sym count)
            ∙ (ap (λ z. leave_loop (length a + rounds) (length next) conn z n) (sym same)
                ∙ (leave_loop-IsAbsent conn rounds n next a after h.1
                    ∙ (ap (λ z. leave_loop rounds (length z) conn (next ++ (a ++ after)) n)
                          (append_assoc before (x ∷ []) a)
                        ∙ ap (λ z. leave_loop rounds (length (before ++ (x ∷ a))) conn z n)
                            same)))))

hit :
    (conn rounds i n : ℕ) (array : List ℕ)
    → byte_at i array ≡ conn
    → leave_loop (suc rounds) i conn array n
      ≡ leave_loop rounds (i + 1) conn (shift_down i n array) (n - 1)
unfolding leave_loop
hit conn rounds i n array e =
    let yes : nat_beq (byte_at i array) conn ≡ true = ground (arith, e) in rw yes refl

drop-after : (k : ℕ) (a c : List ℕ) → drop (length a + k) (a ++ c) ≡ drop k c
drop-after k [] c = ap (λ z. drop z c) {x = 0 + k} {y = k} (omega arith)
drop-after k (x ∷ a) c =
    ap (λ z. drop z (x ∷ (a ++ c))) {x = suc (length a) + k} {y = suc (length a + k)} (omega arith)
    ∙ drop-after k a c

take-all : (xs : List ℕ) → take (length xs) xs ≡ xs
take-all xs = ap (take (length xs)) (sym (append-nil xs)) ∙ take-append xs []

-- The array after the connection between a and b has been removed
shift_down_lem :
    (conn : ℕ) (a b : List ℕ)
    → shift_down (length a) (length (a ++ (conn ∷ b))) (a ++ (conn ∷ b))
      ≡ a ++ (b ++ drop (length b) (conn ∷ b))
unfolding shift_down
shift_down_lem conn a b =
    let array : List ℕ = a ++ (conn ∷ b) in
    let n : length array ≡ length a + suc (length b) = length-append a (conn ∷ b) in
    let middle : drop (length a + 1) array ≡ b = drop-after 1 a (conn ∷ b) in
    let size : length array - (length a + 1) ≡ length b = omega (arith, n) in
    let inner : take (length array - (length a + 1)) (drop (length a + 1) array) ≡ b =
      ap (λ z. take (length array - (length a + 1)) z) middle
      ∙ (ap (λ z. take z b) size ∙ take-all b) in
    let end : drop (length array - 1) array ≡ drop (length b) (conn ∷ b) =
      ap (λ z. drop z array) {x = length array - 1} {y = length a + length b} (omega (arith, n))
      ∙ drop-after (length b) a (conn ∷ b) in
    ap
      (λ z.
        z
        ++ (take (length array - (length a + 1)) (drop (length a + 1) array)
            ++ drop (length array - 1) array))
      (take-append a (conn ∷ b))
    ∙ (ap (λ z. a ++ (z ++ drop (length array - 1) array)) inner ∙ ap (λ z. a ++ (b ++ z)) end)

IsAbsent-drop : (conn k : ℕ) (xs : List ℕ) → IsAbsent conn xs → IsAbsent conn (drop k xs)
IsAbsent-drop conn zero xs h = h
IsAbsent-drop conn (suc k) [] h = h
IsAbsent-drop conn (suc k) (x ∷ xs) h = IsAbsent-drop conn k xs h.1

-- After the hit the loop finds nothing more.
rest_absent :
    (conn n : ℕ) (a b : List ℕ)
    → IsAbsent conn b
    → leave_loop (length b) (length a + 1) conn (a ++ (b ++ drop (length b) (conn ∷ b))) n
      ≡ (a ++ (b ++ drop (length b) (conn ∷ b)), n)
unfolding leave_loop
rest_absent conn n a [] h = refl
rest_absent conn n a (y ∷ b) h =
    let last : List ℕ = drop (length b) (y ∷ b) in
    let one : length last ≡ 1 = length-drop (length b) (y ∷ b) ∙ omega arith in
    let before : List ℕ = a ++ (y ∷ []) in
    let same : before ++ ((b ++ last) ++ []) ≡ a ++ (y ∷ (b ++ last)) =
      ap (λ z. before ++ z) (append-nil (b ++ last)) ∙ append_assoc a (y ∷ []) (b ++ last) in
    let absent : IsAbsent conn (b ++ last) =
      IsAbsent-append conn b last h.1 (IsAbsent-drop conn (length b) (y ∷ b) h) in
    let run = leave_loop-IsAbsent conn 0 n before (b ++ last) [] absent in
    let rounds : length (b ++ last) + 0 ≡ suc (length b) =
      omega (arith, length-append b last, one) in
    ap (λ z. leave_loop z (length a + 1) conn (a ++ (y ∷ (b ++ last))) n) (sym rounds)
    ∙ (ap (λ z. leave_loop (length (b ++ last) + 0) z conn (a ++ (y ∷ (b ++ last))) n)
          (sym (length-append a (y ∷ [])))
        ∙ (ap (λ z. leave_loop (length (b ++ last) + 0) (length before) conn z n) (sym same)
            ∙ (run ∙ ap (λ z. (z, n)) same)))

-- Closing a connection that stands once in Conns removes it and keeps the others in their order,
-- though the loop goes on over the array that it has changed.
leave_lem :
    (conn : ℕ) (a b : List ℕ)
    → IsAbsent conn a
    → IsAbsent conn b
    → leave (a ++ (conn ∷ b)) conn ≡ a ++ b
unfolding leave
leave_lem conn a b h k =
    let array : List ℕ = a ++ (conn ∷ b) in
    let n : length array ≡ length a + suc (length b) = length-append a (conn ∷ b) in
    let last : List ℕ = drop (length b) (conn ∷ b) in
    let run : leave_loop (length array) 0 conn array (length array)
        ≡ (a ++ (b ++ last), length array - 1) =
      ap (λ z. leave_loop z 0 conn array (length array)) n
      ∙ (leave_loop-IsAbsent conn (suc (length b)) (length array) [] a (conn ∷ b) h
          ∙ (hit conn (length b) (length a) (length array) array (place a b conn)
              ∙ (ap (λ z. leave_loop (length b) (length a + 1) conn z (length array - 1))
                    (shift_down_lem conn a b)
                  ∙ rest_absent conn (length array - 1) a b k))) in
    ap (λ z. take z.1 z.0) run
    ∙ (ap (λ z. take (length array - 1) z) (sym (append_assoc a b last))
        ∙ (ap (λ z. take z ((a ++ b) ++ last)) {x = length array - 1} {y = length (a ++ b)}
              (omega (arith, n, length-append a b))
            ∙ take-append (a ++ b) last))
