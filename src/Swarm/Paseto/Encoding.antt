-- ===== src/Swarm/Paseto/Encoding.antt =====
-- swarm/paseto.go, `pae`: pieces cannot be shifted across their borders.
use gole.Base.{ℕ, ◌^◌, ◌<◌, ◌≡◌, refl, sym, ap, ◌∙◌, List, [], ◌∷◌, ◌++◌, arith, Bytes, length, All}
use gole.Base.Words.{length-le_bytes, le_value, le_value-le_bytes, append_cancel}
use gole.Swarm.Paseto.{le64, pae, pieces_loop}
use mathlib.Core.List.{append_assoc, append-nil}

-- The pieces, each behind its length.
body : List Bytes → Bytes
body [] = []
body (p ∷ ps) = le64 (length p) ++ (p ++ body ps)

pieces_loop-body : (output : Bytes) (ps : List Bytes) → pieces_loop output ps ≡ output ++ body ps
unfolding pieces_loop body
pieces_loop-body output [] = sym (append-nil output)
pieces_loop-body output (p ∷ ps) =
    pieces_loop-body ((output ++ le64 (length p)) ++ p) ps ∙ simp append_assoc

abbrev pub FitsU64 : ℕ → Type 0
FitsU64 n = n < 2 ^ 64

le64-injective : (m n : ℕ) → m < 2 ^ 64 → n < 2 ^ 64 → le64 m ≡ le64 n → m ≡ n
unfolding le64
le64-injective m n h k e =
    sym (le_value-le_bytes 8 m (omega arith)) ∙ ap le_value e ∙ le_value-le_bytes 8 n (omega arith)

length-le64 : (n : ℕ) → length (le64 n) ≡ 8
unfolding le64
length-le64 n = length-le_bytes 8 n

le64_cancel :
    (m n : ℕ) (r s : Bytes)
    → m < 2 ^ 64
    → n < 2 ^ 64
    → le64 m ++ r ≡ le64 n ++ s
    → (m ≡ n) × (r ≡ s)
le64_cancel m n r s h k e =
    let (a, b) = append_cancel (le64 m) (le64 n) r s (length-le64 m ∙ sym (length-le64 n)) e in
    (le64-injective m n h k a, b)

abbrev pub AllSized : List Bytes → Type 0
AllSized = All (λ p. length p < 2 ^ 64)

body-injective :
    (xs ys : List Bytes)
    → length xs ≡ length ys
    → AllSized xs
    → AllSized ys
    → body xs ≡ body ys
    → xs ≡ ys
unfolding body
body-injective [] [] l h k e = refl
body-injective [] (y ∷ ys) l h k e = absurd (omega arith)
body-injective (x ∷ xs) [] l h k e = absurd (omega arith)
body-injective (x ∷ xs) (y ∷ ys) l h k e =
    let (n, r) = le64_cancel (length x) (length y) (x ++ body xs) (y ++ body ys) h.0 k.0 e in
    let (p, q) = append_cancel x y (body xs) (body ys) n r in
    cc (p, body-injective xs ys (omega arith) h.1 k.1 q)

-- Two lists of pieces, of fewer than 2 ^ 64 pieces with fewer than 2 ^ 64 bytes each, that have
-- the same pre-authentication encoding are the same list.
pub pae-injective :
    (xs ys : List Bytes)
    → length xs < 2 ^ 64
    → length ys < 2 ^ 64
    → AllSized xs
    → AllSized ys
    → pae xs ≡ pae ys
    → xs ≡ ys
unfolding pae
pae-injective xs ys m n h k e =
    let e' : le64 (length xs) ++ body xs ≡ le64 (length ys) ++ body ys =
      sym (pieces_loop-body _ xs) ∙ e ∙ pieces_loop-body _ ys in
    let (l, b) = le64_cancel (length xs) (length ys) (body xs) (body ys) m n e' in
    body-injective xs ys l h k b
