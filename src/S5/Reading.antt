-- ===== src/S5/Reading.antt =====
-- s5/s5.go: the reads of a message of known length, however it is cut into pieces.
use gole.Base.{
  ℕ, zero, suc, ◌+◌, ◌-◌, ◌≤◌, ◌<◌, ◌≡◌, refl, ◌∙◌, sym, ap, subst, true, false, inl, inr, List, [],
  ◌∷◌, ◌++◌, arith, Bytes, length, length-append, concat, leb, ltb, Bool-cases, nat_eq, nat_beq,
}
use mathlib.Core.List.{append_assoc, append-nil}
use gole.Base.Result.{ok}
use gole.S5.Stream.{IoError, read_more, read_at_least, read_full, byte_at}
use gole.S5.Server.{Refusal, fill}

-- What a read leaves of the pieces cs of a message, and the bytes it took before.
pub record Cut (got : Bytes) (cs : List Bytes) (min : ℕ) : Type 0 where
  pub taken : Bytes
  pub left : List Bytes
  pub whole : taken ++ concat left ≡ got ++ concat cs
  pub enough : min ≤ length taken

enough_read :
    (room min : ℕ) (e : IoError) (got : Bytes) (rest : List Bytes)
    → min ≤ length got
    → read_more room min e got rest ≡ ok (got, rest)
unfolding read_more
enough_read room min e got [] h =
    let b : leb min (length got) ≡ true = ground (arith, h) in rw b refl
enough_read room min e got (c ∷ cs) h =
    let b : leb min (length got) ≡ true = ground (arith, h) in rw b refl

-- A read whose buffer has room for the message takes whole pieces of it, and nothing beyond.
pub read_more-Cut :
    (room min : ℕ) (e : IoError) (got : Bytes) (cs rest : List Bytes)
    → min ≤ length (got ++ concat cs)
    → length (concat cs) ≤ room
    → (cut : Cut got cs min) × (read_more room min e got (cs ++ rest)
        ≡ ok (cut.taken, cut.left ++ rest))
unfolding read_more concat
read_more-Cut room min e got [] rest h k =
    let all_read : min ≤ length got = subst (λ z. min ≤ length z) (append-nil got) h in
    (
      record { taken = got; left = []; whole = refl; enough = all_read },
      enough_read room min e got rest all_read,
    )
read_more-Cut room min e got (c ∷ cs) rest h k = elim (Bool-cases (leb min (length got))) [
  | inl b ↦
      (record { taken = got; left = c ∷ cs; whole = refl; enough = ground (arith, b) }, rw b refl)
  | inr b ↦
      let (cut, q) =
        read_more-Cut (room - length c) min e (got ++ c) cs rest
          (subst (λ z. min ≤ length z) (sym (append_assoc got c (concat cs))) h)
          (omega (arith, k, length-append c (concat cs))) in
      let fits : ltb room (length c) ≡ false = ground (arith, k, length-append c (concat cs)) in
      (
        record {
          taken = cut.taken;
          left = cut.left;
          whole = cut.whole ∙ append_assoc got c (concat cs);
          enough = cut.enough;
        },
        rw (b, fits) q,
      )
]

-- The first read of a message and the read of its rest together take the message.
pub fill_rest :
    (x : Refusal) (n : ℕ) (e : IoError) (buf : Bytes) (cs rest : List Bytes)
    → length (buf ++ concat cs) ≡ n
    → (left : List Bytes) × (concat left ≡ [])
      × (fill x n buf e (cs ++ rest) ≡ ok (buf ++ concat cs, left ++ rest))
unfolding fill read_full read_at_least
fill_rest x n e buf cs rest h = elim (Bool-cases (nat_beq (length buf) n)) [
  | inl b ↦
      let gone : concat cs ≡ [] =
        empty (concat cs) (ground (arith, b, h, length-append buf (concat cs))) in
      (cs, gone, rw (b, gone, append-nil buf) refl)
  | inr b ↦
      let less : ltb (length buf) n ≡ true = ground (arith, b, h, length-append buf (concat cs)) in
      let exact : length (concat cs) ≡ n - length buf =
        omega (arith, h, length-append buf (concat cs)) in
      let (cut, q) =
        read_more-Cut (n - length buf) (n - length buf) e [] cs rest (omega (arith, exact))
          (omega (arith, exact)) in
      let gone : concat cut.left ≡ [] = empty (concat cut.left) (
        omega (
          arith,
          cut.enough,
          exact,
          ap length cut.whole,
          length-append cut.taken (concat cut.left),
        )) in
      let all : cut.taken ≡ concat cs =
        sym (append-nil cut.taken) ∙ (ap (λ z. cut.taken ++ z) (sym gone) ∙ cut.whole) in
      (cut.left, gone, rw (b, less, q, all) refl)
]
  where
    empty : (b : Bytes) → length b ≡ 0 → b ≡ []
    empty [] h = refl
    empty (y ∷ ys) h = absurd (omega (arith, h))

pub byte_at-append : (i : ℕ) (a b : Bytes) → i < length a → byte_at i (a ++ b) ≡ byte_at i a
unfolding byte_at
byte_at-append i [] b h = absurd (omega arith)
byte_at-append zero (x ∷ a) b h = refl
byte_at-append (suc i) (x ∷ a) b h = byte_at-append i a b (omega (arith, h))

pub byte_at-after : (i : ℕ) (a b : Bytes) → byte_at (length a + i) (a ++ b) ≡ byte_at i b
unfolding byte_at
byte_at-after i [] b = ap (λ z. byte_at z b) {x = 0 + i} {y = i} (omega arith)
byte_at-after i (x ∷ a) b =
    ap (λ z. byte_at z (x ∷ (a ++ b))) {x = suc (length a) + i} {y = suc (length a + i)}
      (omega arith)
    ∙ byte_at-after i a b
