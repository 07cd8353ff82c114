-- ===== src/Crypt/Stream.antt =====
-- crypt.go: the XOR stream as a function of the byte's place, and its round trip.
use gole.Base.{
  ℕ, zero, suc, ◌+◌, ◌-◌, ◌%◌, ◌≤◌, ◌<◌, ◌≡◌, refl, ◌∙◌, sym, ap, false, List, [], ◌∷◌, ◌++◌, arith,
  Bytes, concat, length, length-append, take, drop, nat_eq, nat_beq, inl, inr, Bool-cases,
}
use native.Mathlib.Nat.{mod-eq_of_lt, mod-add-mod, mod-mod, mod-lt}
use gole.Crypt.{new_econn, xor_loop, econn_write, econn_read, write_each, read_each}

unfoldable pub zip_bytes : (ℕ → ℕ → ℕ) → Bytes → Bytes → Bytes
zip_bytes f [] ks = []
zip_bytes f (x ∷ xs) [] = []
zip_bytes f (x ∷ xs) (k ∷ ks) = f x k ∷ zip_bytes f xs ks

-- What xorsimd documents: byte by byte up to the end of the shorter slice, and undone by itself.
pub record XorLaws (xor_slices : Bytes → Bytes → Bytes) : Type 0 where
  pub byte : ℕ → ℕ → ℕ
  pub pointwise : (a b : Bytes) → xor_slices a b ≡ zip_bytes byte a b
  pub undo : (x k : ℕ) → byte (byte x k) k ≡ x

key_at : Bytes → ℕ → ℕ
key_at key p = elim (drop p key) [ [] ↦ 0 | k ∷ ks ↦ k ]

take_split : (n : ℕ) (b : Bytes) → take n b ++ drop (length (take n b)) b ≡ b
take_split zero b = refl
take_split (suc n) [] = refl
take_split (suc n) (x ∷ xs) = ap (◌∷◌ x) (take_split n xs)

take-nil : (n : ℕ) → take {A = ℕ} n [] ≡ []
take-nil zero = refl
take-nil (suc n) = refl

drop_step : (p : ℕ) (key : Bytes) → p < length key → drop p key ≡ key_at key p ∷ drop (p + 1) key
unfolding key_at
drop_step p [] h = absurd (omega arith)
drop_step zero (k ∷ ks) h = refl
drop_step (suc p) (k ∷ ks) h =
    drop_step p ks (omega (arith, h))
    ∙ ap (λ z. key_at ks p ∷ drop z (k ∷ ks)) {x = suc (p + 1)} {y = suc p + 1} (omega arith)

drop_all : (p : ℕ) (key : Bytes) → length key ≤ p → drop p key ≡ []
drop_all zero [] h = refl
drop_all zero (k ∷ ks) h = absurd (omega arith)
drop_all (suc p) [] h = refl
drop_all (suc p) (k ∷ ks) h = drop_all p ks (omega (arith, h))

take_positive : (n x : ℕ) (b : Bytes) → 0 < n → 0 < length (take n (x ∷ b))
take_positive zero x b h = absurd (omega (arith, h))
take_positive (suc n) x b h = omega arith

mod_kept : (p n : ℕ) → p < n → p ≡ (p + 0) % n
mod_kept p n h = let same : p + 0 ≡ p = omega arith in sym (ap (λ z. z % n) same ∙ mod-eq_of_lt h)

module _ (byte : ℕ → ℕ → ℕ) (key : Bytes) where
  -- The stream from the place p on
  stream : ℕ → Bytes → Bytes
  stream p [] = []
  stream p (x ∷ xs) = byte x (key_at key (p % length key)) ∷ stream (p + 1) xs

  stream-append : (p : ℕ) (a b : Bytes) → stream p (a ++ b) ≡ stream p a ++ stream (p + length a) b
  unfolding stream
  stream-append p [] b = ap (λ z. stream z b) (omega arith)
  stream-append p (x ∷ xs) b =
      ap (◌∷◌ (byte x (key_at key (p % length key))))
        (stream-append (p + 1) xs b ∙ ap (λ z. stream (p + 1) xs ++ stream z b) (omega arith))

  length-stream : (p : ℕ) (b : Bytes) → length (stream p b) ≡ length b
  unfolding stream
  length-stream p [] = refl
  length-stream p (x ∷ xs) = ap suc (length-stream (p + 1) xs)

  stream-mod : (p q : ℕ) (b : Bytes) → p % length key ≡ q % length key → stream p b ≡ stream q b
  unfolding stream
  stream-mod p q [] e = refl
  stream-mod p q (x ∷ xs) e =
      let next : (p + 1) % length key ≡ (q + 1) % length key =
        sym (mod-add-mod p (length key) 1)
        ∙ (ap (λ z. (z + 1) % length key) e ∙ mod-add-mod q (length key) 1) in
      ap (λ z. byte x (key_at key z) ∷ stream (p + 1) xs) e
      ∙ ap (◌∷◌ (byte x (key_at key (q % length key)))) (stream-mod (p + 1) (q + 1) xs next)

  stream_undo :
      ((x k : ℕ) → byte (byte x k) k ≡ x) → (p : ℕ) (b : Bytes) → stream p (stream p b) ≡ b
  unfolding stream
  stream_undo u p [] = refl
  stream_undo u p (x ∷ xs) =
      ap (λ z. z ∷ stream (p + 1) (stream (p + 1) xs)) (u x (key_at key (p % length key)))
      ∙ ap (◌∷◌ x) (stream_undo u (p + 1) xs)

  zip-stream :
      (p : ℕ) (b : Bytes)
      → p ≤ length key
      → zip_bytes byte b (drop p key) ≡ stream p (take (length key - p) b)
  unfolding stream zip_bytes
  zip-stream p [] h = ap (stream p) (sym (take-nil (length key - p)))
  zip-stream p (x ∷ xs) h = elim (Bool-cases (nat_beq p (length key))) [
    | inl b ↦
        let none_left : length key - p ≡ 0 = ground (arith, b) in
        ap (zip_bytes byte (x ∷ xs)) (drop_all p key (ground (arith, b)))
        ∙ ap (λ z. stream p (take z (x ∷ xs))) (sym none_left)
    | inr b ↦
        let below : p < length key = ground (arith, b) in
        let left : suc (length key - (p + 1)) ≡ length key - p = omega (arith, below) in
        ap (zip_bytes byte (x ∷ xs)) (drop_step p key below)
        ∙ (ap (◌∷◌ (byte x (key_at key p))) (zip-stream (p + 1) xs (omega (arith, below)))
            ∙ (ap (λ z. byte x (key_at key z) ∷ stream (p + 1) (take (length key - (p + 1)) xs))
                  (sym (mod-eq_of_lt below))
                ∙ ap (λ z. stream p (take z (x ∷ xs))) left))
  ]

module _ (xor_slices : Bytes → Bytes → Bytes) (laws : XorLaws xor_slices) where
  xor_loop_step :
      (rounds : ℕ) (key : Bytes) (pos : ℕ) (x : ℕ) (b done : Bytes)
      → xor_slices (x ∷ b) (drop pos key) ≡ done
      → nat_beq (length done) 0 ≡ false
      → xor_loop xor_slices (suc rounds) key pos (x ∷ b) ≡ (
        done
            ++ (xor_loop xor_slices rounds key
                ((pos + length done) % length key)
                (drop (length done) (x ∷ b))).0,
        (xor_loop xor_slices rounds key
            ((pos + length done) % length key)
            (drop (length done) (x ∷ b))).1,
      )
  unfolding xor_loop
  xor_loop_step rounds key pos x b done e z = rw (e, z) refl

  xor_loop-stream :
      (rounds : ℕ) (key : Bytes) (pos : ℕ) (b : Bytes)
      → length b ≤ rounds
      → pos < length key
      → xor_loop xor_slices rounds key pos b
        ≡ (stream laws.byte key pos b, (pos + length b) % length key)
  unfolding xor_loop stream
  xor_loop-stream zero key pos [] h p = ap (λ z. ([], z)) (mod_kept pos (length key) p)
  xor_loop-stream zero key pos (x ∷ b) h p = absurd (omega (arith, h))
  xor_loop-stream (suc rounds) key pos [] h p = ap (λ z. ([], z)) (mod_kept pos (length key) p)
  xor_loop-stream (suc rounds) key pos (x ∷ b) h p =
      let n : ℕ = length key in
      let t : Bytes = take (n - pos) (x ∷ b) in
      let done = stream laws.byte key pos t in
      let d : Bytes = drop (length t) (x ∷ b) in
      let e : xor_slices (x ∷ b) (drop pos key) ≡ done =
        laws.pointwise (x ∷ b) (drop pos key)
        ∙ zip-stream laws.byte key pos (x ∷ b) (omega (arith, p)) in
      let len_t : length done ≡ length t = length-stream laws.byte key pos t in
      let split : t ++ d ≡ x ∷ b = take_split (n - pos) (x ∷ b) in
      let positive : 0 < length t = take_positive (n - pos) x b (omega (arith, p)) in
      let total : length t + length d ≡ suc (length b) =
        sym (length-append t d) ∙ ap length split in
      let z : nat_beq (length done) 0 ≡ false = ground (arith, len_t, positive) in
      let dropped : length (drop (length done) (x ∷ b)) ≡ length d =
        ap (λ m. length (drop m (x ∷ b))) len_t in
      let ih =
        xor_loop-stream rounds key ((pos + length done) % n) (drop (length done) (x ∷ b))
          (omega (arith, dropped, total, positive, h))
          (mod-lt (pos + length done) (omega (arith, p))) in
      let whole : done ++ stream laws.byte key ((pos + length t) % n) d
          ≡ stream laws.byte key pos (x ∷ b) =
        ap (λ w. done ++ w)
          (stream-mod laws.byte key ((pos + length t) % n) (pos + length t) d
            (mod-mod (pos + length t) n))
        ∙ (sym (stream-append laws.byte key pos t d) ∙ ap (stream laws.byte key pos) split) in
      let sum : pos + length t + length d ≡ pos + suc (length b) = omega (arith, total) in
      let place : ((pos + length t) % n + length d) % n ≡ (pos + suc (length b)) % n =
        mod-add-mod (pos + length t) n (length d) ∙ ap (λ m. m % n) sum in
      xor_loop_step rounds key pos x b done e z
      ∙ (ap (λ w. (done ++ w.0, w.1)) ih
          ∙ (ap
                (λ m. (
                  done ++ stream laws.byte key ((pos + m) % n) (drop m (x ∷ b)),
                  ((pos + m) % n + length (drop m (x ∷ b))) % n,
                ))
                len_t
              ∙ (ap (λ w. (w, ((pos + length t) % n + length d) % n)) whole
                  ∙ ap (λ w. (stream laws.byte key pos (x ∷ b), w)) place)))

  write_each-stream :
      (key : Bytes) (ri wi : ℕ) (bs : List Bytes)
      → wi < length key
      → write_each xor_slices bs (record { key = key; key_ri = ri; key_wi = wi })
        ≡ stream laws.byte key wi (concat bs)
  unfolding write_each econn_write concat stream
  write_each-stream key ri wi [] p = refl
  write_each-stream key ri wi (b ∷ bs) p =
      let q = xor_loop-stream (length b) key wi b (omega arith) p in
      rw q (
        ap (λ z. stream laws.byte key wi b ++ z)
          (write_each-stream key ri ((wi + length b) % length key) bs
              (mod-lt (wi + length b) (omega (arith, p)))
            ∙ stream-mod laws.byte key ((wi + length b) % length key) (wi + length b) (concat bs)
                (mod-mod (wi + length b) (length key)))
        ∙ sym (stream-append laws.byte key wi b (concat bs)))

  read_each-stream :
      (key : Bytes) (ri wi : ℕ) (bs : List Bytes)
      → ri < length key
      → read_each xor_slices bs (record { key = key; key_ri = ri; key_wi = wi })
        ≡ stream laws.byte key ri (concat bs)
  unfolding read_each econn_read concat stream
  read_each-stream key ri wi [] p = refl
  read_each-stream key ri wi (b ∷ bs) p =
      let q = xor_loop-stream (length b) key ri b (omega arith) p in
      rw q (
        ap (λ z. stream laws.byte key ri b ++ z)
          (read_each-stream key ((ri + length b) % length key) wi bs
              (mod-lt (ri + length b) (omega (arith, p)))
            ∙ stream-mod laws.byte key ((ri + length b) % length key) (ri + length b) (concat bs)
                (mod-mod (ri + length b) (length key)))
        ∙ sym (stream-append laws.byte key ri b (concat bs)))

  -- Two connections with one non-empty key: whatever one side writes, in whatever pieces it is
  -- written and in whatever pieces the ciphered bytes arrive, the other side reads the same bytes.
  pub read_each-write_each :
      (key : Bytes) (sent arrived : List Bytes)
      → 0 < length key
      → concat arrived ≡ write_each xor_slices sent (new_econn key)
      → read_each xor_slices arrived (new_econn key) ≡ concat sent
  unfolding new_econn
  read_each-write_each key sent arrived h e =
      read_each-stream key 0 0 arrived h
      ∙ (ap (stream laws.byte key 0) (e ∙ write_each-stream key 0 0 sent h)
          ∙ stream_undo laws.byte key laws.undo 0 (concat sent))
