-- ===== src/Crypt/Packets.antt =====
-- crypt.go: the datagrams of EPacketConnXor.
use gole.Base.{ℕ, ◌≡◌, refl, ◌∙◌, ap, [], ◌∷◌, ◌++◌, Bytes, length, drop}
use gole.Crypt.{packet_xor}
use gole.Crypt.Stream.{zip_bytes, XorLaws}

-- A slice ciphered as far as the key goes
abbrev cover : (ℕ → ℕ → ℕ) → Bytes → Bytes → Bytes
cover f b key = zip_bytes f b key ++ drop (length (zip_bytes f b key)) b

cover_tail :
    (f : ℕ → ℕ → ℕ) (b key : Bytes) → drop (length key) (cover f b key) ≡ drop (length key) b
unfolding zip_bytes
cover_tail f [] [] = refl
cover_tail f [] (k ∷ ks) = refl
cover_tail f (x ∷ xs) [] = refl
cover_tail f (x ∷ xs) (k ∷ ks) = cover_tail f xs ks

cover_twice :
    (f : ℕ → ℕ → ℕ) (b key : Bytes)
    → ((x k : ℕ) → f (f x k) k ≡ x)
    → cover f (cover f b key) key ≡ b
unfolding zip_bytes
cover_twice f [] key u = refl
cover_twice f (x ∷ xs) [] u = refl
cover_twice f (x ∷ xs) (k ∷ ks) u =
    ap (λ z. z ∷ cover f (cover f xs ks) ks) (u x k) ∙ ap (◌∷◌ x) (cover_twice f xs ks u)

-- The receiver of a datagram that was ciphered under the same key reads what was sent; but only the
-- bytes that the key's length covers are ciphered, and all that follow are sent as they are.
pub packet_xor_clear_tail :
    (xor_slices : Bytes → Bytes → Bytes) (laws : XorLaws xor_slices) (key b : Bytes)
    → (packet_xor xor_slices key (packet_xor xor_slices key b) ≡ b)
      × (drop (length key) (packet_xor xor_slices key b) ≡ drop (length key) b)
unfolding packet_xor
packet_xor_clear_tail xor_slices laws key b =
    let once : packet_xor xor_slices key b ≡ cover laws.byte b key =
      ap (λ z. z ++ drop (length z) b) (laws.pointwise b key) in
    let again : packet_xor xor_slices key (cover laws.byte b key)
        ≡ cover laws.byte (cover laws.byte b key) key =
      ap (λ z. z ++ drop (length z) (cover laws.byte b key))
        (laws.pointwise (cover laws.byte b key) key) in
    (
      ap (packet_xor xor_slices key) once ∙ (again ∙ cover_twice laws.byte b key laws.undo),
      ap (drop (length key)) once ∙ cover_tail laws.byte b key,
    )
