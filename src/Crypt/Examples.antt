-- ===== src/Crypt/Examples.antt =====
-- The theorems on the ciphers at a concrete key, with a cipher that flips a byte's lowest bit where
-- the key's is set.
use gole.Base.{
  ℕ, ◌+◌, ◌-◌, ◌%◌, ◌≡◌, refl, List, [], ◌∷◌, arith, Bytes, concat, drop, ◌==◌, nat_eq,
  if◌then◌else◌,
}
use gole.Crypt.{new_econn, xor_loop, econn_write, write_each, read_each, packet_xor}
use gole.Crypt.Stream.{zip_bytes, XorLaws, read_each-write_each}
use gole.Crypt.Packets.{packet_xor_clear_tail}

flip : ℕ → ℕ → ℕ
flip x k = if k % 2 == 0 then x else if x % 2 == 0 then x + 1 else x - 1

flip_undo : (x k : ℕ) → flip (flip x k) k ≡ x
unfolding flip
flip_undo x k = ground arith

flips : Bytes → Bytes → Bytes
flips a b = zip_bytes flip a b

flips-XorLaws : XorLaws flips
unfolding flips
flips-XorLaws = record { byte = flip; pointwise = λ a b. refl; undo = flip_undo }

abbrev key : Bytes
key = 1 ∷ 2 ∷ 3 ∷ []

abbrev sent : List Bytes
sent = (5 ∷ 6 ∷ []) ∷ (7 ∷ 8 ∷ []) ∷ []

abbrev arrived : List Bytes
arrived = (4 ∷ []) ∷ (6 ∷ 6 ∷ 9 ∷ []) ∷ []

read_each-write_each_example :
    ◌≡◌ {A = Bytes} (read_each flips arrived (new_econn key)) (5 ∷ 6 ∷ 7 ∷ 8 ∷ [])
unfolding flips flip zip_bytes xor_loop econn_write write_each concat new_econn
read_each-write_each_example =
    read_each-write_each flips flips-XorLaws key sent arrived (omega arith) refl

packet_xor_clear_tail_example :
    (packet_xor flips key (packet_xor flips key (5 ∷ 6 ∷ 7 ∷ 8 ∷ [])) ≡ 5 ∷ 6 ∷ 7 ∷ 8 ∷ [])
    × (drop 3 (packet_xor flips key (5 ∷ 6 ∷ 7 ∷ 8 ∷ [])) ≡ 8 ∷ [])
packet_xor_clear_tail_example = packet_xor_clear_tail flips flips-XorLaws key (5 ∷ 6 ∷ 7 ∷ 8 ∷ [])
