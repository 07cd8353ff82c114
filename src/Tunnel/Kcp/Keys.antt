-- ===== src/Tunnel/Kcp/Keys.antt =====
-- kconfig.go: the ciphers' errors, which getKCPBlockCipher passes over.
use gole.Base.{
  ℕ, ◌≤◌, ◌≡◌, ◌⊎◌, inl, inr, Bool, true, false, Bytes, length, take, length-take, arith,
  if◌then◌else◌, ◌==◌, bytes_eq, codes,
}
use gole.Tunnel.Kcp.{
  Cipher, sm4, tea, simple_xor, no_cipher, aes, blowfish, twofish, cast5, triple_des, xtea, salsa20,
  get_kcp_block_cipher,
}

-- The lengths of keys that the ciphers take, by their packages' documentation
abbrev pub Accepts : Cipher → ℕ → Type 0
Accepts sm4 n = n ≡ 16
Accepts tea n = n ≡ 16
Accepts simple_xor n = Unit {0}
Accepts no_cipher n = Unit {0}
Accepts aes n = (n ≡ 16) ⊎ ((n ≡ 24) ⊎ (n ≡ 32))
Accepts blowfish n = (1 ≤ n) × (n ≤ 56)
Accepts twofish n = (n ≡ 16) ⊎ ((n ≡ 24) ⊎ (n ≡ 32))
Accepts cast5 n = n ≡ 16
Accepts triple_des n = n ≡ 24
Accepts xtea n = n ≡ 16
Accepts salsa20 n = n ≡ 32

abbrev pub IsKeyed : Cipher × (Bytes × Bytes) → Type 0
IsKeyed c = Accepts c.0 (length c.1.0)

choose :
    (b : Bool) (x y : Cipher × (Bytes × Bytes))
    → IsKeyed x
    → IsKeyed y
    → IsKeyed (if b then x else y)
choose true x y h k = h
choose false x y h k = k

-- Whatever cipher the settings name, known or not, the key that it is given has a length that it
-- takes, so that the errors that are passed over never occur; the derived key has 32 bytes.
pub get_kcp_block_cipher-IsKeyed :
    (pass crypt : Bytes) → length pass ≡ 32 → IsKeyed (get_kcp_block_cipher pass crypt)
unfolding get_kcp_block_cipher
get_kcp_block_cipher-IsKeyed pass crypt h =
    let l16 : length (take 16 pass) ≡ 16 = length-take 16 pass (omega (arith, h)) in
    let l24 : length (take 24 pass) ≡ 24 = length-take 24 pass (omega (arith, h)) in
    choose (crypt == codes "sm4") _ _ l16 (
      choose (crypt == codes "tea") _ _ l16 (
        choose (crypt == codes "xor") _ _ tt (
          choose (crypt == codes "none") _ _ tt (
            choose (crypt == codes "aes-128") _ _ (inl l16) (
              choose (crypt == codes "aes-192") _ _ (inr (inl l24)) (
                choose (crypt == codes "blowfish") _ _ (omega (arith, h), omega (arith, h))
                  (choose (crypt == codes "twofish") _ _ (inr (inr h)) (
                    choose (crypt == codes "cast5") _ _ l16 (
                      choose (crypt == codes "3des") _ _ l24 (
                        choose (crypt == codes "xtea") _ _ l16
                          (choose (crypt == codes "salsa20") _ _ h (inr (inr h)))))))))))))
