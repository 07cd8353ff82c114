-- ===== src/Swarm/Paseto/Toy.antt =====
-- A concrete `Crypto`, with its laws: what the theorems assume of the external code can be met.
use gole.Base.{
  ℕ, zero, suc, ◌+◌, ◌*◌, ◌%◌, ◌≡◌, refl, ap, Option, none, some, [], ◌∷◌, ◌++◌, arith, Bytes,
  length, take, drop, take-append, drop-append, bytes_beq, bytes_beq_iff,
}
use gole.Base.Int.{ℤ, pos, negsuc, pos_part, neg_part, sub_ℕ}
use gole.Swarm.Paseto.{TokenClaims, Crypto, CryptoLaws}

unfoldable pub repeat : ℕ → ℕ → Bytes
repeat zero b = []
repeat (suc n) b = b ∷ repeat n b

length-repeat : (n b : ℕ) → length (repeat n b) ≡ n
unfolding repeat
length-repeat zero b = refl
length-repeat (suc n) b = ap suc (length-repeat n b)

unfoldable pub digest : Bytes → ℕ
digest [] = 1
digest (b ∷ bs) = (b + 31 * digest bs) % 251

unfoldable pub toy_sign : Bytes → Bytes → Bytes
unfolding repeat digest
toy_sign sk m = repeat 64 (digest (sk ++ m))

unfoldable pub toy_marshal : TokenClaims → Option Bytes
toy_marshal t = some (
    t.endpoint_id
    ∷ t.domain
    ∷ t.group
    ∷ t.role_flags
    ∷ pos_part t.issued_at
    ∷ neg_part t.issued_at
    ∷ pos_part t.expires_at
    ∷ neg_part t.expires_at
    ∷ length t.public_key
    ∷ length t.fingerprint
    ∷ (t.public_key ++ (t.fingerprint ++ t.issuer)))

unfoldable pub toy_unmarshal : Bytes → Option TokenClaims
toy_unmarshal (e ∷ d ∷ g ∷ r ∷ ip ∷ im ∷ xp ∷ xm ∷ pk ∷ fp ∷ rest) = some record {
  endpoint_id = e;
  domain = d;
  group = g;
  role_flags = r;
  public_key = take pk rest;
  fingerprint = take fp (drop pk rest);
  issued_at = sub_ℕ ip im;
  expires_at = sub_ℕ xp xm;
  issuer = drop fp (drop pk rest);
}
toy_unmarshal _ = none

parts : (z : ℤ) → sub_ℕ (pos_part z) (neg_part z) ≡ z
parts (pos n) = ground arith
parts (negsuc n) = ground arith

abbrev pub toy : Crypto
toy = record {
  verify = λ pk m s. bytes_beq s (toy_sign pk m);
  sign = toy_sign;
  public_of = λ sk. sk;
  base64_encode = λ b. b;
  base64_decode = λ b. some b;
  marshal = toy_marshal;
  unmarshal = toy_unmarshal;
}

toy_round_trip : (t : TokenClaims) (b : Bytes) → toy_marshal t ≡ some b → toy_unmarshal b ≡ some t
unfolding toy_marshal toy_unmarshal
toy_round_trip t b e =
    let pk = t.public_key in
    let fp = t.fingerprint in
    let rest = fp ++ t.issuer in
    ground (
      arith,
      parts t.issued_at,
      parts t.expires_at,
      take-append pk rest,
      drop-append pk rest,
      take-append fp t.issuer,
      drop-append fp t.issuer,
    )

pub toy-CryptoLaws : CryptoLaws toy
toy-CryptoLaws = record {
  verify-sign = λ sk m. (bytes_beq_iff _ _).1 refl;
  length-sign = λ sk m. unfold toy_sign in length-repeat 64 (digest (sk ++ m));
  decode-encode = λ b. refl;
  unmarshal-marshal = λ t b _ _ e. toy_round_trip t b e;
}
