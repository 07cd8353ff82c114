-- ===== src/Swarm/Paseto.antt =====
-- swarm/paseto.go: tokens. Ed25519, base64url and JSON are the record `Crypto` of functions, the
-- behaviour relied on is `CryptoLaws`; both are parameters of what uses them.
pub mod Encoding
pub mod Tokens
pub mod Toy
use gole.Base.Strings.{has_prefix}
use gole.Base.{
  ℕ, ◌+◌, ◌-◌, ◌<◌, ◌≡◌, Bool, true, false, not, ◌&&◌, Option, none, some, List, [], ◌∷◌, ◌++◌,
  Bytes, codes, length, take, drop, All, leb, nat_beq, bytes_beq, if◌then◌else◌,
}
use gole.Base.Int.{ℤ, ltℤ}
use gole.Base.Result.{Result, ok, err, ◌>>=◌, ◌>>◌, guard, or_fail}
use gole.Base.Words.{le_bytes}
use gole.Swarm.Types.Address.{EndpointAddr}

abbrev pub paseto_header : Bytes
paseto_header = codes "v4.public."

-- ed25519.SignatureSize and PublicKeySize
abbrev pub signature_size : ℕ
signature_size = 64

abbrev pub public_key_size : ℕ
public_key_size = 32

pub record TokenClaims : Type 0 where
  pub endpoint_id : ℕ
  pub domain : ℕ
  pub group : ℕ
  pub role_flags : ℕ
  pub public_key : Bytes
  pub fingerprint : Bytes
  pub issued_at : ℤ
  pub expires_at : ℤ
  pub issuer : Bytes

pub record Crypto : Type 0 where
  -- ed25519.Verify(public, message, signature), ed25519.Sign(private, message)
  pub verify : Bytes → Bytes → Bytes → Bool
  pub sign : Bytes → Bytes → Bytes
  -- the public half of a private key
  pub public_of : Bytes → Bytes
  -- base64.RawURLEncoding
  pub base64_encode : Bytes → Bytes
  pub base64_decode : Bytes → Option Bytes
  -- json.Marshal and json.Unmarshal on the claims; `none` is an error
  pub marshal : TokenClaims → Option Bytes
  pub unmarshal : Bytes → Option TokenClaims

-- JSON carries ASCII text unchanged; invalid UTF-8 it would replace.
abbrev pub IsAscii : Bytes → Type 0
IsAscii = All (λ b. b < 128)

pub record CryptoLaws (c : Crypto) : Type 0 where
  pub verify-sign : (sk m : Bytes) → c.verify (c.public_of sk) m (c.sign sk m) ≡ true
  pub length-sign : (sk m : Bytes) → length (c.sign sk m) ≡ signature_size
  pub decode-encode : (b : Bytes) → c.base64_decode (c.base64_encode b) ≡ some b
  pub unmarshal-marshal :
      (t : TokenClaims) (b : Bytes)
      → IsAscii t.fingerprint
      → IsAscii t.issuer
      → c.marshal t ≡ some b
      → c.unmarshal b ≡ some t

-- The errors of VerifyToken.
pub data TokenError : Type 0 where
  wrong_header bad_encoding too_short bad_signature bad_claims expired : TokenError

-- le64: uint64(n), little-endian
unfoldable pub le64 : ℕ → Bytes
le64 n = le_bytes 8 n

unfoldable pub pieces_loop : Bytes → List Bytes → Bytes
pieces_loop output [] = output
pieces_loop output (p ∷ ps) = pieces_loop ((output ++ le64 (length p)) ++ p) ps

-- pae: pre-authentication encoding
unfoldable pub pae : List Bytes → Bytes
pae pieces = pieces_loop (le64 (length pieces)) pieces

-- What is signed for a message: header, message, and an empty footer and assertion.
unfoldable pub signed_text : Bytes → Bytes
signed_text message = pae (paseto_header ∷ message ∷ [] ∷ [] ∷ [])

module _ (c : Crypto) where
  -- SignToken; `none` is the error of json.Marshal
  unfoldable pub sign_token : TokenClaims → Bytes → Option Bytes
  sign_token claims secret_key = elim (c.marshal claims) [
    | none ↦ none
    | some message ↦
        some (paseto_header ++ c.base64_encode (message ++ c.sign secret_key (signed_text message)))
  ]

  -- VerifyToken at the time `now`
  unfoldable pub verify_token : Bytes → Bytes → ℤ → Result TokenError TokenClaims
  verify_token token public_key now = do
    guard (has_prefix token paseto_header) wrong_header
    payload ← or_fail (c.base64_decode (drop (length paseto_header) token)) bad_encoding
    guard (leb signature_size (length payload)) too_short
    let message = take (length payload - signature_size) payload
    let signature = drop (length payload - signature_size) payload
    guard (c.verify public_key (signed_text message) signature) bad_signature
    claims ← or_fail (c.unmarshal message) bad_claims
    guard (not (ltℤ claims.expires_at now)) expired
    ok claims

-- The comparison of a token's claims with an address: ActivateEndpoint, ValidateFlow and
-- VerifyMessage compare the role flags as well, SetRelayRoute and RequestPunch do not.
unfoldable pub claims_match_id : TokenClaims → EndpointAddr → Bool
claims_match_id t a =
    nat_beq t.endpoint_id a.endpoint && (nat_beq t.domain a.domain && nat_beq t.group a.group)

unfoldable pub claims_match : TokenClaims → EndpointAddr → Bool
unfolding claims_match_id
claims_match t a = claims_match_id t a && nat_beq t.role_flags a.role_flags
