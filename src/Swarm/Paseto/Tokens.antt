-- ===== src/Swarm/Paseto/Tokens.antt =====
-- swarm/paseto.go: what SignToken and VerifyToken promise each other.
use gole.Base.{
  ℕ, ◌-◌, ◌≡◌, refl, sym, ap, ◌∙◌, true, false, not, some, [], ◌∷◌, ◌++◌, arith, Bytes, length,
  length-append, take, drop, take-append, drop-append, leb, if◌then◌else◌, inl, inr, Option-cases,
  Bool-cases,
}
use gole.Base.{subst, length-drop, take-append-drop}
use gole.Base.Int.{ℤ, ltℤ}
use gole.Base.Result.{ok, err, guard, or_fail, >>=-eq-ok, guard_passed, or_fail_found}
use gole.Base.Strings.{has_prefix}
use gole.Swarm.Paseto.{
  TokenClaims, Crypto, CryptoLaws, IsAscii, bad_encoding, expired, wrong_header, too_short,
  bad_signature, bad_claims, paseto_header, signature_size, signed_text, sign_token, verify_token,
}

has_prefix-append : (p s : Bytes) → has_prefix (p ++ s) p ≡ true
unfolding has_prefix
has_prefix-append [] s = refl
has_prefix-append (b ∷ p) s = ground (arith, has_prefix-append p s)

prefix_split : (s p : Bytes) → has_prefix s p ≡ true → s ≡ p ++ drop (length p) s
unfolding has_prefix
prefix_split s [] h = refl
prefix_split [] (b ∷ p) h = cc
prefix_split (a ∷ s) (b ∷ p) h = ground (arith, prefix_split s p)

-- Go's slicing of the payload at its last 64 bytes.
split_at_end :
    (m s : Bytes)
    → length s ≡ signature_size
    → (take (length (m ++ s) - signature_size) (m ++ s) ≡ m)
      × (drop (length (m ++ s) - signature_size) (m ++ s) ≡ s)
      × (leb signature_size (length (m ++ s)) ≡ true)
split_at_end m s h =
    let cut : length (m ++ s) - signature_size ≡ length m = omega (arith, length-append m s) in
    (rw cut (take-append m s), rw cut (drop-append m s), ground (arith, length-append m s))

module _ (c : Crypto) (laws : CryptoLaws c) where
  signed_form :
      (t : TokenClaims) (sk message : Bytes) (now : ℤ)
      → IsAscii t.fingerprint
      → IsAscii t.issuer
      → c.marshal t ≡ some message
      → verify_token c
          (paseto_header ++ c.base64_encode (message ++ c.sign sk (signed_text message)))
          (c.public_of sk)
          now
        ≡ (if ltℤ t.expires_at now then err expired else ok t)
  unfolding verify_token
  signed_form t sk message now fp iss e =
      let s : Bytes = c.sign sk (signed_text message) in
      let (front, back, long) =
        split_at_end message s (laws.length-sign sk (signed_text message)) in
      rw
        (
          has_prefix-append paseto_header _,
          laws.decode-encode (message ++ s),
          long,
          front,
          back,
          laws.verify-sign sk (signed_text message),
          laws.unmarshal-marshal t message fp iss e,
        )
        (elim (Bool-cases (ltℤ t.expires_at now)) [ inl p ↦ rw p refl | inr p ↦ rw p refl ])

  -- VerifyToken, under the public half of the signing key, gives back the very claims that
  -- SignToken was given as long as they have not expired, and the error `expired` afterwards. The
  -- claims' fingerprint and issuer are ASCII.
  pub verify_token-sign_token :
      (t : TokenClaims) (sk token : Bytes) (now : ℤ)
      → IsAscii t.fingerprint
      → IsAscii t.issuer
      → sign_token c t sk ≡ some token
      → verify_token c token (c.public_of sk) now
        ≡ (if ltℤ t.expires_at now then err expired else ok t)
  unfolding sign_token
  verify_token-sign_token t sk token now fp iss e = elim (Option-cases (c.marshal t)) [
    | inl none_e ↦ ground arith
    | inr (message, m) ↦
        subst
          (λ x.
            verify_token c x (c.public_of sk) now
            ≡ (if ltℤ t.expires_at now then err expired else ok t))
          (ground arith) (signed_form t sk message now fp iss m)
  ]

module _ (c : Crypto) where
  -- What VerifyToken has established when it returns claims.
  pub record IsAuthentic (token public_key : Bytes) (now : ℤ) (t : TokenClaims) : Type 0 where
    pub message : Bytes
    pub signature : Bytes
    pub header_ok : token ≡ paseto_header ++ drop (length paseto_header) token
    pub decoded : c.base64_decode (drop (length paseto_header) token) ≡ some (message ++ signature)
    pub sized : length signature ≡ signature_size
    pub signed : c.verify public_key (signed_text message) signature ≡ true
    pub read : c.unmarshal message ≡ some t
    pub in_time : ltℤ t.expires_at now ≡ false

  -- VerifyToken accepts a token only if it starts with the header, decodes to a message and a
  -- signature of 64 bytes that verifies over the message's signed text under the given key, the
  -- message reads as the claims that are returned, and these have not expired.
  pub verify_token_sound :
      (token public_key : Bytes) (now : ℤ) (t : TokenClaims)
      → verify_token c token public_key now ≡ ok t
      → IsAuthentic token public_key now t
  unfolding verify_token
  verify_token_sound token public_key now t h =
      let (_, g1, h1) = >>=-eq-ok (guard (has_prefix token paseto_header) wrong_header) _ h in
      let (payload, g2, h2) =
        >>=-eq-ok (or_fail (c.base64_decode (drop (length paseto_header) token)) bad_encoding) _
          h1 in
      let (_, g3, h3) = >>=-eq-ok (guard (leb signature_size (length payload)) too_short) _ h2 in
      let n : ℕ = length payload - signature_size in
      let (_, g4, h4) =
        >>=-eq-ok
          (guard (c.verify public_key (signed_text (take n payload)) (drop n payload))
            bad_signature)
          _ h3 in
      let (t', g5, h5) = >>=-eq-ok (or_fail (c.unmarshal (take n payload)) bad_claims) _ h4 in
      let (_, g6, h6) = >>=-eq-ok (guard (not (ltℤ t'.expires_at now)) expired) _ h5 in
      let same : t' ≡ t = cc in
      record {
        message = take n payload;
        signature = drop n payload;
        header_ok = prefix_split token paseto_header (guard_passed _ _ g1);
        decoded = or_fail_found _ _ g2 ∙ ap some (sym (take-append-drop n payload));
        sized = length-drop n payload ∙ ground (arith, guard_passed _ _ g3);
        signed = guard_passed _ _ g4;
        read = or_fail_found _ _ g5 ∙ ap some same;
        in_time = rw (← same) (ground (arith, guard_passed _ _ g6));
      }
