-- ===== src/Swarm/Relay/RoundTrip.antt =====
-- swarm/relay.go: what writeFrame writes, readFrame reads back, and the other way round.
use gole.Base.{
  ℕ, ◌^◌, ◌≤◌, ◌<◌, ◌≡◌, refl, ap, subst, ◌∙◌, sym, [], ◌∷◌, ◌++◌, arith, Bytes, All, length, take,
  drop, take-append, drop-append, take-append-drop, length-append, length-take, leb, nat_eq, inl,
  inr, Bool-cases,
}
use gole.Base.Result.{ok, Result-cases}
use mathlib.Core.List.{append_assoc, append-nil}
use gole.Base.Words.{le_bytes, le_value}
use gole.Swarm.Types.Wire.{RelayFrameHeader, max_relay_payload}
use gole.Swarm.Relay.Frames.{
  write, header_bytes, write_payload, write_frame, read_full, byte_at, header_of, read_payload,
  read_frame,
}

-- Every field of the header fits its place, and the length is the payload's, within the limit.
pub record FrameFits (h : RelayFrameHeader) (payload : Bytes) : Type 0 where
  pub endpoint_fits : h.dst_endpoint < 2 ^ 16
  pub sized : h.payload_len ≡ length payload
  pub within : length payload ≤ max_relay_payload

pub read_full-append : (b rest : Bytes) → read_full (length b) (b ++ rest) ≡ ok (b, rest)
unfolding read_full
read_full-append b rest =
    ground (arith, length-append b rest, take-append b rest, drop-append b rest)

header_of-header_bytes :
    (h : RelayFrameHeader)
    → h.dst_endpoint < 2 ^ 16
    → h.payload_len < 2 ^ 32
    → header_of (header_bytes h) ≡ h
unfolding header_of header_bytes byte_at le_bytes le_value
header_of-header_bytes h e p = ground (arith)

length-header_bytes : (h : RelayFrameHeader) → length (header_bytes h) ≡ 9
unfolding header_bytes le_bytes
length-header_bytes h = refl

read_payload-append :
    (h : RelayFrameHeader) (payload rest : Bytes)
    → FrameFits h payload
    → read_payload h (payload ++ rest) ≡ ok (h, (payload, rest))
unfolding read_payload
read_payload-append h [] rest f = ground (arith, f.sized)
read_payload-append h (x ∷ xs) rest f =
    rw (f.sized, read_full-append (x ∷ xs) rest) (ground (arith, f.within))

read_full-header :
    (h : RelayFrameHeader) (rest : Bytes)
    → read_full 9 (header_bytes h ++ rest) ≡ ok (header_bytes h, rest)
unfolding header_bytes le_bytes
read_full-header h rest = read_full-append (header_bytes h) rest

-- A frame whose fields fit is read back from the bytes that writeFrame writes for it, whatever
-- follows them.
pub read_frame-bytes :
    (h : RelayFrameHeader) (payload rest : Bytes)
    → FrameFits h payload
    → read_frame (header_bytes h ++ (payload ++ rest)) ≡ ok (h, (payload, rest))
unfolding read_frame
read_frame-bytes h payload rest f = rw (
  read_full-header h (payload ++ rest),
  header_of-header_bytes h f.endpoint_fits (omega (arith, f.sized, f.within)),
  read_payload-append h payload rest f,
  read_frame,
)

-- A frame that is written without a fault is the header's bytes and the payload, behind what was
-- written before.
pub write_frame-bytes :
    (h : RelayFrameHeader) (payload : Bytes) (out : Bytes)
    → write_frame h payload (record { written = out; faults = [] })
      ≡ (record { written = out ++ (header_bytes h ++ payload); faults = [] }, ok tt)
unfolding write_frame write write_payload
write_frame-bytes h [] out = simp append-nil
write_frame-bytes h (x ∷ xs) out = ground (arith, append_assoc out (header_bytes h) (x ∷ xs))

header_bytes-header_of :
    (b : Bytes) → length b ≡ 9 → All (λ x. x < 256) b → header_bytes (header_of b) ≡ b
unfolding header_of header_bytes byte_at le_bytes le_value
header_bytes-header_of (k ∷ d ∷ g ∷ e0 ∷ e1 ∷ p0 ∷ p1 ∷ p2 ∷ p3 ∷ []) n a = ground (arith, a)
header_bytes-header_of [] n a = absurd (omega arith)
header_bytes-header_of (k ∷ []) n a = absurd (omega arith)
header_bytes-header_of (k ∷ d ∷ []) n a = absurd (omega arith)
header_bytes-header_of (k ∷ d ∷ g ∷ []) n a = absurd (omega arith)
header_bytes-header_of (k ∷ d ∷ g ∷ e0 ∷ []) n a = absurd (omega arith)
header_bytes-header_of (k ∷ d ∷ g ∷ e0 ∷ e1 ∷ []) n a = absurd (omega arith)
header_bytes-header_of (k ∷ d ∷ g ∷ e0 ∷ e1 ∷ p0 ∷ []) n a = absurd (omega arith)
header_bytes-header_of (k ∷ d ∷ g ∷ e0 ∷ e1 ∷ p0 ∷ p1 ∷ []) n a = absurd (omega arith)
header_bytes-header_of (k ∷ d ∷ g ∷ e0 ∷ e1 ∷ p0 ∷ p1 ∷ p2 ∷ []) n a = absurd (omega arith)
header_bytes-header_of (k ∷ d ∷ g ∷ e0 ∷ e1 ∷ p0 ∷ p1 ∷ p2 ∷ p3 ∷ x ∷ xs) n a = absurd (omega arith)

All-append_left : (P : ℕ → Type 0) (xs ys : Bytes) → All P (xs ++ ys) → All P xs
All-append_left P [] ys a = tt
All-append_left P (x ∷ xs) ys a = (a.0, All-append_left P xs ys a.1)

read_full_sound :
    (n : ℕ) (s b rest : Bytes) → read_full n s ≡ ok (b, rest) → (s ≡ b ++ rest) × (length b ≡ n)
unfolding read_full
read_full_sound n s b rest e = elim (Bool-cases (leb n (length s))) [
  | inl q ↦
      let t : take n s ≡ b = ground (arith) in
      let d : drop n s ≡ rest = ground (arith) in
      (
        sym (take-append-drop n s) ∙ (ap (λ z. z ++ drop n s) t ∙ ap (λ z. b ++ z) d),
        ap length (sym t) ∙ length-take n s (ground arith),
      )
  | inr q ↦ absurd (ground (arith))
]

read_payload_sound :
    (h h' : RelayFrameHeader) (s payload rest : Bytes)
    → read_payload h s ≡ ok (h', (payload, rest))
    → (h ≡ h')
      × (s ≡ payload ++ rest)
      × (h.payload_len ≡ length payload)
      × (length payload ≤ max_relay_payload)
unfolding read_payload
read_payload_sound h h' s payload rest e = elim (Result-cases (read_full h.payload_len s)) [
  | inl (x, q) ↦ ground (arith, q)
  | inr (x, q) ↦ ground (arith, q, read_full_sound h.payload_len s x.0 x.1 q)
]

-- What readFrame accepts from a stream of bytes is a frame as writeFrame writes it: the header's
-- nine bytes, the payload, as long as the header says and within the limit, and what is left.
pub read_frame_sound :
    (s : Bytes) (h : RelayFrameHeader) (payload rest : Bytes)
    → All (λ x. x < 256) s
    → read_frame s ≡ ok (h, (payload, rest))
    → (s ≡ header_bytes h ++ (payload ++ rest))
      × (h.payload_len ≡ length payload)
      × (length payload ≤ max_relay_payload)
unfolding read_frame
read_frame_sound s h payload rest a e = elim (Result-cases (read_full 9 s)) [
  | inl (x, q) ↦ absurd (ground (arith, q))
  | inr (x, q) ↦
      let (split, nine) = read_full_sound 9 s x.0 x.1 q in
      let body : read_payload (header_of x.0) x.1 ≡ ok (h, (payload, rest)) = ground (arith, q) in
      let (same, tail, sized, within) =
        read_payload_sound (header_of x.0) h x.1 payload rest body in
      let head : x.0 ≡ header_bytes h =
        sym (
          header_bytes-header_of x.0 nine
            (All-append_left (λ y. y < 256) x.0 x.1 (subst (All (λ y. y < 256)) split a)))
        ∙ ap header_bytes same in
      (
        split ∙ (ap (λ z. x.0 ++ z) tail ∙ ap (λ z. z ++ (payload ++ rest)) head),
        sym (ap (λ z. z.payload_len) same) ∙ sized,
        within,
      )
]

-- readFrame takes at least one byte.
pub read_frame-shorter :
    (s : Bytes) (h : RelayFrameHeader) (payload rest : Bytes)
    → read_frame s ≡ ok (h, (payload, rest))
    → length rest < length s
unfolding read_frame
read_frame-shorter s h payload rest e = elim (Result-cases (read_full 9 s)) [
  | inl (x, q) ↦ absurd (ground (arith, q))
  | inr (x, q) ↦
      let (split, nine) = read_full_sound 9 s x.0 x.1 q in
      let body : read_payload (header_of x.0) x.1 ≡ ok (h, (payload, rest)) = ground (arith, q) in
      let (same, tail, sized, within) =
        read_payload_sound (header_of x.0) h x.1 payload rest body in
      omega (
        arith,
        ap length split,
        ap length tail,
        length-append x.0 x.1,
        length-append payload rest,
        nine,
      )
]

-- A frame whose endpoint ID fits 16 bits and whose length is the payload's, within the limit, is
-- written without error to a writer that takes it, and read back with whatever follows it left.
pub read_frame-write_frame :
    (h : RelayFrameHeader) (payload tail : Bytes)
    → FrameFits h payload
    → ((write_frame h payload (record { written = []; faults = [] })).1 ≡ ok tt)
      × (read_frame
            ((write_frame h payload (record { written = []; faults = [] })).0.written ++ tail)
          ≡ ok (h, (payload, tail)))
read_frame-write_frame h payload tail f =
    let e = write_frame-bytes h payload [] in
    (
      ap (λ z. z.1) e,
      ap (λ z. read_frame (z.0.written ++ tail)) e
          ∙ (ap read_frame (append_assoc (header_bytes h) payload tail)
              ∙ read_frame-bytes h payload tail f),
    )
