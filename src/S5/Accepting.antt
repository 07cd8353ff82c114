-- ===== src/S5/Accepting.antt =====
-- s5/s5.go: all that parseTarget can return, and what has then been read.
use gole.Base.{
  ℕ, ◌-◌, ◌≤◌, ◌<◌, ◌≡◌, ◌≢◌, refl, ◌∙◌, sym, ap, subst, ◌⊎◌, inl, inr, List, [], ◌∷◌, ◌++◌, arith,
  Bytes, length, length-append, concat, All, ltb, if◌then◌else◌, Bool-cases, nat_eq, nat_beq,
}
use mathlib.Core.List.{append_assoc}
use gole.Base.Result.{ok, err, ◌>>=◌, Result-cases}
use gole.Base.Decimal.{itoa}
use gole.S5.Stream.{IoError, read_more, read_at_least, read_full, byte_at}
use gole.S5.Address.{join_host_port}
use gole.S5.Server.{
  Refusal, read_failed, bad_version, bad_command, request_extra_data, slice_panic, fill,
  request_length, target_host, port_of, with_port, parse_target,
}
use gole.S5.Reading.{byte_at-append}
use gole.S5.Requests.{
  Target, IsTarget, request, host_text, fits, outcome, parse_target_run, same_length,
}
use gole.S5.Rebuilding.{read_more_sound, rebuild}

-- The rest of a message is read up to its length, or there is an error that is no panic.
fill_cases :
    (n : ℕ) (buf : Bytes) (e : IoError) (cs : List Bytes)
    → ((x : Refusal) × (x ≢ slice_panic) × (fill request_extra_data n buf e cs ≡ err x))
      ⊎ ((r : Bytes × List Bytes) × (fill request_extra_data n buf e cs ≡ ok r)
          × (buf ++ concat cs ≡ r.0 ++ concat r.1)
          × (length r.0 ≡ n))
unfolding fill read_full read_at_least
fill_cases n buf e cs = elim (Bool-cases (nat_beq (length buf) n)) [
  | inl b ↦ inr ((buf, cs), rw b refl, refl, ground (arith, b))
  | inr b ↦ elim (Bool-cases (ltb (length buf) n)) [
    | inl d ↦ elim (Result-cases (read_more (n - length buf) (n - length buf) e [] cs)) [
      | inl (x, q) ↦ inl (read_failed x, (λ h. cc), rw (b, d, q) refl)
      | inr (r, q) ↦
          let (whole, low, high) =
            read_more_sound (n - length buf) (n - length buf) e [] cs q (omega arith) in
          let under : length buf < n = ground (arith, d) in
          inr (
            (buf ++ r.0, r.1),
            rw (b, d, q) refl,
            ap (λ z. buf ++ z) whole ∙ sym (append_assoc buf r.0 (concat r.1)),
            omega (arith, under, low, high, length-append buf r.0),
          )
    ]
    | inr d ↦ inl (request_extra_data, (λ h. cc), rw (b, d) refl)
  ]
]

All-append : (a b : Bytes) → All (λ x. x < 256) (a ++ b) → All (λ x. x < 256) a
All-append [] b h = tt
All-append (x ∷ a) b h = (h.0, All-append a b h.1)

request_length_error : (buf : Bytes) (x : Refusal) → request_length buf ≡ err x → x ≢ slice_panic
unfolding request_length
request_length_error buf x h p = ground (arith, h, p)

request_length_least : (buf : Bytes) (n : ℕ) → request_length buf ≡ ok n → 5 ≤ n
unfolding request_length
request_length_least buf n h = elim (Bool-cases (nat_beq (byte_at 3 buf) 1)) [
  | inl b ↦ ground (arith, b, h)
  | inr b ↦ elim (Bool-cases (nat_beq (byte_at 3 buf) 4)) [
    | inl d ↦ ground (arith, b, d, h)
    | inr d ↦ ground (arith, b, d, h)
  ]
]

same_byte :
    (i : ℕ) (a b c d : Bytes)
    → i < length a
    → i < length c
    → a ++ b ≡ c ++ d
    → byte_at i a ≡ byte_at i c
same_byte i a b c d h k e =
    sym (byte_at-append i a b h) ∙ (ap (byte_at i) e ∙ byte_at-append i c d k)

-- What parseTarget returns once it has read a request
abbrev pub Parsed : IoError → List Bytes → Type 0
Parsed e cs =
    (reserved : ℕ) × (t : Target) × (port : ℕ) × (rest : List Bytes) × IsTarget t
    × (port < 65536)
    × (concat cs ≡ request reserved t port ++ concat rest)
    × (parse_target e cs
        ≡ (if fits t then ok (join_host_port (host_text t) (itoa port), rest) else err slice_panic))

abbrev pub Refused : IoError → List Bytes → Type 0
Refused e cs = (x : Refusal) × (x ≢ slice_panic) × (parse_target e cs ≡ err x)

parsed :
    (e : IoError) (cs mid rest : List Bytes) (buf msg : Bytes)
    → All (λ b. b < 256) (concat cs)
    → read_more 263 5 e [] cs ≡ ok (buf, mid)
    → concat cs ≡ buf ++ concat mid
    → 5 ≤ length buf
    → byte_at 0 buf ≡ 5
    → byte_at 1 buf ≡ 1
    → request_length buf ≡ ok (length msg)
    → fill request_extra_data (length msg) buf e mid ≡ ok (msg, rest)
    → buf ++ concat mid ≡ msg ++ concat rest
    → Parsed e cs
parsed e cs mid rest buf msg bytes q whole five v c l f filled =
    let least : 5 ≤ length msg = request_length_least buf (length msg) l in
    let field : (i : ℕ) → i < 5 → byte_at i msg ≡ byte_at i buf = λ i k.
      same_byte i msg (concat rest) buf (concat mid) (omega (arith, k, least))
        (omega (arith, k, five)) (sym filled) in
    let all : concat cs ≡ msg ++ concat rest = whole ∙ filled in
    let len : request_length msg ≡ ok (length msg) =
      same_length msg buf (field 3 (omega arith)) (field 4 (omega arith)) ∙ l in
    let (r, t, p, is_target, small, e_msg) =
      rebuild msg (All-append msg (concat rest) (subst (All (λ b. b < 256)) all bytes))
        (field 0 (omega arith) ∙ v) (field 1 (omega arith) ∙ c) len in
    (
      r,
      t,
      p,
      rest,
      is_target,
      small,
      all ∙ ap (λ z. z ++ concat rest) e_msg,
      parse_target_run e cs mid rest (length msg) buf msg q v c l f
          ∙ (ap (λ z. target_host z >>= with_port (port_of (length z) z) rest) e_msg
              ∙ outcome r t p rest is_target small),
    )

after_read :
    (e : IoError) (cs mid : List Bytes) (buf : Bytes)
    → All (λ b. b < 256) (concat cs)
    → read_more 263 5 e [] cs ≡ ok (buf, mid)
    → Refused e cs ⊎ Parsed e cs
unfolding parse_target read_at_least
after_read e cs mid buf bytes q = elim (Bool-cases (nat_beq (byte_at 0 buf) 5)) [
  | inr b ↦ inl (bad_version, (λ h. cc), rw (q, b) refl)
  | inl b ↦ elim (Bool-cases (nat_beq (byte_at 1 buf) 1)) [
    | inr d ↦ inl (bad_command, (λ h. cc), rw (q, b, d) refl)
    | inl d ↦ elim (Result-cases (request_length buf)) [
      | inl (x, l) ↦ inl (x, request_length_error buf x l, rw (q, b, d, l) refl)
      | inr (n, l) ↦ elim (fill_cases n buf e mid) [
        | inl (x, no_panic, f) ↦ inl (x, no_panic, rw (q, b, d, l, f) refl)
        | inr (m, f, filled, size) ↦
            let (whole, low, high) = read_more_sound 263 5 e [] cs q (omega arith) in
            inr (
              parsed e cs mid m.1 buf m.0 bytes q whole low (ground (arith, b)) (ground (arith, d))
                (l ∙ ap ok (sym size)) (ap (λ z. fill request_extra_data z buf e mid) size ∙ f)
                filled)
      ]
    ]
  ]
]

-- Whatever a client sends, parseTarget returns an error, or what it has read is a request to
-- connect, reserved byte and all, and the bytes after it are still unread: then it returns the
-- text of the host and the port that the request names, and panics exactly when the name has 251
-- bytes or more.
pub parse_target_sound :
    (e : IoError) (cs : List Bytes) → All (λ b. b < 256) (concat cs) → Refused e cs ⊎ Parsed e cs
unfolding parse_target read_at_least
parse_target_sound e cs bytes = elim (Result-cases (read_more 263 5 e [] cs)) [
  | inl (x, q) ↦ inl (read_failed x, (λ h. cc), rw q refl)
  | inr (r, q) ↦ after_read e cs r.1 r.0 bytes q
]
