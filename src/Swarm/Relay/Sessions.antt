-- ===== src/Swarm/Relay/Sessions.antt =====
-- swarm/relay.go: which sessions the relay keeps while its connections come, send and go in any
-- order.
use gole.Base.{
  ℕ, ◌≡◌, refl, ◌≢◌, ◌↔◌, ◌⊎◌, ◌∙◌, sym, ap, Bool, true, false, none, some, [], arith, Bytes, inl,
  inr, some_inj, Option-cases, Bool-cases, nat_eq, bytes_eq, bytes_beq_iff, ◌==◌, if◌then◌else◌,
  length, bytes_beq, nat_beq,
}
use gole.Base.Dict.{lookup, delete, lookup-delete}
use gole.Base.Result.{Result, ok, err}
use gole.Swarm.Types.Wire.{RelayFrameHeader, frame_ping, frame_data, frame_pong}
use gole.Swarm.Types.Address.{EndpointAddr, addr_key}
use gole.Swarm.Relay.Frames.{WriteError, plain_header, addressed_header}
use gole.Swarm.Relay.Server.{
  RelaySession, RelayServer, write_to, session_key, remove_session, get_session, write_no_route,
  forwarded, local_route, destination, after_route, handle_frame,
}

-- The server keeps its key and gains no session.
pub record Shrinks (r r' : RelayServer) : Type 0 where
  pub key_kept : r'.controller_pub_key ≡ r.controller_pub_key
  pub fewer :
      (k : Bytes) (s : RelaySession) → lookup k r'.sessions ≡ some s → lookup k r.sessions ≡ some s

pub Shrinks-refl : (r : RelayServer) → Shrinks r r
Shrinks-refl r = record { key_kept = refl; fewer = λ k s h. h }

Shrinks-trans : (r s t : RelayServer) → Shrinks r s → Shrinks s t → Shrinks r t
Shrinks-trans r s t f g = record {
  key_kept = g.key_kept ∙ f.key_kept;
  fewer = λ k x h. f.fewer k x (g.fewer k x h);
}

pub write_to-Shrinks :
    (id : ℕ) (h : RelayFrameHeader) (payload : Bytes) (r : RelayServer)
    → Shrinks r (write_to id h payload r).0
unfolding write_to
write_to-Shrinks id h payload r = record { key_kept = refl; fewer = λ k s h. h }

-- The two ways in which removeSession goes.
data Removal (s : RelaySession) (r : RelayServer) : Type 0 where
  none_removed :
      remove_session s r ≡ r
      → ((t : RelaySession) → lookup (session_key s) r.sessions ≡ some t → t.id ≢ s.id)
      → Removal s r
  removed :
      (cur : RelaySession)
      → lookup (session_key s) r.sessions ≡ some cur
      → cur.id ≡ s.id
      → (remove_session s r).sessions ≡ delete (session_key s) r.sessions
      → (remove_session s r).controller_pub_key ≡ r.controller_pub_key
      → Removal s r

removal : (s : RelaySession) (r : RelayServer) → Removal s r
unfolding remove_session
removal s r = elim (Option-cases (lookup (session_key s) r.sessions)) [
  | inl q ↦ none_removed (rw (q, remove_session) refl) (λ t h. ground (arith, q))
  | inr (cur, q) ↦ elim (Bool-cases (nat_eq.test cur.id s.id)) [
    | inl b ↦
        removed cur q (ground (arith, b)) (rw (q, remove_session, b) refl)
          (rw (q, remove_session, b) refl)
    | inr b ↦
        none_removed (rw (q, remove_session, b) refl)
          (λ t h e. ground (arith, b, ap (λ x. x.id) (some_inj (sym q ∙ h))))
  ]
]

-- removeSession takes away a session exactly where it stands under its own key and is that very
-- session: a newer session of the same endpoint stays, and so does every other one.
pub remove_session_lem :
    (s : RelaySession) (r : RelayServer) (k : Bytes) (t : RelaySession)
    → (lookup k (remove_session s r).sessions ≡ some t)
      ↔ ((lookup k r.sessions ≡ some t) × ((k ≢ session_key s) ⊎ (t.id ≢ s.id)))
remove_session_lem s r k t = elim (removal s r) [
  | none_removed e n ↦
      let l : lookup k (remove_session s r).sessions ≡ lookup k r.sessions =
        ap (λ z. lookup k z.sessions) e in
      (
        λ h. (
          sym l ∙ h,
          elim (Bool-cases (bytes_beq (session_key s) k)) [
            | inl b ↦ inr (
                n t (
                  ap (λ z. lookup z r.sessions) ((bytes_beq_iff (session_key s) k).0 b)
                  ∙ (sym l ∙ h)))
            | inr b ↦ inl (λ w. ground (arith, b, bytes_beq_iff (session_key s) k))
          ],
        ),
        λ p. l ∙ p.0,
      )
  | removed cur q i e key ↦
      let l : lookup k (remove_session s r).sessions
          ≡ (if session_key s == k then none else lookup k r.sessions) =
        ap (λ z. lookup k z) e ∙ lookup-delete (session_key s) k r.sessions in
      elim (Bool-cases (bytes_beq (session_key s) k)) [
        | inl b ↦
            let same = (bytes_beq_iff (session_key s) k).0 b in
            let found = q ∙ refl in
            (
              λ h. absurd (ground (arith, b, l)),
              λ p. elim p.1 [
                | inl d ↦ absurd (d (sym same))
                | inr d ↦ absurd (
                    d (
                      ap (λ x. x.id)
                        (some_inj (sym p.0 ∙ (ap (λ z. lookup z r.sessions) (sym same) ∙ q)))
                      ∙ i))
              ],
            )
        | inr b ↦ (
          λ h.
              (ground (arith, b, l), inl (λ w. ground (arith, b, bytes_beq_iff (session_key s) k))),
          λ p. ground (arith, b, l, p.0),
        )
      ]
]

pub remove_session-Shrinks : (s : RelaySession) (r : RelayServer) → Shrinks r (remove_session s r)
remove_session-Shrinks s r = record {
  key_kept = elim (removal s r) [
    | none_removed e n ↦ ap (λ z. z.controller_pub_key) e
    | removed cur q i e k ↦ k
  ];
  fewer = λ k t h. ((remove_session_lem s r k t).0 h).0;
}

forwarded-Shrinks :
    (t : RelaySession) (r : RelayServer) (p : RelayServer × Result WriteError (Unit {0}))
    → Shrinks r p.0
    → Shrinks r (forwarded t p).0
unfolding forwarded
forwarded-Shrinks t r (r', ok u) x = x
forwarded-Shrinks t r (r', err e) x = Shrinks-trans r r' _ x (remove_session-Shrinks t r')

local_route-Shrinks :
    (src : RelaySession) (dst : EndpointAddr) (h : RelayFrameHeader) (payload : Bytes)
    (r : RelayServer)
    → Shrinks r (local_route src dst h payload r).0
unfolding local_route
local_route-Shrinks src dst h payload r = elim (Option-cases (get_session (addr_key dst) r)) [
  | inl q ↦ rw (q, local_route) (Shrinks-refl r)
  | inr (t, q) ↦
      rw (q, local_route)
        (forwarded-Shrinks t r
          (write_to t.id (addressed_header frame_data src.addr (length payload)) payload r)
          (write_to-Shrinks t.id (addressed_header frame_data src.addr (length payload)) payload r))
]

after_route-Shrinks :
    (id : ℕ) (h : RelayFrameHeader) (r : RelayServer) (p : RelayServer × Result WriteError Bool)
    → Shrinks r p.0
    → Shrinks r (after_route id h p)
unfolding after_route write_no_route
after_route-Shrinks id h r (r', err e) x = x
after_route-Shrinks id h r (r', ok true) x = x
after_route-Shrinks id h r (r', ok false) x = Shrinks-trans r r' _ x (write_to-Shrinks id _ [] r')

pub handle_frame-Shrinks :
    (s : RelaySession) (h : RelayFrameHeader) (payload : Bytes) (r : RelayServer)
    → Shrinks r (handle_frame local_route s h payload r).0
unfolding handle_frame
handle_frame-Shrinks s h payload r = elim (Bool-cases (nat_beq h.kind frame_ping)) [
  | inl p ↦ rw p (write_to-Shrinks s.id (plain_header frame_pong (length payload)) payload r)
  | inr p ↦ elim (Bool-cases (nat_beq h.kind frame_data)) [
    | inl d ↦
        rw (p, d)
          (after_route-Shrinks s.id h r (local_route s (destination h) h payload r)
            (local_route-Shrinks s (destination h) h payload r))
    | inr d ↦ rw (p, d) (Shrinks-refl r)
  ]
]
