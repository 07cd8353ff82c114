-- ===== src/Swarm/Relay/Served.antt =====
-- swarm/relay.go: connections that come, send and go in any order, and what holds of the sessions
-- after all of them.
use gole.Base.{
  ℕ, ◌≡◌, refl, ◌≢◌, ◌∙◌, sym, ap, subst, none, some, List, [], ◌∷◌, arith, Bytes, inl, inr,
  some_inj, Option-cases, Bool-cases, nat_eq, bytes_eq, nat_beq_iff, bytes_beq_iff, bytes_beq,
  nat_beq,
}
use gole.Base.Dict.{Dict, lookup, insert, lookup-insert, lookup-delete}
use gole.Base.Int.{ℤ}
use gole.Base.Result.{Result, ok, err, Result-cases}
use gole.Swarm.Types.Wire.{RelayFrameHeader, frame_auth_ok, frame_auth_fail, frame_auth}
use gole.Swarm.Paseto.{Crypto, verify_token}
use gole.Swarm.Relay.Frames.{WriteError, read_frame, plain_header}
use gole.Swarm.Relay.Server.{
  RelaySession, RelayServer, session_key, add_session, write_control_frame, local_route,
  handle_frame, session_of, check_auth, authenticate, start_conn, new_relay_server,
}
use gole.Swarm.Relay.Sessions.{
  Shrinks, write_to-Shrinks, remove_session_lem, remove_session-Shrinks, handle_frame-Shrinks,
}
use gole.Swarm.Relay.Run.{
  RelayEvent, RelayRun, after_frame, after_start, closes, connects, finish, receives, relay_run,
  relay_step,
}

-- The session is of an address that a token under the relay's key has granted.
pub record IsAdmitted (c : Crypto) (key : Bytes) (s : RelaySession) : Type 0 where
  pub token : Bytes
  pub now : ℤ
  pub verified : verify_token c token key now ≡ ok s.claims
  pub named : s ≡ session_of s.id s.claims

pub record IsServed (c : Crypto) (key : Bytes) (w : RelayRun) : Type 0 where
  pub key_kept : w.server.controller_pub_key ≡ key
  pub filed :
      (k : Bytes) (s : RelaySession)
      → lookup k w.server.sessions ≡ some s
      → (session_key s ≡ k) × (lookup s.id w.live ≡ some s)
  pub admitted :
      (id : ℕ) (s : RelaySession) → lookup id w.live ≡ some s → (s.id ≡ id) × IsAdmitted c key s

module _ (c : Crypto) where
  finish-IsServed :
      (key : Bytes) (id : ℕ) (s : RelaySession) (w : RelayRun)
      → lookup id w.live ≡ some s
      → IsServed c key w
      → IsServed c key (finish id s w)
  unfolding finish
  finish-IsServed key id s w f i =
      let own = i.admitted id s f in
      record {
        key_kept = (remove_session-Shrinks s w.server).key_kept ∙ i.key_kept;
        filed = λ k t h.
            let (g, d) = (remove_session_lem s w.server k t).0 h in
            let (kk, lv) = i.filed k t g in
            let apart : id ≢ t.id = λ e.
              let same : s ≡ t = some_inj (sym f ∙ (ap (λ z. lookup z w.live) e ∙ lv)) in
              elim d [
                | inl n ↦ absurd (n (sym kk ∙ ap session_key (sym same)))
                | inr n ↦ absurd (n (ap (λ z. z.id) (sym same)))
              ] in
            (kk, ground (arith, lookup-delete id t.id w.live, nat_beq_iff id t.id, apart, lv));
        admitted = λ j t h. i.admitted j t (ground (arith, lookup-delete id j w.live, h));
      }

  shrunk-IsServed :
      (key : Bytes) (live : Dict ℕ RelaySession) (r r' : RelayServer)
      → Shrinks r r'
      → IsServed c key (record { server = r; live = live })
      → IsServed c key (record { server = r'; live = live })
  shrunk-IsServed key live r r' x i = record {
    key_kept = x.key_kept ∙ i.key_kept;
    filed = λ k s h. i.filed k s (x.fewer k s h);
    admitted = i.admitted;
  }

  after_frame-IsServed :
      (key : Bytes) (id : ℕ) (s : RelaySession) (live : Dict ℕ RelaySession) (r : RelayServer)
      (p : RelayServer × Result WriteError (Unit {0}))
      → lookup id live ≡ some s
      → Shrinks r p.0
      → IsServed c key (record { server = r; live = live })
      → IsServed c key (after_frame id s live p)
  unfolding after_frame
  after_frame-IsServed key id s live r (r', ok u) f x i = shrunk-IsServed key live r r' x i
  after_frame-IsServed key id s live r (r', err e) f x i =
      finish-IsServed key id s (record { server = r'; live = live }) f
        (shrunk-IsServed key live r r' x i)

  check_auth-IsAdmitted :
      (id : ℕ) (h : RelayFrameHeader) (payload key : Bytes) (now : ℤ) (s : RelaySession)
      → check_auth c id h payload key now ≡ ok s
      → (s.id ≡ id) × IsAdmitted c key s
  unfolding check_auth session_of
  check_auth-IsAdmitted id h payload key now s e = elim (Bool-cases (nat_beq h.kind frame_auth)) [
    | inl b ↦ elim (Result-cases (verify_token c payload key now)) [
      | inl (x, q) ↦ absurd (ground (arith, b, q))
      | inr (claims, q) ↦
          let same : session_of id claims ≡ s = ground (arith, b, q) in
          subst (λ z. (z.id ≡ id) × IsAdmitted c key z) same
            (refl, record { token = payload; now = now; verified = q; named = refl })
    ]
    | inr b ↦ absurd (ground (arith, b))
  ]

  pub authenticate-IsAdmitted :
      (id : ℕ) (input : Bytes) (now : ℤ) (r : RelayServer) (s : RelaySession) (rest : Bytes)
      → authenticate c id input now r ≡ ok (s, rest)
      → (s.id ≡ id) × IsAdmitted c r.controller_pub_key s
  unfolding authenticate session_of
  authenticate-IsAdmitted id input now r s rest h = elim (Result-cases (read_frame input)) [
    | inl (x, q) ↦ absurd (ground (arith, q))
    | inr (f, q) ↦ elim (Result-cases (check_auth c id f.0 f.1.0 r.controller_pub_key now)) [
      | inl (x, g) ↦ absurd (ground (arith, q, g))
      | inr (t, g) ↦
          let same : t ≡ s = ground (arith, q, g) in
          subst (λ z. (z.id ≡ id) × IsAdmitted c r.controller_pub_key z) same
            (check_auth-IsAdmitted id f.0 f.1.0 r.controller_pub_key now t g)
    ]
  ]

  admit-IsServed :
      (key : Bytes) (id : ℕ) (s : RelaySession) (w : RelayRun) (r : RelayServer)
      → lookup id w.live ≡ none
      → (s.id ≡ id) × IsAdmitted c key s
      → Shrinks w.server r
      → IsServed c key w
      → IsServed c key (record { server = add_session s r; live = insert id s w.live })
  unfolding add_session
  admit-IsServed key id s w r f a x i = record {
    key_kept = x.key_kept ∙ i.key_kept;
    filed = λ k t h. elim (Bool-cases (bytes_beq (session_key s) k)) [
      | inl b ↦
          let e : s ≡ t =
            some_inj (ground (arith, b, lookup-insert (session_key s) k s r.sessions)) in
          (
            ap session_key (sym e) ∙ (bytes_beq_iff (session_key s) k).0 b,
            subst (λ z. lookup z.id (insert id s w.live) ≡ some z) e
                (ground (arith, a.0, lookup-insert id s.id s w.live, nat_beq_iff id s.id)),
          )
      | inr b ↦
          let (kk, lv) =
            i.filed k t
              (x.fewer k t (ground (arith, b, lookup-insert (session_key s) k s r.sessions))) in
          (kk, ground (arith, lookup-insert id t.id s w.live, nat_beq_iff id t.id, lv, f))
    ];
    admitted = λ j t h. elim (Bool-cases (nat_beq id j)) [
      | inl b ↦
          let e : s ≡ t = some_inj (ground (arith, b, lookup-insert id j s w.live)) in
          subst (λ z. (z.id ≡ j) × IsAdmitted c key z) e (a.0 ∙ (nat_beq_iff id j).0 b, a.1)
      | inr b ↦ i.admitted j t (ground (arith, b, lookup-insert id j s w.live))
    ];
  }

  start_conn-IsServed :
      (key : Bytes) (id : ℕ) (input : Bytes) (now : ℤ) (w : RelayRun)
      → lookup id w.live ≡ none
      → IsServed c key w
      → IsServed c key (after_start id w.live (start_conn c id input now w.server))
  unfolding after_start start_conn write_control_frame
  start_conn-IsServed key id input now w f i =
      elim (Result-cases (authenticate c id input now w.server)) [
        | inl (e, q) ↦
            rw (q, start_conn)
              (shrunk-IsServed key w.live w.server (write_control_frame id frame_auth_fail w.server)
                (write_to-Shrinks id (plain_header frame_auth_fail 0) [] w.server) i)
        | inr (x, q) ↦
            rw (q, start_conn)
              (let (own, a) = authenticate-IsAdmitted id input now w.server x.0 x.1 q in
                admit-IsServed key id x.0 w (write_control_frame id frame_auth_ok w.server) f
                  (own, subst (λ k. IsAdmitted c k x.0) i.key_kept a)
                  (write_to-Shrinks id (plain_header frame_auth_ok 0) [] w.server) i)
      ]

  relay_step-IsServed :
      (key : Bytes) (e : RelayEvent) (w : RelayRun)
      → IsServed c key w
      → IsServed c key (relay_step c local_route e w)
  unfolding relay_step
  relay_step-IsServed key (connects id input now) w i = elim (Option-cases (lookup id w.live)) [
    | inl q ↦ rw (q, relay_step) (start_conn-IsServed key id input now w q i)
    | inr (s, q) ↦ rw (q, relay_step) i
  ]
  relay_step-IsServed key (receives id h payload) w i = elim (Option-cases (lookup id w.live)) [
    | inl q ↦ rw (q, relay_step) i
    | inr (s, q) ↦
        rw (q, relay_step)
          (after_frame-IsServed key id s w.live w.server
            (handle_frame local_route s h payload w.server) q
            (handle_frame-Shrinks s h payload w.server) i)
  ]
  relay_step-IsServed key (closes id) w i = elim (Option-cases (lookup id w.live)) [
    | inl q ↦ rw (q, relay_step) i
    | inr (s, q) ↦ rw (q, relay_step) (finish-IsServed key id s w q i)
  ]

  relay_run-IsServed :
      (key : Bytes) (es : List RelayEvent) (w : RelayRun)
      → IsServed c key w
      → IsServed c key (relay_run c local_route es w)
  unfolding relay_run
  relay_run-IsServed key [] w i = i
  relay_run-IsServed key (e ∷ es) w i =
      relay_run-IsServed key es (relay_step c local_route e w) (relay_step-IsServed key e w i)

  -- After any interleaving of connections that come, send frames and go, with the local router,
  -- every session that the relay can route to is one of a connection still in its loop, stands
  -- under its own address, and has the address and claims of a token that verified under the
  -- relay's key.
  pub new_relay_server-IsServed :
      (key : Bytes) (es : List RelayEvent)
      → IsServed c key
          (relay_run c local_route es (record { server = new_relay_server key; live = [] }))
  unfolding new_relay_server lookup
  new_relay_server-IsServed key es = relay_run-IsServed key es _ (record {
    key_kept = refl;
    filed = λ k s h. absurd (ground (arith, h));
    admitted = λ id s h. absurd (ground (arith, h));
  })
