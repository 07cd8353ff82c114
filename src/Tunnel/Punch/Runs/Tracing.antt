-- ===== src/Tunnel/Punch/Runs/Tracing.antt =====
-- holepunch.go: the flags of PunchUDP's receiver are set by messages of the peer's alone.
use gole.Base.{
  ◌≡◌, ◌≢◌, Bool-cases, refl, ◌∙◌, sym, ap, true, false, not, inl, inr, Bool, Option, none, some,
  List, [], ◌∷◌, ◌++◌, arith, Bytes, length, take, ltb, bytes_beq, bytes_beq_iff, bytes_eq, nat_eq,
  codes, ◌==◌,
}
use gole.Tunnel.Common.{contains}
use gole.Tunnel.Punch.Udp.{
  Packet, Receiver, reading, handling, quitting, done, Punch, start, on_timeout, close_late,
  sender_done, on_read, on_helo, on_okay, on_failure, on_message, on_packet, receiver_done,
  close_main, Step, send, retry, cancel, give_up, leave_late, leave, read, handle, quit, wake,
  close, return, Reach, here, later,
}
use gole.Tunnel.Punch.Invariant.Kept.{if-both}
use gole.Tunnel.Punch.Runs.{
  Event, came, timed, event_of, events, Among, Heard, Among-append, Heard-append,
}

-- The receiver handles what was read, and its flags are set by messages of the peer's.
record Traced (peer : Bytes) (es : List Event) (x : Receiver) (helo okay : Bool) : Type 0 where
  handled : (p : Packet) → x ≡ handling p → Among p es
  greeted : helo ≡ true → Heard peer (codes "HELO") es
  agreed : okay ≡ true → Heard peer (codes "OKAY") es

abbrev IsTraced : Bytes → List Event → Punch → Type 0
IsTraced peer es s = Traced peer es s.receiver s.helo s.okay

grow :
    (peer : Bytes) (es more : List Event) (s : Punch)
    → IsTraced peer es s
    → IsTraced peer (es ++ more) s
grow peer es more s k = record {
  handled = λ p e. Among-append p es more (k.handled p e);
  greeted = λ h. Heard-append peer (codes "HELO") es more (k.greeted h);
  agreed = λ o. Heard-append peer (codes "OKAY") es more (k.agreed o);
}

-- A receiver that handles no packet
rest :
    (peer : Bytes) (es : List Event) (s : Punch) (x : Receiver)
    → ((p : Packet) → x ≢ handling p)
    → IsTraced peer es s
    → IsTraced peer es (record s { receiver = x })
rest peer es s x n k = record {
  handled = λ p e. absurd (n p e);
  greeted = k.greeted;
  agreed = k.agreed;
}

helo-IsTraced :
    (peer : Bytes) (es : List Event) (s : Punch)
    → Heard peer (codes "HELO") es
    → IsTraced peer es s
    → IsTraced peer es (on_helo s)
unfolding on_helo
helo-IsTraced peer es s heard k =
    if-both (IsTraced peer es) s.helo (λ b. rest peer es s reading (λ p e. cc) k)
      (λ b.
        if-both (IsTraced peer es) (ltb s.wg 1) (λ d. k)
          (λ d. record { handled = λ p e. absurd cc; greeted = λ h. heard; agreed = k.agreed }))

okay-IsTraced :
    (peer : Bytes) (es : List Event) (s : Punch)
    → Heard peer (codes "OKAY") es
    → IsTraced peer es s
    → IsTraced peer es (on_okay s)
unfolding on_okay
okay-IsTraced peer es s heard k =
    if-both (IsTraced peer es) s.okay (λ b. rest peer es s reading (λ p e. cc) k)
      (λ b.
        if-both (IsTraced peer es) (ltb s.wg 1) (λ d. k)
          (λ d. record { handled = λ p e. absurd cc; greeted = k.greeted; agreed = λ o. heard }))

-- What is let through and is no HELO is an OKAY.
okay_word :
    (word : Bytes)
    → not (contains word (codes "HELO" ∷ codes "OKAY" ∷ [])) ≡ false
    → bytes_beq word (codes "HELO") ≡ false
    → word ≡ codes "OKAY"
unfolding contains
okay_word word known other = elim (Bool-cases (bytes_beq (codes "HELO") word)) [
  | inl b ↦
      let hello : word ≡ codes "HELO" = sym ((bytes_beq_iff (codes "HELO") word).0 b) in
      absurd (ground (arith, other, (bytes_beq_iff word (codes "HELO")).1 hello))
  | inr b ↦ sym ((bytes_beq_iff (codes "OKAY") word).0 (ground (arith, known, b)))
]

packet-IsTraced :
    (peer : Bytes) (es : List Event) (s : Punch) (p : Packet) (source : Option Bytes)
    → p.source ≡ source
    → s.receiver ≡ handling p
    → IsTraced peer es s
    → IsTraced peer es (on_packet peer p source s)
unfolding on_packet on_message on_failure
packet-IsTraced peer es s p none q e k = k
packet-IsTraced peer es s p (some source) q e k =
    let again : IsTraced peer es (record s { receiver = reading }) =
      rest peer es s reading (λ p e. cc) k in
    let stops : IsTraced peer es (record s { receiver = quitting }) =
      rest peer es s quitting (λ p e. cc) k in
    if-both (IsTraced peer es) (not (bytes_beq source peer)) (λ b. again)
      (λ b.
        if-both (IsTraced peer es) p.failed (λ d. stops)
          (λ d.
            let heard : (word : Bytes) → take 4 p.text ≡ word → Heard peer word es = λ word w.
              record {
                packet = p;
                among = k.handled p e;
                from_peer = q ∙ ap some ((bytes_beq_iff source peer).0 (ground (arith, b)));
                sound = d;
                says = w;
              } in
            if-both (IsTraced peer es) (ltb (length p.text) 4) (λ f. again)
              (λ f.
                if-both (IsTraced peer es)
                  (not (contains (take 4 p.text) (codes "HELO" ∷ codes "OKAY" ∷ []))) (λ g. stops)
                  (λ g.
                    if-both (IsTraced peer es) (bytes_beq (take 4 p.text) (codes "HELO"))
                      (λ h.
                        helo-IsTraced peer es s (heard (codes "HELO") ((bytes_beq_iff _ _).0 h)) k)
                      (λ h.
                        okay-IsTraced peer es s
                          (heard (codes "OKAY") (okay_word (take 4 p.text) g h)) k)))))

-- A packet that has just been read
read-IsTraced :
    (peer : Bytes) (es : List Event) (s : Punch) (p : Packet)
    → IsTraced peer es s
    → IsTraced peer (es ++ (came p ∷ [])) (on_read p s)
unfolding on_read
read-IsTraced peer es s p k =
    let more : IsTraced peer (es ++ (came p ∷ [])) s = grow peer es (came p ∷ []) s k in
    if-both (IsTraced peer (es ++ (came p ∷ []))) s.recv_done
      (λ b. rest peer (es ++ (came p ∷ [])) s quitting (λ p e. cc) more)
      (λ b. record {
        handled = λ q e. record { before = es; after = []; split = same_packet q e };
        greeted = more.greeted;
        agreed = more.agreed;
      })
  where
    same_packet : (q : Packet) → handling p ≡ handling q → es ++ (came p ∷ []) ≡ es ++ (came q ∷ [])
    same_packet q e = cc

step-IsTraced :
    (peer : Bytes) (es : List Event) (s t : Punch) (st : Step peer s t)
    → IsTraced peer es s
    → IsTraced peer (es ++ event_of st) t
unfolding on_timeout close_late sender_done receiver_done close_main
step-IsTraced peer es s t (send i e) k = grow peer es [] t k
step-IsTraced peer es s t (retry i e) k =
    grow peer es (timed i ∷ []) t (if-both (IsTraced peer es) (i == 60) (λ b. k) (λ b. k))
step-IsTraced peer es s t (cancel i e c) k = grow peer es [] t k
step-IsTraced peer es s t (give_up e) k =
    grow peer es [] t (if-both (IsTraced peer es) s.recv_done (λ b. k) (λ b. k))
step-IsTraced peer es s t (leave_late e) k =
    grow peer es [] t (if-both (IsTraced peer es) (ltb s.wg 1) (λ b. k) (λ b. k))
step-IsTraced peer es s t (leave e) k =
    grow peer es [] t (if-both (IsTraced peer es) (ltb s.wg 1) (λ b. k) (λ b. k))
step-IsTraced peer es s t (read p e) k = read-IsTraced peer es s p k
step-IsTraced peer es s t (handle p e) k =
    grow peer es [] t (packet-IsTraced peer es s p p.source refl e k)
step-IsTraced peer es s t (quit e) k =
    grow peer es [] t
      (if-both (IsTraced peer es) (ltb s.wg _) (λ b. k) (λ b. rest peer es s done (λ p e. cc) k))
step-IsTraced peer es s t (wake e z) k = grow peer es [] t k
step-IsTraced peer es s t (close e) k =
    grow peer es [] t (if-both (IsTraced peer es) s.recv_done (λ b. k) (λ b. k))
step-IsTraced peer es s t (return e) k = grow peer es [] t k

reach-IsTraced : (peer : Bytes) (t : Punch) (r : Reach peer start t) → IsTraced peer (events r) t
reach-IsTraced peer t here = record {
  handled = λ p e. absurd cc;
  greeted = λ h. absurd cc;
  agreed = λ o. absurd cc;
}
reach-IsTraced peer u (later {t} r alive st) =
    step-IsTraced peer (events r) t u st (reach-IsTraced peer t r)

-- The flags are set by messages of the peer's alone.
pub reach-Heard :
    (peer : Bytes) (t : Punch) (r : Reach peer start t)
    → (t.helo ≡ true → Heard peer (codes "HELO") (events r))
      × (t.okay ≡ true → Heard peer (codes "OKAY") (events r))
reach-Heard peer t r =
    let k : IsTraced peer (events r) t = reach-IsTraced peer t r in (k.greeted, k.agreed)
