-- ===== src/Dtls/Path/Change.antt =====
-- When the peer's address changes.
use socat.Dtls.Path.Peer.{tick_probe-peer, observe-peer, respond-peer, start_basic-peer}
use socat.Dtls.Record.{content_rrc, RecordNumber}
use socat.Dtls.Protection.{same}
use socat.Dtls.Error.{Result, Error}
use socat.Dtls.Path.Receive.{
  tick, on_event, expected_path, passes, arrives, after_observe, PathEvent, receive, check_answer,
  answered, finish_probe,
}
use socat.Dtls.Path.{
  path_challenge, path_drop, same_path, observe_newest, validate_old, observe, path_response,
  validate_candidate, Sent, PathState, PathProbe, is_candidate_phase, PathPhase, PacketPath,
}
use socat.Prelude.{
  ◌∙◌, ==_iff, sym, ◌||◌, ltb, not, inr, inl, none, false, arith, length, ◌≤◌, ◌==◌, Bool-cases,
  ◌<◌, drop, refl, get_or, Option, ◌⊎◌, true, some, ◌≡◌, List, Bytes, Bool, ℕ,
}

-- A record from `from` ended the validation of the candidate: it answers the challenge that is
-- outstanding, in time, from the candidate and with the cookie, and the candidate is the peer now.
pub record Validated (from : PacketPath) (body : Bytes) (now : ℕ) (p p' : PathState) : Type 0 where
  pub probe : PathProbe
  pub held : p.probe ≡ some probe
  pub last_phase : probe.phase ≡ validate_candidate
  pub response : get_or body 0 0 ≡ path_response
  pub cookie_matches : same (drop 1 body) probe.cookie ≡ true
  pub in_time : now < probe.deadline
  pub from_candidate : same_path from probe.candidate ≡ true
  pub new_peer : p'.peer ≡ probe.candidate
  pub new_cid : p'.session.peer_cid ≡ probe.cid
  pub closed : p'.probe ≡ none

candidate_phase : (f : PathPhase) → is_candidate_phase f ≡ true → f ≡ validate_candidate
candidate_phase validate_old h = cc
candidate_phase validate_candidate h = refl

-- The peer is as before, or a candidate was validated.
abbrev pub PeerStep : PacketPath → Bytes → ℕ → PathState → PathState → Type 0
PeerStep from body now p p' = (p'.peer ≡ p.peer) ⊎ Validated from body now p p'

finish_probe-PeerStep :
    (b : PathProbe) (from : PacketPath) (body : Bytes) (now : ℕ) (p : PathState)
    → p.probe ≡ some b
    → get_or body 0 0 ≡ path_response
    → same (drop 1 body) b.cookie ≡ true
    → now < b.deadline
    → same_path from (expected_path b p) ≡ true
    → PeerStep from body now p (finish_probe b p)
unfolding finish_probe
finish_probe-PeerStep b from body now p held response cookie time path =
    elim (Bool-cases (is_candidate_phase b.phase)) [
      | inl e ↦
          let to_candidate : same_path from b.candidate ≡ true = rw e at path in
          rw e (
            inr record {
              probe = b;
              held = held;
              last_phase = candidate_phase b.phase e;
              response = response;
              cookie_matches = cookie;
              in_time = time;
              from_candidate = to_candidate;
              new_peer = refl;
              new_cid = refl;
              closed = refl;
            })
      | inr e ↦ rw e (inl refl)
    ]

Validated-probe :
    {from : PacketPath} {body : Bytes} {now : ℕ} {p q p' : PathState}
    → q.probe ≡ p.probe
    → Validated from body now q p'
    → Validated from body now p p'
Validated-probe same_probe v = record {
  probe = v.probe;
  held = sym same_probe ∙ v.held;
  last_phase = v.last_phase;
  response = v.response;
  cookie_matches = v.cookie_matches;
  in_time = v.in_time;
  from_candidate = v.from_candidate;
  new_peer = v.new_peer;
  new_cid = v.new_cid;
  closed = v.closed;
}

module _ (allow : ℕ → Bool) (answer : List Sent → Option Error) where
  answered-peer :
      (b : PathProbe) (typ now : ℕ) (random : Result Bytes) (p : PathState)
      → (typ == path_drop) ≡ true
      → (answered allow answer b typ now random p).1.peer ≡ p.peer
  unfolding answered
  answered-peer b typ now random p e =
      let basic = start_basic-peer allow answer b now random p in ground arith

  check_answer-PeerStep :
      (o : Option PathProbe) (from : PacketPath) (body : Bytes) (now : ℕ) (random : Result Bytes)
      (p : PathState)
      → p.probe ≡ o
      → 0 < get_or body 0 0
      → get_or body 0 0 ≤ path_drop
      → PeerStep from body now p (check_answer allow answer o from body now random p).1
  unfolding check_answer
  check_answer-PeerStep none from body now random p h low high = inl refl
  check_answer-PeerStep (some b) from body now random p h low high =
      let refused =
        not (same (drop 1 body) b.cookie)
        || (not (ltb now b.deadline) || not (same_path from (expected_path b p))) in
      elim (Bool-cases refused) [
        | inl e ↦ rw e (inl refl)
        | inr e ↦ elim (Bool-cases (get_or body 0 0 == path_drop)) [
          | inl d ↦ rw e (inl (answered-peer b (get_or body 0 0) now random p d))
          | inr d ↦
              let response : get_or body 0 0 ≡ path_response = ground arith in
              let cookie : same (drop 1 body) b.cookie ≡ true = ground arith in
              let time : now < b.deadline = ground arith in
              let path : same_path from (expected_path b p) ≡ true = ground arith in
              rw e (
                unfold answered in
                rw d (finish_probe-PeerStep b from body now p h response cookie time path))
        ]
      ]

  receive-PeerStep :
      (from : PacketPath) (body : Bytes) (size now : ℕ) (random : Result Bytes) (p : PathState)
      → PeerStep from body now p (receive allow answer from body size now random p).1
  unfolding receive
  receive-PeerStep from body size now random p = elim (Bool-cases (length body == 0)) [
    | inl e ↦ rw e (inl refl)
    | inr e ↦ elim (Bool-cases (ltb path_drop (get_or body 0 0))) [
      | inl f ↦ rw e (rw f (inl refl))
      | inr f ↦ elim (Bool-cases (length body == 9)) [
        | inr g ↦ rw e (rw f (rw g (inl refl)))
        | inl g ↦ elim (Bool-cases (get_or body 0 0 == path_challenge)) [
          | inl c ↦ rw e (rw f (rw g (rw c (inl (respond-peer allow answer from body size p)))))
          | inr c ↦
              let low : 0 < get_or body 0 0 = ground arith in
              let high : get_or body 0 0 ≤ path_drop = ground arith in
              let checked = check_answer-PeerStep p.probe from body now random p refl low high in
              rw e (rw f (rw g (rw c checked)))
        ]
      ]
    ]
  ]

  observe-keeps :
      (from : PacketPath) (number : RecordNumber) (typ size now : ℕ) (random : Result Bytes)
      (p : PathState)
      → (typ == content_rrc) ≡ true
      → (observe allow answer from number typ size now random p).1.probe ≡ p.probe
  unfolding observe observe_newest
  observe-keeps from number typ size now random p e = ground arith

  -- The same for an event.
  abbrev pub EventStep : PathEvent → PathState → PathState → Type 0
  EventStep (arrives from number typ body size now random random') p p' =
      (p'.peer ≡ p.peer) ⊎ ((typ ≡ content_rrc) × Validated from body now p p')
  EventStep (passes now random) p p' = p'.peer ≡ p.peer

  after_observe-EventStep :
      (from : PacketPath) (epoch typ : ℕ) (body : Bytes) (size now : ℕ) (random : Result Bytes)
      (r : Option Error × PathState) (p : PathState)
      → r.1.peer ≡ p.peer
      → ((typ == content_rrc) ≡ false) ⊎ (r.1.probe ≡ p.probe)
      → (let p' = (after_observe allow answer from epoch typ body size now random r).1 in
          (p'.peer ≡ p.peer) ⊎ ((typ ≡ content_rrc) × Validated from body now p p'))
  unfolding after_observe
  after_observe-EventStep from epoch typ body size now random (some e, q) p same_peer kept =
      inl same_peer
  after_observe-EventStep from epoch typ body size now random (none, q) p same_peer kept =
      elim (Bool-cases (typ == content_rrc)) [
        | inr e ↦ rw e (inl same_peer)
        | inl e ↦
            let rrc : typ ≡ content_rrc = (==_iff typ content_rrc).0 e in
            let held : q.probe ≡ p.probe = elim kept [ inl n ↦ absurd (cc (e, n)) | inr k ↦ k ] in
            elim (Bool-cases (ltb epoch 3)) [
              | inl f ↦ rw e (rw f (inl same_peer))
              | inr f ↦ rw e (
                  rw f (elim (receive-PeerStep from body size now random q) [
                    | inl s ↦ inl (s ∙ same_peer)
                    | inr v ↦ inr (rrc, Validated-probe held v)
                  ]))
            ]
      ]

  -- The peer's address changes in one way only: a record of the path protocol that answers the
  -- outstanding challenge to the candidate, from the candidate, in time and with its cookie, makes
  -- the candidate the peer. Any other event leaves it as it is.
  pub on_event-EventStep :
      (e : PathEvent) (p : PathState) → EventStep e p (on_event allow answer e p).1
  unfolding on_event tick
  on_event-EventStep (arrives from number typ body size now random random') p =
      let seen_first = observe allow answer from number typ size now random p in
      let kept : ((typ == content_rrc) ≡ false) ⊎ (seen_first.1.probe ≡ p.probe) =
        elim (Bool-cases (typ == content_rrc)) [
          | inl e ↦ inr (observe-keeps from number typ size now random p e)
          | inr e ↦ inl e
        ] in
      after_observe-EventStep from number.epoch typ body size now random' seen_first p
        (observe-peer allow answer from number typ size now random p) kept
  on_event-EventStep (passes now random) p = tick_probe-peer allow answer p.probe now random p
