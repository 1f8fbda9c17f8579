-- ===== src/Dtls/Path/Receive.antt =====
-- receive and tick of internal/dtls13/path.go, and what receive of internal/dtls13/session.go does
-- with a record for the path.
use socat.Dtls.Record.{content_rrc, RecordNumber}
use socat.Dtls.Protection.{same}
use socat.Dtls.Error.{unexpected_message, decode, Result, Error}
use socat.Dtls.Path.{
  send_message, path_challenge, uint64, path_drop, path_response, observe, start_basic,
  is_candidate_phase, Sent, PacketPath, PathState, add_credit, PathProbe, same_path,
}
use socat.Prelude.{
  ◌*◌, ◌||◌, get_or, ltb, not, drop, [], length, some, ◌==◌, none, ◌∷◌, Bytes, ◌+◌, Option,
  if◌then◌else◌, List, Bool, ℕ,
}

-- The credit of a challenge from the candidate.
unfoldable pub credit_probe : Option PathProbe → PacketPath → ℕ → PathState → PathState
unfolding same_path add_credit
credit_probe none from size p = p
credit_probe (some b) from size p =
    if same_path from b.candidate then record p { probe = some (add_credit size b) } else p

unfoldable pub credit_candidate : PacketPath → ℕ → PathState → PathState
unfolding credit_probe
credit_candidate from size p = credit_probe p.probe from size p

-- The path that has to answer the challenge of a probe.
abbrev pub expected_path : PathProbe → PathState → PacketPath
expected_path b p = if is_candidate_phase b.phase then b.candidate else p.peer

-- The probe was answered: its candidate, if this was validated, becomes the peer.
unfoldable pub finish_probe : PathProbe → PathState → PathState
finish_probe b p =
    if is_candidate_phase b.phase
    then record p {
      peer = b.candidate;
      session = record (p.session) { peer_cid = b.cid; restarts = p.session.restarts + 1 };
      changes = b.candidate ∷ p.changes;
      probe = none;
    }
    else record p { probe = none }

-- What a record or the passing of time does to the path; `random` is drawn at most once for each
-- of observe and receive.
pub data PathEvent : Type 0 where
  arrives :
      (from : PacketPath) (number : RecordNumber) (typ : ℕ) (body : Bytes) (size now : ℕ)
      (random random' : Result Bytes)
      → PathEvent
  passes : (now : ℕ) (random : Result Bytes) → PathEvent

module _ (allow : ℕ → Bool) (answer : List Sent → Option Error) where
  unfoldable pub respond : PacketPath → Bytes → ℕ → PathState → Option Error × PathState
  unfolding credit_candidate send_message
  respond from body size p =
      let typ = if from.local == p.peer.local then path_response else path_drop in
      send_message allow answer from typ (drop 1 body) (uint64 (3 * size))
        (credit_candidate from size p)

  -- A response or a drop whose cookie and path are those of the probe, in time.
  unfoldable pub answered : PathProbe → ℕ → ℕ → Result Bytes → PathState → Option Error × PathState
  unfolding finish_probe start_basic
  answered b typ now random p =
      if typ == path_drop
      then (if is_candidate_phase b.phase
          then (none, p)
          else start_basic allow answer b now random p)
      else (none, finish_probe b p)

  unfoldable pub check_answer :
      Option PathProbe
      → PacketPath
      → Bytes
      → ℕ
      → Result Bytes
      → PathState
      → Option Error × PathState
  unfolding answered same same_path
  check_answer none from body now random p = (none, p)
  check_answer (some b) from body now random p =
      if not (same (drop 1 body) b.cookie)
        || (not (ltb now b.deadline) || not (same_path from (expected_path b p)))
      then (none, p)
      else answered b (get_or body 0 0) now random p

  unfoldable pub receive :
      PacketPath → Bytes → ℕ → ℕ → Result Bytes → PathState → Option Error × PathState
  unfolding respond check_answer
  receive from body size now random p =
      if length body == 0
      then (some decode, p)
      else if ltb path_drop (get_or body 0 0)
      then (none, p)
      else if not (length body == 9)
      then (some decode, p)
      else if get_or body 0 0 == path_challenge
      then respond from body size p
      else check_answer p.probe from body now random p

  unfoldable pub tick_probe :
      Option PathProbe → ℕ → Result Bytes → PathState → Option Error × PathState
  unfolding start_basic
  tick_probe none now random p = (none, p)
  tick_probe (some b) now random p =
      if ltb now b.deadline
      then (none, p)
      else if is_candidate_phase b.phase
      then (none, record p { probe = none })
      else start_basic allow answer b now random p

  unfoldable pub tick : ℕ → Result Bytes → PathState → Option Error × PathState
  unfolding tick_probe
  tick now random p = tick_probe p.probe now random p

  -- The case of contentRRC, unless observe failed; rrc and complete hold while there is a path.
  unfoldable pub after_observe :
      PacketPath
      → ℕ
      → ℕ
      → Bytes
      → ℕ
      → ℕ
      → Result Bytes
      → Option Error × PathState
      → Option Error × PathState
  unfolding receive
  after_observe from epoch typ body size now random (some e, p) = (some e, p)
  after_observe from epoch typ body size now random (none, p) =
      if not (typ == content_rrc)
      then (none, p)
      else if ltb epoch 3
      then (some unexpected_message, p)
      else receive from body size now random p

  unfoldable pub on_event : PathEvent → PathState → Option Error × PathState
  unfolding observe after_observe tick
  on_event (arrives from number typ body size now random random') p =
      after_observe from number.epoch typ body size now random'
        (observe allow answer from number typ size now random p)
  on_event (passes now random) p = tick now random p

  -- The state after some events, whatever they return.
  unfoldable pub run_events : List PathEvent → PathState → PathState
  unfolding on_event
  run_events [] p = p
  run_events (e ∷ es) p = run_events es (on_event e p).1
