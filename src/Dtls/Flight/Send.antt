-- ===== src/Dtls/Flight/Send.antt =====
-- internal/dtls13/flight.go: `sendRanges` and `transmit`.
-- the bytes that need no sending now: acknowledged, or sent before in the first pass
use socat.Dtls.Fragment.{fragment}
use socat.Prelude.Bitset.{set_bit}
use socat.Dtls.Record.{max_content, RecordNumber}
use socat.Dtls.Error.{
  ok, err, handshake_limit, record_overflow, sequence_exhausted, record_invalid, Error, Result,
}
use socat.Dtls.Flight.{
  SentFragment, flight_burst, max_flight_records, find_sent, is_empty, pending_send, body_size,
  empty_message, has_sent, Flight, has_byte, OutboundMessage,
}
use socat.Prelude.{
  ◌∷◌, false, set, leb, true, min, ◌-◌, is_some, ltb, zero, ◌==◌, not, length, if◌then◌else◌, ◌&&◌,
  some, none, get_or, ◌+◌, ◌||◌, suc, Bytes, Option, Bool, ℕ,
}

unfoldable pub skips : Bool → OutboundMessage → ℕ → Bool
skips only_new m i = has_byte m i || only_new && has_sent m i

-- `for start < len && skips { start++ }`, over the `n` bytes up to the end
unfoldable pub skip : ℕ → Bool → OutboundMessage → ℕ → ℕ
skip zero only_new m start = start
skip (suc n) only_new m start =
    let next = skip n only_new m (start + 1) in if skips only_new m start then next else start

-- `for end < len && end-start < capacity && !skips { end++ }`, over at most `n` bytes
unfoldable pub extend : ℕ → Bool → OutboundMessage → ℕ → ℕ
extend zero only_new m end_at = end_at
extend (suc n) only_new m end_at =
    let next = extend n only_new m (end_at + 1) in if skips only_new m end_at then end_at else next

-- the marks of the bytes that were sent, over `n` bytes from `i` on
unfoldable pub mark_sent : ℕ → ℕ → OutboundMessage → OutboundMessage
mark_sent zero i m = m
mark_sent (suc n) i m =
    let kept = mark_sent n (i + 1) m in
    let marked =
      mark_sent n (i + 1) (record m { sent = set_bit m.sent i; sent_count = m.sent_count + 1 }) in
    if has_sent m i then kept else marked

-- How a round of the inner loop ends: with the next round, with the next message, or with the
-- function's error.
pub data Round : Type 0 where
  again : ℕ → Round
  leave : Round
  answer : Option Error → Round

module _ {S : Type 0} (send : S → ℕ → Bytes → S × Result RecordNumber) where
  pub record Sending : Type 0 where
    pub flight : Flight
    pub sender : S
    pub count : ℕ

  -- from the check of the record number on
  unfoldable pub record_sent : ℕ → Bool → ℕ → ℕ → ℕ → RecordNumber → Sending → Round × Sending
  record_sent now only_new index start end_at number st =
      let f = st.flight in
      let m = get_or f.messages index empty_message in
      if not (number.epoch == m.message.epoch)
      then (answer (some record_invalid), st)
      else if is_some (find_sent number f.sent)
      then (answer (some sequence_exhausted), st)
      else let m₁ = if only_new then m else record m { resent = true } in
        let m₂ =
          if is_empty m
          then record m₁ { empty_sent = true }
          else mark_sent (end_at - start) start m₁ in
        let part : SentFragment = record {
          message = index;
          start = start;
          end_at = end_at;
          sent_at = now;
        } in
        let st' : Sending = record {
          flight = record f {
            messages = set f.messages index m₂;
            sent = (number, part) ∷ f.sent;
            first_sent = if f.first_sent == 0 then now else f.first_sent;
            resent = f.resent || not only_new;
          };
          sender = st.sender;
          count = st.count + 1;
        } in
        if st.count + 1 == flight_burst
        then (answer none, st')
        else if is_empty m
        then (leave, st')
        else (again end_at, st')

  -- one round of the inner loop
  unfoldable pub send_round : ℕ → ℕ → Bool → ℕ → ℕ → Sending → Round × Sending
  send_round now capacity only_new index start st =
      let f = st.flight in
      let m = get_or f.messages index empty_message in
      if not (ltb start (body_size m)) && not (is_empty m && not m.empty_acknowledged)
      then (leave, st)
      else let from = skip (body_size m - start) only_new m start in
        if from == body_size m && not (is_empty m) || is_empty m && (only_new && m.empty_sent)
        then (leave, st)
        else let end_at = extend (min (body_size m - from) capacity) only_new m from in
          if leb max_flight_records (length f.sent)
          then (answer (some handshake_limit), st)
          else elim (fragment m.message from (end_at - from)) [
            | err e ↦ (answer (some e), st)
            | ok bytes ↦
                let (sender', result) = send st.sender m.message.epoch bytes in
                let st' : Sending = record st { sender = sender' } in
                elim result [
                  | err e ↦ (answer (some e), st')
                  | ok number ↦ record_sent now only_new index from end_at number st'
                ]
          ]

  -- The inner loop; an outer `none` is no Go value, the fuel ran out.
  unfoldable pub send_message :
      ℕ → ℕ → ℕ → Bool → ℕ → ℕ → Sending → Option (Option (Option Error) × Sending)
  send_message zero now capacity only_new index start st = none
  send_message (suc fuel) now capacity only_new index start st =
      let (round, st') = send_round now capacity only_new index start st in
      elim round [
        | answer e ↦ some (some e, st')
        | leave ↦ some (none, st')
        | again start' ↦ send_message fuel now capacity only_new index start' st'
      ]

  -- The outer loop, over the `n` messages from `index` on. A round sends a byte at least, so a
  -- message's length and one more round are fuel enough.
  unfoldable pub send_messages : ℕ → ℕ → ℕ → Bool → ℕ → Sending → Option (Option Error × Sending)
  send_messages zero now capacity only_new index st = some (none, st)
  send_messages (suc n) now capacity only_new index st =
      let size = body_size (get_or st.flight.messages index empty_message) in
      elim (send_message (size + 1) now capacity only_new index 0 st) [
        | none ↦ none
        | some (some e, st') ↦ some (e, st')
        | some (none, st') ↦ send_messages n now capacity only_new (index + 1) st'
      ]

  unfoldable pub send_ranges : ℕ → ℕ → Bool → Flight → S → Option (Option Error × Sending)
  send_ranges now capacity only_new f s =
      send_messages (length f.messages) now capacity only_new 0
        (record { flight = f; sender = s; count = 0 })

  -- what `transmit` does after the ranges
  unfoldable pub settle : ℕ → Flight → Flight
  settle now f =
      let sent_once' = f.sent_once || not (pending_send f) in
      record f { sent_once = sent_once'; deadline = now + f.interval }

  unfoldable pub transmit : ℕ → ℕ → Flight → S → Option (Option Error × Flight × S)
  transmit now capacity f s =
      if f.complete
      then some (none, f, s)
      else if capacity == 0 || ltb (max_content - 12) capacity
      then some (some record_overflow, f, s)
      else elim (send_ranges now capacity true f s) [
        | none ↦ none
        | some (some e, st) ↦ some (some e, st.flight, st.sender)
        | some (none, st) ↦
            if not (st.count == 0)
            then some (none, settle now st.flight, st.sender)
            else elim (send_ranges now capacity false st.flight st.sender) [
              | none ↦ none
              | some (some e, st') ↦ some (some e, st'.flight, st'.sender)
              | some (none, st') ↦ some (none, settle now st'.flight, st'.sender)
            ]
      ]
