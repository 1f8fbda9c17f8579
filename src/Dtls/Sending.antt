-- ===== src/Dtls/Sending.antt =====
-- The sending of a record in internal/dtls13/session.go, up to the call that hands the packet over.
use socat.Dtls.Error.{
  record_invalid, sequence_exhausted, ok, record_overflow, ◌>>=◌, key_material, err, Result,
}
use socat.Prelude.Assoc.{lookup, put}
use socat.Dtls.Pmtu.{WorkingMtu, effective_mtu}
use socat.Dtls.Record.{encode_plain_record}
use socat.Dtls.Protection.{encode_record, TrafficKeys}
use socat.Prelude.{
  not, ◌||◌, ltb, ◌^◌, leb, ◌&&◌, length, ◌==◌, ◌+◌, if◌then◌else◌, max, ◌∷◌, [], some, none, Bytes,
  List, ℕ,
}

-- writeEpoch, and the recordLimit of its keys; the secret is only kept.
pub record WriteEpoch : Type 0 where
  pub keys : TrafficKeys
  pub record_limit : ℕ
  pub sequence : ℕ

-- What sendRecordLimited reads and writes of a session: the epochs for writing, the working size of
-- the path and the size of the last packet.
pub record Sender : Type 0 where
  pub write : List (ℕ × WriteEpoch)
  pub working : WorkingMtu
  pub last_send_size : ℕ

unfoldable pub highest_epoch : List (ℕ × WriteEpoch) → ℕ
highest_epoch [] = 0
highest_epoch ((epoch, w) ∷ rest) = max epoch (highest_epoch rest)

unfoldable pub current_write_epoch : Sender → ℕ
unfolding highest_epoch
current_write_epoch s = highest_epoch s.write

-- The packet of a record, in the epoch `w`.
unfoldable pub record_packet : WriteEpoch → ℕ → ℕ → Bytes → Bytes → ℕ → Result Bytes
unfolding encode_plain_record encode_record
record_packet w epoch typ body cid padding =
    if (epoch == 0 && leb (2 ^ 48) w.sequence)
      || (not (epoch == 0) && leb w.record_limit w.sequence)
    then err sequence_exhausted
    else if epoch == 0
    then (if not (padding == 0)
        then err record_invalid
        else encode_plain_record typ w.sequence body)
    else encode_record w.keys (record { epoch = epoch; sequence = w.sequence }) cid typ body padding

abbrev pub sent_packet : ℕ → WriteEpoch → Bytes → Sender → Sender
sent_packet epoch w packet s = record s {
  write = put epoch (record w { sequence = w.sequence + 1 }) s.write;
  last_send_size = length packet;
}

-- sendRecordLimited up to its call of `send`: the packet, and the session then.
unfoldable pub send_record_limited :
    Sender → ℕ → ℕ → Bytes → Bytes → ℕ → ℕ → Result (Bytes × Sender)
unfolding record_packet
send_record_limited s epoch typ body cid padding limit = elim (lookup epoch s.write) [
  | none ↦ err key_material
  | some w ↦ record_packet w epoch typ body cid padding >>= λ packet.
      if ltb limit (length packet)
      then err record_overflow
      else ok (packet, sent_packet epoch w packet s)
]

unfoldable pub send_record_with : Sender → ℕ → ℕ → Bytes → Bytes → Result (Bytes × Sender)
unfolding send_record_limited effective_mtu
send_record_with s epoch typ body cid =
    send_record_limited s epoch typ body cid 0 (effective_mtu s.working)
