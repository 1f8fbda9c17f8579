-- ===== src/Dtls/Error.antt =====
-- The error values of internal/dtls13 that the modelled code returns, and Go's (value, error) pair.

-- errDecode, errIllegalParameter, errHandshakeLimit, errFragmentConflict, errRecord,
-- errRecordOverflow, errSequence, errReplay, errAuthentication, errACK, errHandshakeTimeout, errProbeSize, errUnexpectedMessage, errKeyMaterial
pub data Error : Type 0 where
  decode illegal_parameter handshake_limit fragment_conflict record_invalid : Error
  record_overflow sequence_exhausted replayed authentication ack_malformed handshake_timeout
        probe_size unexpected_message key_material :
      Error

pub data Result {ℓ} (Value : Type ℓ) : Type ℓ where
  err : Error → Result Value
  ok : Value → Result Value

module _ {ℓ κ} {A : Type ℓ} {B : Type κ} where
  infixl 5 ◌>>=◌
  abbrev pub ◌>>=◌ : Result A → (A → Result B) → Result B
  m >>= next = elim m [ err e ↦ err e | ok a ↦ next a ]
