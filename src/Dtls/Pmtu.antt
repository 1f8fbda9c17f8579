-- ===== src/Dtls/Pmtu.antt =====
-- internal/dtls13/pmtu.go: the overhead of a record, the padding of a probe, and the working size of
-- the path. Sizes are non-negative; of the session only the working size and its ceiling matter.
pub mod Steps
pub mod Padding
use socat.Dtls.Record.{max_ciphertext, max_content}
use socat.Dtls.Error.{ok, record_overflow, probe_size, err, Result}
use socat.Prelude.{
  true, false, ◌-◌, ◌||◌, ◌&&◌, min, ◌==◌, leb, ltb, Bool, ◌/◌, if◌then◌else◌, ◌+◌, ℕ,
}

abbrev pub min_path_mtu : ℕ
min_path_mtu = 256

abbrev pub max_mtu_reductions : ℕ
max_mtu_reductions = 8

abbrev pub rrc_message_len : ℕ
rrc_message_len = 9

-- `s.working`, and what mtuCeiling returns
pub record WorkingMtu : Type 0 where
  pub path_mtu : ℕ
  pub reductions : ℕ
  pub mtu_ceiling : ℕ

unfoldable pub datagram_overhead : ℕ → ℕ → ℕ
datagram_overhead cid_len aead_tag = 1 + cid_len + 2 + 2 + 1 + aead_tag

unfoldable pub rrc_probe_overhead : ℕ → ℕ → ℕ
unfolding datagram_overhead
rrc_probe_overhead cid_len aead_tag = datagram_overhead cid_len aead_tag + rrc_message_len

unfoldable pub rrc_probe_padding : ℕ → ℕ → ℕ → Result ℕ
rrc_probe_padding datagram_size cid_len aead_tag =
    let overhead = rrc_probe_overhead cid_len aead_tag in
    if ltb datagram_size overhead
    then err probe_size
    else let pad = datagram_size - overhead in
      if ltb max_content (rrc_message_len + pad)
      then err record_overflow
      else if ltb max_ciphertext (rrc_message_len + 1 + pad + aead_tag)
      then err record_overflow
      else ok pad

unfoldable pub effective_mtu : WorkingMtu → ℕ
effective_mtu s = if ltb 0 s.path_mtu then min s.path_mtu s.mtu_ceiling else s.mtu_ceiling

-- the size that reduceHandshakeMTU tries after `current`
unfoldable pub reduced : ℕ → ℕ → ℕ
reduced too_big current =
    let next = current / 2 in
    let capped = if ltb min_path_mtu too_big && ltb (too_big - 1) next then too_big - 1 else next in
    if ltb capped min_path_mtu then min_path_mtu else capped

unfoldable pub reduce_handshake_mtu : ℕ → WorkingMtu → Bool × WorkingMtu
reduce_handshake_mtu too_big s =
    let current = effective_mtu s in
    if leb current min_path_mtu || leb max_mtu_reductions s.reductions
    then (false, s)
    else let next = reduced too_big current in
      if leb current next
      then (false, s)
      else (true, record s { path_mtu = next; reductions = s.reductions + 1 })

unfoldable pub set_working_mtu : ℕ → WorkingMtu → WorkingMtu
set_working_mtu n s =
    if n == 0
    then s
    else let capped = min n s.mtu_ceiling in
      let size = if ltb capped min_path_mtu then min_path_mtu else capped in
      if leb size (effective_mtu s) then s else record s { path_mtu = size; reductions = 0 }
