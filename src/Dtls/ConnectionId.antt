-- ===== src/Dtls/ConnectionId.antt =====
-- internal/dtls13/connection_id.go: the lists of connection ids on the wire.
pub mod Parsing
use socat.Dtls.Protection.{same}
use socat.Dtls.Error.{decode, ok, illegal_parameter, err, Result}
use socat.Dtls.Wire.{
  done, read_vector8, read_uint8, reader, read_vector16, write_uint8, write_vector16, writer,
  write_vector8, result, WireWriter,
}
use socat.Prelude.{
  zero, is_some, true, ◌++◌, suc, not, none, ltb, ◌==◌, length, ◌&&◌, if◌then◌else◌, [], some, ◌||◌,
  Option, ◌∷◌, false, Bool, Bytes, List, ℕ,
}

abbrev pub max_connection_ids : ℕ
max_connection_ids = 8

unfoldable pub contains_cid : List Bytes → Bytes → Bool
contains_cid [] cid = false
contains_cid (id ∷ ids) cid = same id cid || contains_cid ids cid

-- the loop over the ids
unfoldable pub write_ids : List Bytes → WireWriter → WireWriter
write_ids [] w = w
write_ids (id ∷ ids) w = write_ids ids (write_vector8 id w)

unfoldable pub encode_cids : List Bytes → Bool → Result Bytes
encode_cids ids immediate =
    let list = write_ids ids writer in
    elim list.failure [
      | some e ↦ err e
      | none ↦
          let w = write_vector16 list.written writer in
          if immediate && length ids == 0
          then err illegal_parameter
          else result (write_uint8 (if immediate then 0 else 1) w)
    ]

-- The loop of `parseCIDs`: a round takes at least the byte of a length. An outer `none` is no Go value.
unfoldable pub read_ids : ℕ → List Bytes → Bytes → Option (Result (List Bytes))
read_ids fuel ids [] = some (ok ids)
read_ids zero ids (b ∷ bs) = none
read_ids (suc fuel) ids (b ∷ bs) =
    let (id, r) = read_vector8 (reader (b ∷ bs)) in
    let kept =
      if ltb (length ids) max_connection_ids && not (contains_cid ids id)
      then ids ++ (id ∷ [])
      else ids in
    let more = read_ids fuel kept r.data_left in
    if is_some r.failure then some (err decode) else more

-- the ids, and whether they replace the one in use
unfoldable pub parse_cids : Bytes → Option (Result (List Bytes × Bool))
parse_cids body =
    let (list, r) = read_vector16 (reader body) in
    let (usage, r') = read_uint8 r in
    if is_some (done r')
    then some (err decode)
    else if ltb 1 usage || usage == 0 && length list == 0
    then some (err illegal_parameter)
    else elim (read_ids (length list) [] list) [
      | none ↦ none
      | some (err e) ↦ some (err e)
      | some (ok ids) ↦ some (ok (ids, usage == 0))
    ]

-- the ids of the peer that a session keeps: the one in use, the spare ones, the reserved one of a
-- path that is being validated, and whether spares were requested
pub record PeerIds : Type 0 where
  pub peer_cid : Bytes
  pub peer_spare : List Bytes
  pub probe_cid : Option Bytes
  pub requested : Bool

-- the loop over the ids of a message that does not replace the one in use
unfoldable pub add_spares : List Bytes → PeerIds → PeerIds
add_spares [] s = s
add_spares (id ∷ ids) s =
    if ltb (length s.peer_spare) max_connection_ids
      && (not (same id s.peer_cid) && not (contains_cid s.peer_spare id))
    then add_spares ids (record s { peer_spare = s.peer_spare ++ (id ∷ []) })
    else add_spares ids s

-- `receiveCIDs` after the parser, up to the acknowledgement; parse_cids returns no empty list of
-- ids that replace the one in use
unfoldable pub receive_ids : List Bytes → Bool → PeerIds → PeerIds
receive_ids [] true s = s
receive_ids (id ∷ ids) true s = record s {
  peer_cid = id;
  peer_spare = ids;
  probe_cid = elim s.probe_cid [ none ↦ none | some old ↦ some id ];
}
receive_ids ids false s = let s' = add_spares ids s in record s' { requested = false }
