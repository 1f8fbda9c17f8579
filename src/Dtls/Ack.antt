-- ===== src/Dtls/Ack.antt =====
-- internal/dtls13/ack.go: acknowledgements on the wire. Of package slices the code uses SortFunc, here
-- an insertion sort, and Compact.
pub mod Order
pub mod RoundTrip
use socat.Dtls.Wire.{big_endian}
use socat.Dtls.Flight.{same_number}
use socat.Dtls.Error.{ok, ack_malformed, err, Result}
use socat.Dtls.Record.{max_content, low_bytes, RecordNumber}
use socat.Prelude.{
  zero, ◌*◌, drop, ◌%◌, slice, ◌&&◌, not, take, ◌/◌, ◌==◌, ◌-◌, ◌++◌, ◌||◌, length, suc,
  if◌then◌else◌, ltb, [], ◌∷◌, Bool, Bytes, List, ℕ,
}

-- `compareRecordNumber(a, b) < 0`
unfoldable pub before : RecordNumber → RecordNumber → Bool
before a b = ltb a.epoch b.epoch || a.epoch == b.epoch && ltb a.sequence b.sequence

unfoldable pub insert_number : RecordNumber → List RecordNumber → List RecordNumber
insert_number a [] = a ∷ []
insert_number a (b ∷ bs) =
    let later = insert_number a bs in if before b a then b ∷ later else a ∷ b ∷ bs

unfoldable pub sort_numbers : List RecordNumber → List RecordNumber
sort_numbers [] = []
sort_numbers (a ∷ bs) = insert_number a (sort_numbers bs)

-- Compact, with the element before
unfoldable pub compact_after : RecordNumber → List RecordNumber → List RecordNumber
compact_after a [] = []
compact_after a (b ∷ bs) =
    let rest = compact_after b bs in if same_number a b then rest else b ∷ rest

unfoldable pub compact : List RecordNumber → List RecordNumber
compact [] = []
compact (a ∷ bs) = a ∷ compact_after a bs

unfoldable pub write_numbers : List RecordNumber → Bytes
write_numbers [] = []
write_numbers (r ∷ rs) = (low_bytes 8 r.epoch ++ low_bytes 8 r.sequence) ++ write_numbers rs

unfoldable pub encode_ack : List RecordNumber → Result Bytes
encode_ack records =
    if ltb ((max_content - 2) / 16) (length records)
    then err ack_malformed
    else let sorted = compact (sort_numbers records) in
      if ltb (max_content - 2) (16 * length sorted)
      then err ack_malformed
      else ok (low_bytes 2 (16 * length sorted) ++ write_numbers sorted)

-- the loop over the `n` numbers
unfoldable pub read_numbers : ℕ → Bytes → List RecordNumber
read_numbers zero bytes = []
read_numbers (suc n) bytes =
    record { epoch = big_endian 0 (take 8 bytes); sequence = big_endian 0 (slice bytes 8 16) }
    ∷ read_numbers n (drop 16 bytes)

unfoldable pub parse_ack : Bytes → Result (List RecordNumber)
parse_ack bytes =
    let size = length bytes - 2 in
    if ltb (length bytes) 2
      || (ltb max_content (length bytes)
          || (not (big_endian 0 (take 2 bytes) == size) || not (size % 16 == 0)))
    then err ack_malformed
    else ok (read_numbers (size / 16) (drop 2 bytes))
