-- ===== src/Relay/Dump.antt =====
-- internal/relay/dump.go: the text and hexadecimal dumps of transferred data. The writer is an
-- io.Writer, a parameter: a function of its state and the bytes it is given that returns its state,
-- the count it reports and its error. The lock keeps the writes of one call together and has no
-- counterpart; the time stamp of the header comes from the clock and is a parameter too.
pub mod Chunks
pub mod Format
pub mod Whole
use socat.Prelude.{
  leb, zero, ◌*◌, none, drop, ◌%◌, ◌||◌, ◌+◌, ◌&&◌, length, some, [], ◌/◌, ◌==◌, ltb, ◌-◌, Option,
  take, suc, ◌++◌, ◌∷◌, if◌then◌else◌, ◌^◌, Bytes, Bool, ℕ,
}

abbrev pub max_dump_output_buffer : ℕ
max_dump_output_buffer = 262144

abbrev pub dump_input_chunk : ℕ
dump_input_chunk = 65536

abbrev pub dump_hex_width : ℕ
dump_hex_width = 16

-- the largest int of a 64-bit platform
abbrev pub max_int : ℕ
max_int = 2 ^ 63 - 1

-- the fields of Config that the dump reads, but for the writer
pub record DumpConfig : Type 0 where
  pub verbose : Bool
  pub hex : Bool

-- `hexDigits[d]`
unfoldable pub hex_digit : ℕ → ℕ
hex_digit d = if ltb d 10 then 48 + d else 87 + d

unfoldable pub append_text_byte : Bytes → ℕ → Bytes
append_text_byte out b =
    if b == 7
    then out ++ (92 ∷ 97 ∷ [])
    else if b == 8
    then out ++ (92 ∷ 98 ∷ [])
    else if b == 9
    then out ++ (9 ∷ [])
    else if b == 10
    then out ++ (10 ∷ [])
    else if b == 11
    then out ++ (92 ∷ 118 ∷ [])
    else if b == 12
    then out ++ (92 ∷ 102 ∷ [])
    else if b == 13
    then out ++ (92 ∷ 114 ∷ [])
    else if b == 92
    then out ++ (92 ∷ 92 ∷ [])
    else if ltb b 0x20 || leb 0x7f b
    then out ++ (46 ∷ [])
    else out ++ (b ∷ [])

unfoldable pub append_text_dump : Bytes → Bytes → Bytes
append_text_dump out [] = out
append_text_dump out (b ∷ bs) = append_text_dump (append_text_byte out b) bs

unfoldable pub append_hex_byte : Bytes → ℕ → Bytes
append_hex_byte out b = out ++ (32 ∷ hex_digit (b / 16) ∷ hex_digit (b % 16) ∷ [])

-- the loops over append_hex_byte
unfoldable pub append_hex_bytes : Bytes → Bytes → Bytes
append_hex_bytes out [] = out
append_hex_bytes out (b ∷ bs) = append_hex_bytes (append_hex_byte out b) bs

unfoldable pub append_hex_dump : Bytes → Bytes → Bytes
append_hex_dump out data_in = append_hex_bytes out data_in ++ (10 ∷ [])

-- the length of a row: at most `n` bytes, up to the first newline
unfoldable pub row_length : ℕ → Bytes → ℕ
row_length zero bs = 0
row_length (suc n) [] = 0
row_length (suc n) (b ∷ bs) = let more = row_length n bs in if b == 10 then 1 else suc more

-- the padding of a short row
unfoldable pub append_padding : Bytes → ℕ → Bytes
append_padding out zero = out
append_padding out (suc n) = append_padding (out ++ (32 ∷ 32 ∷ 32 ∷ [])) n

-- the characters of a row
unfoldable pub append_row_text : Bytes → Bytes → Bytes
append_row_text out [] = out
append_row_text out (b ∷ bs) =
    let dotted = append_row_text (out ++ (46 ∷ [])) bs in
    let shown = append_row_text (out ++ (b ∷ [])) bs in
    if b == 10 then out ++ (46 ∷ []) else if ltb b 0x20 || leb 0x7f b then dotted else shown

unfoldable pub append_combined_row : Bytes → Bytes → Bytes × Bytes
append_combined_row out data_in =
    let row = row_length dump_hex_width data_in in
    let hexed = append_padding (append_hex_bytes out (take row data_in)) (dump_hex_width - row) in
    (append_row_text (hexed ++ (32 ∷ 32 ∷ [])) (take row data_in) ++ (10 ∷ []), drop row data_in)

-- The loop of `appendCombinedDump`; a row takes at least one byte, so the number of bytes is fuel
-- enough. `none` is no Go value, the fuel ran out.
unfoldable pub combined_rows : ℕ → Bytes → Bytes → Option Bytes
combined_rows fuel out [] = some out
combined_rows zero out (b ∷ bs) = none
combined_rows (suc fuel) out (b ∷ bs) =
    let (out', rest) = append_combined_row out (b ∷ bs) in combined_rows fuel out' rest

unfoldable pub append_combined_dump : Bytes → Bytes → Option Bytes
append_combined_dump out data_in = elim (combined_rows (length data_in) out data_in) [
  | none ↦ none
  | some rows ↦ some (rows ++ (45 ∷ 45 ∷ 10 ∷ []))
]

unfoldable pub append_dump_body : Bytes → DumpConfig → Bytes → Option Bytes
append_dump_body out cfg data_in =
    if cfg.verbose && cfg.hex
    then append_combined_dump out data_in
    else if cfg.hex
    then some (append_hex_dump out data_in)
    else some (append_text_dump out data_in)

unfoldable pub dump_body_limit : DumpConfig → ℕ → ℕ
dump_body_limit cfg n =
    let per = if cfg.verbose && cfg.hex then 52 else if cfg.hex then 3 else 2 in
    let extra = if cfg.verbose && cfg.hex then 3 else if cfg.hex then 1 else 0 in
    if ltb ((max_int - extra) / per) n then max_int else per * n + extra
