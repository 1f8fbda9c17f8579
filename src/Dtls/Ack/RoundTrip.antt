-- ===== src/Dtls/Ack/RoundTrip.antt =====
-- encodeACK and parseACK of internal/dtls13/ack.go.
use socat.Dtls.Ack.Order.{IsAscending, compact-sorted, compact-All, Mem-compact}
use mathlib.Core.List.{Mem}
use mathlib.Core.Path.{ap₂}
use socat.Dtls.Error.{ok}
use socat.Dtls.Wire.{big_endian}
use socat.Dtls.Ack.{parse_ack, encode_ack, read_numbers, write_numbers, compact, sort_numbers}
use socat.Dtls.Record.{max_content, low_bytes, RecordNumber}
use socat.Prelude.{
  ◌↔◌, ◌/◌, drop, ap, take, ◌∙◌, ◌+◌, ◌++◌, ◌-◌, refl, [], ◌≤◌, arith, ◌*◌, ◌≡◌, ◌∷◌, Bytes, length,
  All, ◌^◌, List, ◌<◌, ℕ,
}

-- Both parts of a record number are uint64.
abbrev pub IsNumber : RecordNumber → Type 0
IsNumber r = (r.epoch < 2 ^ 64) × (r.sequence < 2 ^ 64)

eight_bytes : (v : ℕ) → v < 2 ^ 64 → big_endian 0 (low_bytes 8 v) ≡ v
eight_bytes v h = omega arith

length-write_numbers : (rs : List RecordNumber) → length (write_numbers rs) ≡ 16 * length rs
unfolding write_numbers
length-write_numbers [] = refl
length-write_numbers (r ∷ rs) = omega (arith, length-write_numbers rs)

read_numbers-write_numbers :
    (rs : List RecordNumber) → All IsNumber rs → read_numbers (length rs) (write_numbers rs) ≡ rs
unfolding read_numbers write_numbers
read_numbers-write_numbers [] h = refl
read_numbers-write_numbers (r ∷ rs) h =
    ap₂ (λ (r : RecordNumber) (l : List RecordNumber). r ∷ l)
      (ap₂ (λ (e s : ℕ). record { epoch = e; sequence = s }) (eight_bytes r.epoch h.0.0)
        (eight_bytes r.sequence h.0.1))
      (read_numbers-write_numbers rs h.1)

encode_ack-inv :
    (rs : List RecordNumber) {b : Bytes}
    → encode_ack rs ≡ ok b
    → (16 * length (compact (sort_numbers rs)) ≤ max_content - 2)
      × (b
          ≡ low_bytes 2 (16 * length (compact (sort_numbers rs)))
            ++ write_numbers (compact (sort_numbers rs)))
unfolding encode_ack
encode_ack-inv rs {b} h = ground arith

parse_ack-sized :
    (d : Bytes) (n : ℕ)
    → length d ≡ 2 + 16 * n
    → 16 * n ≤ max_content - 2
    → big_endian 0 (take 2 d) ≡ 16 * n
    → parse_ack d ≡ ok (read_numbers n (drop 2 d))
unfolding parse_ack
parse_ack-sized d n size small named =
    let e : (length d - 2) / 16 ≡ n = omega (arith, size) in
    ground (arith, size, small, named, ap (λ (k : ℕ). read_numbers k (drop 2 d)) e)

length_bytes : (v : ℕ) → v < 2 ^ 16 → big_endian 0 (low_bytes 2 v) ≡ v
length_bytes v h = omega arith

parse_ack-numbers :
    (rs : List RecordNumber)
    → All IsNumber rs
    → 16 * length rs ≤ max_content - 2
    → parse_ack (low_bytes 2 (16 * length rs) ++ write_numbers rs) ≡ ok rs
parse_ack-numbers rs h l =
    parse_ack-sized (low_bytes 2 (16 * length rs) ++ write_numbers rs) (length rs)
      (omega (arith, length-write_numbers rs)) l (length_bytes (16 * length rs) (omega (arith, l)))
    ∙ ap ok (read_numbers-write_numbers rs h)

-- For uint64 record numbers, parseACK reads what encodeACK returns as a list in which each number
-- comes before the next one, by its epoch and then its sequence, and that has exactly the given
-- numbers.
pub parse_ack-encode_ack :
    (rs : List RecordNumber) {b : Bytes}
    → All IsNumber rs
    → encode_ack rs ≡ ok b
    → (out : List RecordNumber) × (parse_ack b ≡ ok out)
      × IsAscending out
      × ((r : RecordNumber) → Mem r out ↔ Mem r rs)
parse_ack-encode_ack rs {b} h e =
    let (small, written) = encode_ack-inv rs e in
    (
      compact (sort_numbers rs),
      rw written (parse_ack-numbers (compact (sort_numbers rs)) (compact-All IsNumber rs h) small),
      compact-sorted rs,
      Mem-compact rs,
    )
