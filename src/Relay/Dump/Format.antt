-- ===== src/Relay/Dump/Format.antt =====
-- The appending functions put their output behind what the buffer holds, and format a
-- concatenation piece by piece.
use socat.Prelude.{
  length-drop, ◌≤◌, length, drop, ap, ◌-◌, take, refl, zero, append_assoc, suc, ◌∙◌, append-nil,
  ◌∷◌, sym, arith, ◌++◌, [], ◌≡◌, ℕ, Bytes,
}
use socat.Relay.Dump.{
  combined_rows, dump_hex_width, row_length, append_row_text, append_hex_byte, append_combined_row,
  append_padding, append_hex_bytes, append_text_dump, append_text_byte,
}

append_text_byte-append :
    (out : Bytes) (b : ℕ) → append_text_byte out b ≡ out ++ append_text_byte [] b
unfolding append_text_byte
append_text_byte-append out b = ground arith

pub append_text_dump-out : (out p : Bytes) → append_text_dump out p ≡ out ++ append_text_dump [] p
unfolding append_text_dump
append_text_dump-out out [] = sym (append-nil out)
append_text_dump-out out (b ∷ bs) =
    append_text_dump-out (append_text_byte out b) bs
    ∙ rw (append_text_byte-append out b, append_text_dump-out (append_text_byte [] b) bs)
        (append_assoc out (append_text_byte [] b) (append_text_dump [] bs))

pub append_hex_bytes-out : (out p : Bytes) → append_hex_bytes out p ≡ out ++ append_hex_bytes [] p
unfolding append_hex_bytes append_hex_byte
append_hex_bytes-out out [] = sym (append-nil out)
append_hex_bytes-out out (b ∷ bs) =
    append_hex_bytes-out (append_hex_byte out b) bs
    ∙ rw (append_hex_bytes-out (append_hex_byte [] b) bs)
        (append_assoc out (append_hex_byte [] b) (append_hex_bytes [] bs))

append_text_dump-cons :
    (b : ℕ) (p : Bytes)
    → append_text_dump [] (b ∷ p) ≡ append_text_byte [] b ++ append_text_dump [] p
append_text_dump-cons b p =
    unfold append_text_dump in append_text_dump-out (append_text_byte [] b) p

append_hex_bytes-cons :
    (b : ℕ) (p : Bytes)
    → append_hex_bytes [] (b ∷ p) ≡ append_hex_byte [] b ++ append_hex_bytes [] p
append_hex_bytes-cons b p = unfold append_hex_bytes in append_hex_bytes-out (append_hex_byte [] b) p

pub append_text_dump-append :
    (p q : Bytes) → append_text_dump [] (p ++ q) ≡ append_text_dump [] p ++ append_text_dump [] q
append_text_dump-append [] q = unfold append_text_dump in refl
append_text_dump-append (b ∷ bs) q =
    rw (append_text_dump-cons b (bs ++ q), append_text_dump-cons b bs, append_text_dump-append bs q)
      (sym (append_assoc (append_text_byte [] b) (append_text_dump [] bs) (append_text_dump [] q)))

pub append_hex_bytes-append :
    (p q : Bytes) → append_hex_bytes [] (p ++ q) ≡ append_hex_bytes [] p ++ append_hex_bytes [] q
append_hex_bytes-append [] q = unfold append_hex_bytes in refl
append_hex_bytes-append (b ∷ bs) q =
    rw (append_hex_bytes-cons b (bs ++ q), append_hex_bytes-cons b bs, append_hex_bytes-append bs q)
      (sym (append_assoc (append_hex_byte [] b) (append_hex_bytes [] bs) (append_hex_bytes [] q)))

append_padding-out : (out : Bytes) (n : ℕ) → append_padding out n ≡ out ++ append_padding [] n
unfolding append_padding
append_padding-out out zero = sym (append-nil out)
append_padding-out out (suc n) =
    append_padding-out (out ++ (32 ∷ 32 ∷ 32 ∷ [])) n
    ∙ rw (append_padding-out (32 ∷ 32 ∷ 32 ∷ []) n)
        (append_assoc out (32 ∷ 32 ∷ 32 ∷ []) (append_padding [] n))

append_row_text-out : (out p : Bytes) → append_row_text out p ≡ out ++ append_row_text [] p
unfolding append_row_text
append_row_text-out out [] = sym (append-nil out)
append_row_text-out out (b ∷ bs) =
    let step : (c : ℕ) → append_row_text (out ++ (c ∷ [])) bs ≡ out ++ append_row_text (c ∷ []) bs =
      λ c.
        append_row_text-out (out ++ (c ∷ [])) bs
        ∙ rw (append_row_text-out (c ∷ []) bs)
            (append_assoc out (c ∷ []) (append_row_text [] bs)) in
    ground (arith, step 46, step b)

row_body :
    (out p : Bytes) (n : ℕ)
    → append_padding (append_hex_bytes out p) n ++ (32 ∷ 32 ∷ [])
      ≡ out ++ (append_padding (append_hex_bytes [] p) n ++ (32 ∷ 32 ∷ []))
row_body out p n =
    rw
      (
        append_padding-out (append_hex_bytes out p) n,
        append_padding-out (append_hex_bytes [] p) n,
        append_hex_bytes-out out p,
      )
      (rw (append_assoc out (append_hex_bytes [] p) (append_padding [] n))
        (append_assoc out (append_hex_bytes [] p ++ append_padding [] n) (32 ∷ 32 ∷ [])))

row_line :
    (out head p : Bytes)
    → append_row_text (out ++ head) p ++ (10 ∷ []) ≡ out ++ (append_row_text head p ++ (10 ∷ []))
row_line out head p =
    rw (append_row_text-out (out ++ head) p, append_row_text-out head p)
      (rw (append_assoc out head (append_row_text [] p))
        (append_assoc out (head ++ append_row_text [] p) (10 ∷ [])))

pub append_combined_row-out :
    (out p : Bytes)
    → append_combined_row out p
      ≡ (out ++ (append_combined_row [] p).0, (append_combined_row [] p).1)
unfolding append_combined_row
append_combined_row-out out p =
    let row = row_length dump_hex_width p in
    rw (row_body out (take row p) (dump_hex_width - row))
      (ap (λ (line : Bytes). (line, drop row p)) (row_line out _ (take row p)))

-- A row takes at least one byte.
pub row-progress :
    (out : Bytes) (b : ℕ) (bs : Bytes) → length (append_combined_row out (b ∷ bs)).1 ≤ length bs
unfolding append_combined_row row_length
row-progress out b bs =
    ground (arith, length-drop 1 (b ∷ bs), length-drop (suc (row_length 15 bs)) (b ∷ bs))

pub combined_rows_step :
    (fuel : ℕ) (out : Bytes) (b : ℕ) (bs : Bytes)
    → combined_rows (suc fuel) out (b ∷ bs)
      ≡ combined_rows fuel
          (out ++ (append_combined_row [] (b ∷ bs)).0)
          (append_combined_row [] (b ∷ bs)).1
unfolding combined_rows
combined_rows_step fuel out b bs =
    ap (λ (r : Bytes × Bytes). combined_rows fuel r.0 r.1) (append_combined_row-out out (b ∷ bs))
