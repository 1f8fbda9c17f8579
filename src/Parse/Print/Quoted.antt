-- ===== src/Parse/Print/Quoted.antt =====
-- Quoted values read back.
use socat.Parse.Path.{is_letter}
use socat.Parse.Scanner.Quiet.{Passes-nil, Passes-cons, Passes}
use socat.Parse.Error.{ok}
use socat.Parse.Scanner.{top, delim, step_group, skip, new_spec_scanner, SpecScanner, step}
use socat.Parse.Print.{IsWord, is_word_byte, quoted, closing, AreBytes, hex_digit, escape_all}
use socat.Parse.Escapes.{expand_slash_escapes, hex_pair, hex_value}
use socat.Prelude.{
  ==_iff, refl, [], ◌∷◌, ap, arith, ◌%◌, false, true, some, ◌==◌, ◌/◌, ◌≡◌, Bytes, ◌<◌, Bool, ℕ,
}

hex_value-hex_digit : (n : ℕ) → n < 16 → hex_value (hex_digit n) ≡ some n
unfolding hex_value hex_digit
hex_value-hex_digit n h = ground arith

hex_pair-hex_digit : (b : ℕ) → b < 256 → hex_pair (hex_digit (b / 16)) (hex_digit (b % 16)) ≡ some b
unfolding hex_pair
hex_pair-hex_digit b h =
    rw (hex_value-hex_digit (b / 16) (omega arith))
      (rw (hex_value-hex_digit (b % 16) (omega arith)) (ap some (omega arith)))

-- Expanding the escapes of bytes gives the bytes.
pub expand_slash_escapes-escape_all :
    (t : Bytes) → AreBytes t → expand_slash_escapes (escape_all t) ≡ ok t
unfolding escape_all expand_slash_escapes
expand_slash_escapes-escape_all [] h = refl
expand_slash_escapes-escape_all (b ∷ t) (h, hs) =
    simp (hex_pair-hex_digit b h, expand_slash_escapes-escape_all t hs)

-- The scanner in double quotes and at the top level.
abbrev pub ground_scanner : Bool → SpecScanner
ground_scanner track = new_spec_scanner track

abbrev quoted_scanner : Bool → SpecScanner
quoted_scanner track = record (new_spec_scanner track) { double = true }

hex_digit_ne : (n : ℕ) → n < 16 → ((hex_digit n == b'"') ≡ false) × ((hex_digit n == b'\\') ≡ false)
unfolding hex_digit
hex_digit_ne n h = (ground arith, ground arith)

-- A hexadecimal digit within double quotes.
step-hex_digit :
    (track : Bool) (n : ℕ)
    → n < 16
    → step (quoted_scanner track) (hex_digit n) ≡ (skip, quoted_scanner track)
unfolding step
step-hex_digit track n h = let (a, b) = hex_digit_ne n h in simp (a, b)

-- The escapes and the closing quote are read without a separator and end the quotes.
Passes-closing :
    (sep : ℕ) (track : Bool) (t : Bytes)
    → AreBytes t
    → Passes sep (quoted_scanner track) (closing t) (new_spec_scanner track)
unfolding closing escape_all
Passes-closing sep track [] h =
    let last : step (quoted_scanner track) b'"' ≡ (delim, new_spec_scanner track) =
      unfold step in refl in
    Passes-cons last refl Passes-nil
Passes-closing sep track (b ∷ t) (h, hs) =
    let one : step (quoted_scanner track) b'\\'
        ≡ (skip, record (quoted_scanner track) { esc = true }) =
      unfold step in refl in
    let two : step (record (quoted_scanner track) { esc = true }) b'x'
        ≡ (skip, quoted_scanner track) =
      unfold step in refl in
    Passes-cons one refl (
      Passes-cons two refl (
        Passes-cons (step-hex_digit track (b / 16) (omega arith)) refl (
          Passes-cons (step-hex_digit track (b % 16) (omega arith)) refl
            (Passes-closing sep track t hs))))

-- A quoted value is read without a separator, whichever this is, and leaves the scanner as it was.
pub Passes-quoted :
    (sep : ℕ) (track : Bool) (t : Bytes)
    → AreBytes t
    → Passes sep (new_spec_scanner track) (quoted t) (new_spec_scanner track)
unfolding quoted
Passes-quoted sep track t h =
    let start : step (new_spec_scanner track) b'"' ≡ (delim, quoted_scanner track) =
      unfold step in refl in
    Passes-cons start refl (Passes-closing sep track t h)

-- A word is read in the same way, if the separator is none of its bytes.
step-word :
    (track : Bool) (c : ℕ)
    → is_word_byte c ≡ true
    → step (new_spec_scanner track) c ≡ (top, new_spec_scanner track)
unfolding step step_group is_word_byte is_letter
step-word true c h = ground arith
step-word false c h = ground arith

pub Passes-word :
    (sep : ℕ) (track : Bool) (s : Bytes)
    → is_word_byte sep ≡ false
    → IsWord s
    → Passes sep (new_spec_scanner track) s (new_spec_scanner track)
Passes-word sep track [] h w = Passes-nil
Passes-word sep track (c ∷ s) h (w, ws) =
    let other : (c == sep) ≡ false = ground (arith, ==_iff c sep) in
    Passes-cons (step-word track c w) other (Passes-word sep track s h ws)

pub step-equals :
    (track : Bool) → step (new_spec_scanner track) b'=' ≡ (top, new_spec_scanner track)
unfolding step step_group
step-equals true = refl
step-equals false = refl

pub step-colon : (track : Bool) → step (new_spec_scanner track) b':' ≡ (top, new_spec_scanner track)
unfolding step step_group
step-colon true = refl
step-colon false = refl

pub step-comma : (track : Bool) → step (new_spec_scanner track) b',' ≡ (top, new_spec_scanner track)
unfolding step step_group
step-comma true = refl
step-comma false = refl
