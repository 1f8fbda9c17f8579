-- ===== src/Parse/Scanner.antt =====
-- internal/parse/scanner.go. The string of a SpecScanner and its index are the list of the bytes
-- that are still unread, an argument beside the record.
pub mod Quiet
pub mod TopLevel
pub mod FirstTop
use socat.Prelude.{
  suc, ◌||◌, some, not, ◌-◌, [], none, ◌&&◌, ◌+◌, Option, ◌∷◌, true, ◌==◌, false, Bytes,
  if◌then◌else◌, Bool, ℕ,
}
use mathlib.Core.Option.{map}

-- ClassTop, ClassSkip, ClassDelim
pub data ScanClass : Type 0 where
  top skip delim : ScanClass

pub record SpecScanner : Type 0 where
  pub single : Bool
  pub double : Bool
  pub esc : Bool
  pub paren : ℕ
  pub brace : ℕ
  pub bracket : ℕ
  pub track_nesting : Bool

abbrev pub new_spec_scanner : Bool → SpecScanner
new_spec_scanner track = record {
  single = false;
  double = false;
  esc = false;
  paren = 0;
  brace = 0;
  bracket = 0;
  track_nesting = track;
}

-- The part of Step for a byte that is neither quoted nor escaped, with tracked nesting. A closing
-- byte at depth 0 leaves the depth at 0, as does the subtraction here.
unfoldable pub step_group : SpecScanner → ℕ → ScanClass × SpecScanner
step_group sc c =
    if c == b'('
    then (skip, record sc { paren = sc.paren + 1 })
    else if c == b')'
    then (skip, record sc { paren = sc.paren - 1 })
    else if c == b'{'
    then (skip, record sc { brace = sc.brace + 1 })
    else if c == b'}'
    then (skip, record sc { brace = sc.brace - 1 })
    else if c == b'['
    then (skip, record sc { bracket = sc.bracket + 1 })
    else if c == b']'
    then (skip, record sc { bracket = sc.bracket - 1 })
    else if not (sc.paren == 0) || (not (sc.brace == 0) || not (sc.bracket == 0))
    then (skip, sc)
    else (top, sc)

-- Step with the next byte: its class and the scanner after it.
unfoldable pub step : SpecScanner → ℕ → ScanClass × SpecScanner
step sc c =
    if sc.esc
    then (skip, record sc { esc = false })
    else if c == b'\\' && not sc.single
    then (skip, record sc { esc = true })
    else if sc.single
    then (if c == b'\'' then (delim, record sc { single = false }) else (skip, sc))
    else if sc.double
    then (if c == b'"' then (delim, record sc { double = false }) else (skip, sc))
    else if c == b'\''
    then (delim, record sc { single = true })
    else if c == b'"'
    then (delim, record sc { double = true })
    else if sc.track_nesting
    then step_group sc c
    else (top, sc)

abbrev pub is_top : ScanClass → Bool
is_top top = true
is_top skip = false
is_top delim = false

abbrev pub is_delim : ScanClass → Bool
is_delim top = false
is_delim skip = false
is_delim delim = true

-- Whether Step reads `c` as a separator.
unfoldable pub at_top : SpecScanner → ℕ → Bool
at_top sc c = is_top (step sc c).0

-- The scanner after all of the bytes.
unfoldable pub walk : SpecScanner → Bytes → SpecScanner
walk sc [] = sc
walk sc (c ∷ rest) = walk (step sc c).1 rest

-- The index of the first top-level occurrence of `sep` among the unread bytes.
unfoldable pub find_top : ℕ → SpecScanner → Bytes → Option ℕ
unfolding at_top
find_top sep sc [] = none
find_top sep sc (c ∷ rest) =
    let later = find_top sep (step sc c).1 rest in
    if at_top sc c && c == sep then some 0 else map suc later
