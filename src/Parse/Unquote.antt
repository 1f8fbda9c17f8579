-- ===== src/Parse/Unquote.antt =====
-- unquote, stripNestingQuotes and checkBalancedQuotes of internal/parse/parse.go.
use socat.Prelude.Text.{contains_byte}
use socat.Parse.Escapes.{expand_slash_escapes}
use socat.Parse.Trim.{trim_unescaped_space}
use socat.Parse.Path.{looks_like_windows_path}
use socat.Parse.Error.{unbalanced_quote, ok, err, Result}
use socat.Parse.Scanner.{step, is_delim, new_spec_scanner, walk, SpecScanner}
use socat.Prelude.{
  not, ◌==◌, [], ◌-◌, get_or, slice, ◌&&◌, ◌||◌, true, if◌then◌else◌, length, false, leb, ◌∷◌,
  Bytes, Bool, ℕ,
}

abbrev pub keep_unless : Bool → ℕ → Bytes → Bytes
keep_unless true c s = s
keep_unless false c s = c ∷ s

-- The loop of stripNestingQuotes.
unfoldable pub strip_loop : SpecScanner → Bytes → Bytes
strip_loop sc [] = []
strip_loop sc (c ∷ rest) = keep_unless (is_delim (step sc c).0) c (strip_loop (step sc c).1 rest)

unfoldable pub strip_nesting_quotes : Bytes → Bytes
unfolding strip_loop
strip_nesting_quotes s = strip_loop (new_spec_scanner false) s

unfoldable pub check_balanced_quotes : Bytes → Result (Unit {0})
unfolding walk
check_balanced_quotes s =
    let sc = walk (new_spec_scanner false) s in
    if sc.single || sc.double then err unbalanced_quote else ok tt

-- Whether a string of at least two bytes begins and ends with the same quote.
unfoldable pub is_quoted : Bytes → Bool
is_quoted s =
    leb 2 (length s)
    && ((get_or s 0 0 == b'"' && get_or s (length s - 1) 0 == b'"')
        || (get_or s 0 0 == b'\'' && get_or s (length s - 1) 0 == b'\''))

module _ (windows path_value : Bool) where
  unfoldable pub unquote_quoted : Bytes → Result Bytes
  unfolding looks_like_windows_path expand_slash_escapes
  unquote_quoted s =
      if path_value && looks_like_windows_path windows s then ok s else expand_slash_escapes s

  unfoldable pub unquote_bare : Bytes → Result Bytes
  unfolding strip_nesting_quotes looks_like_windows_path expand_slash_escapes
  unquote_bare s =
      let u = if contains_byte b'"' s || contains_byte b'\'' s then strip_nesting_quotes s else s in
      if path_value && looks_like_windows_path windows u
      then ok u
      else if not (contains_byte b'\\' u)
      then ok u
      else expand_slash_escapes u

  unfoldable pub unquote : Bytes → Result Bytes
  unfolding trim_unescaped_space is_quoted unquote_quoted unquote_bare
  unquote s =
      let t = trim_unescaped_space s in
      if is_quoted t then unquote_quoted (slice t 1 (length t - 1)) else unquote_bare t
