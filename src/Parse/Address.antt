-- ===== src/Parse/Address.antt =====
-- internal/parse/spec.go and the address grammar of internal/parse/parse.go: ParseChannel,
-- ParseSpec and what they split.
pub mod Sound
use mathlib.Core.Option.{map}
use socat.Prelude.Text.{has_prefix, equal_text, codes, join}
use socat.Parse.Trim.{trim_unescaped_space}
use socat.Parse.Path.{socket_data_index, path_param_type, looks_like_path, is_windows_drive_colon}
use socat.Parse.Error.{
  empty_address, missing_type, dual_right, err, dual_left, wrap, ok, ◌>>=◌, Result,
}
use socat.Parse.Unquote.{check_balanced_quotes, unquote}
use socat.Parse.Options.{cut_at, split_options, AddressOption, index_top_level, Platform}
use socat.Parse.Scanner.{step, new_spec_scanner, SpecScanner, at_top}
use socat.Prelude.{
  ◌++◌, suc, not, drop, [], length, ◌&&◌, ◌==◌, some, leb, if◌then◌else◌, true, none, false, ◌∷◌,
  is_some, List, Bool, Option, Bytes, ℕ,
}

pub record Spec : Type 0 where
  pub type_name : Bytes
  pub params : List Bytes
  pub options : List AddressOption
  pub raw : Bytes

pub record Dual : Type 0 where
  pub left : Spec
  pub right : Spec
  pub raw : Bytes

pub record Channel : Type 0 where
  pub single : Option Spec
  pub dual : Option Dual
  pub raw : Bytes

unfoldable pub is_dual : Channel → Bool
is_dual c = is_some c.dual

-- A byte before the left of two parts.
abbrev pub onto_left {ℓ} : {A : Type ℓ} → ℕ → Bytes × A → Bytes × A
onto_left c (l, r) = (c ∷ l, r)

-- The loop of splitDual from a scanner on.
unfoldable pub dual_loop : SpecScanner → Bytes → Option (Bytes × Bytes)
unfolding at_top
dual_loop sc [] = none
dual_loop sc (c ∷ rest) =
    let later = dual_loop (step sc c).1 rest in
    if at_top sc c && (c == b'!' && has_prefix rest (b'!' ∷ []))
    then some ([], drop 1 rest)
    else map (onto_left c) later

unfoldable pub split_dual : Bytes → Option (Bytes × Bytes)
unfolding dual_loop
split_dual s = dual_loop (new_spec_scanner true) s

-- The type, and the rest with whether a colon stood before it.
unfoldable pub split_type : Bytes → Bytes × (Bytes × Bool)
split_type [] = ([], ([], false))
split_type (c ∷ rest) =
    let later = split_type rest in
    if c == b':'
    then ([], (rest, true))
    else if c == b','
    then ([], (c ∷ rest, false))
    else onto_left c later

-- The bytes of a string are all digits, and there is one.
unfoldable pub is_all_digits : Bytes → Bool
is_all_digits [] = false
is_all_digits (c ∷ []) = leb b'0' c && leb c b'9'
is_all_digits (c ∷ d ∷ rest) = (leb b'0' c && leb c b'9') && is_all_digits (d ∷ rest)

-- index >= dataIndex && dataIndex >= 0
abbrev pub preserves_raw : Option ℕ → ℕ → Bool
preserves_raw none index = false
preserves_raw (some d) index = leb d index

module _ (windows : Bool) where
  unfoldable pub colon_param : Bytes → Bool → Result Bytes
  unfolding unquote
  colon_param value preserve_raw = if preserve_raw then ok value else unquote windows false value

  abbrev pub add_param : Result Bytes → Result (List Bytes) → Result (List Bytes)
  add_param part later = part >>= λ q. later >>= λ qs. ok (q ∷ qs)

  -- The loop of splitColonParams; `piece` is s[start:sc.Pos()].
  unfoldable pub params_loop : Option ℕ → SpecScanner → Bytes → ℕ → Bytes → Result (List Bytes)
  unfolding at_top is_windows_drive_colon colon_param
  params_loop d sc piece index [] = add_param (colon_param piece (preserves_raw d index)) (ok [])
  params_loop d sc piece index (c ∷ rest) =
      elim (at_top sc c && (c == b':' && not (is_windows_drive_colon piece rest))) [
        | true ↦
            add_param (colon_param piece (preserves_raw d index))
              (params_loop d (step sc c).1 [] (suc index) rest)
        | false ↦ params_loop d (step sc c).1 (piece ++ c ∷ []) index rest
      ]

  unfoldable pub split_colon_params : Bytes → Bool → Option ℕ → Result (List Bytes)
  unfolding unquote params_loop
  split_colon_params s path_param d =
      if length s == 0
      then ok []
      else if path_param
      then add_param (unquote windows true s) (ok [])
      else params_loop d (new_spec_scanner (not (is_some d))) [] 0 s

module _ (p : Platform) where
  -- The options behind the comma where the options start.
  abbrev pub tail_options : Option Bytes → Result (List AddressOption)
  tail_options none = ok []
  tail_options (some s) = split_options p s

  unfoldable pub split_params_and_options :
      Bytes → Bool → Option ℕ → Result (List Bytes × List AddressOption)
  unfolding index_top_level split_colon_params split_options
  split_params_and_options s path_param d =
      let parts = cut_at (index_top_level s b',') s in
      split_colon_params p.windows parts.0 path_param d >>= λ params.
      tail_options parts.1 >>= λ options. ok (params, options)

  -- The one parameter of a bare path.
  abbrev pub path_params : Bytes → List Bytes → List Bytes
  path_params s [] = s ∷ []
  path_params s (q ∷ []) = q ∷ []
  path_params s (q ∷ r ∷ qs) = join (b':' ∷ []) (q ∷ r ∷ qs) ∷ []

  unfoldable pub stdio_with_options : Bytes → Result Spec
  stdio_with_options s = split_options p (drop 2 s) >>= λ options.
      ok record { type_name = codes "STDIO"; params = []; options = options; raw = s }

  unfoldable pub path_spec : Bytes → Result Spec
  path_spec s = split_params_and_options s true none >>= λ both.
      ok record {
        type_name = codes "GOPEN";
        params = path_params s both.0;
        options = both.1;
        raw = s;
      }

  abbrev pub colon_params : Bool → List Bytes → List Bytes
  colon_params true [] = [] ∷ []
  colon_params false [] = []
  colon_params had_colon (q ∷ qs) = q ∷ qs

  unfoldable pub typed_spec : Bytes → Bytes → Bytes → Bool → Result Spec
  typed_spec s type_name rest had_colon =
      if length type_name == 0
      then err missing_type
      else (split_params_and_options rest (path_param_type p.windows (p.to_upper type_name))
            (socket_data_index (p.to_upper (p.trim_space type_name)))
          >>= λ both. ok record {
            type_name = p.to_upper type_name;
            params = colon_params had_colon both.0;
            options = both.1;
            raw = s;
          })

  -- ParseSpec of a trimmed string
  unfoldable pub trimmed_spec : Bytes → Result Spec
  unfolding stdio_with_options path_spec typed_spec is_all_digits looks_like_path split_type
  trimmed_spec s =
      if equal_text s (codes "-")
      then ok record { type_name = codes "STDIO"; params = []; options = []; raw = s }
      else if has_prefix s (codes "-,")
      then stdio_with_options s
      else if is_all_digits s
      then ok record { type_name = codes "FD"; params = s ∷ []; options = []; raw = s }
      else if looks_like_path p.windows s
      then path_spec s
      else let t = split_type s in typed_spec s t.0 t.1.0 t.1.1

  unfoldable pub parse_spec : Bytes → Result Spec
  unfolding trim_unescaped_space check_balanced_quotes trimmed_spec
  parse_spec text =
      let s = trim_unescaped_space text in
      if length s == 0 then err empty_address else check_balanced_quotes s >>= λ _. trimmed_spec s

  unfoldable pub dual_channel : Bytes → Bytes × Bytes → Result Channel
  unfolding parse_spec
  dual_channel s (l, r) = wrap dual_left (parse_spec l) >>= λ left.
      wrap dual_right (parse_spec r) >>= λ right.
      ok record {
        single = none;
        dual = some record { left = left; right = right; raw = s };
        raw = s;
      }

  unfoldable pub single_channel : Bytes → Result Channel
  unfolding parse_spec
  single_channel s = parse_spec s >>= λ spec. ok record { single = some spec; dual = none; raw = s }

  unfoldable pub parse_channel : Bytes → Result Channel
  unfolding trim_unescaped_space split_dual dual_channel single_channel
  parse_channel text =
      let s = trim_unescaped_space text in
      if length s == 0
      then err empty_address
      else elim (split_dual s) [ none ↦ single_channel s | some parts ↦ dual_channel s parts ]
