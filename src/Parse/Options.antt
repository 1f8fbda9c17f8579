-- ===== src/Parse/Options.antt =====
-- The options of an address: internal/parse/spec.go's Option, and parseOption and splitOptions of
-- internal/parse/parse.go.
use socat.Parse.Error.{◌>>=◌, ok, Result}
use socat.Parse.Trim.{trim_unescaped_space}
use socat.Parse.Unquote.{unquote}
use socat.OptionMeta.{OptionDef, is_path_value, parser_canonical}
use socat.Parse.Scanner.{step, SpecScanner, new_spec_scanner, at_top, find_top}
use socat.Prelude.{
  ◌++◌, none, ◌&&◌, ◌==◌, false, suc, ◌∷◌, length, [], drop, if◌then◌else◌, true, take, some, List,
  Option, Bytes, Bool, ℕ,
}

-- What parsing takes from outside: the platform's kind of paths, Go's strings.ToUpper,
-- strings.ToLower and strings.TrimSpace, and the tables of the option catalogue.
pub record Platform : Type 0 where
  pub windows : Bool
  pub to_upper : Bytes → Bytes
  pub to_lower : Bytes → Bytes
  pub trim_space : Bytes → Bytes
  pub catalog : List OptionDef

-- Option
pub record AddressOption : Type 0 where
  pub name : Bytes
  pub spelling : Bytes
  pub value : Bytes
  pub has : Bool

-- The byte slices before and after the index where there is one.
abbrev pub cut_at : Option ℕ → Bytes → Bytes × Option Bytes
cut_at none s = (s, none)
cut_at (some i) s = (take i s, some (drop (suc i) s))

unfoldable pub index_top_level : Bytes → ℕ → Option ℕ
unfolding find_top
index_top_level s sep = find_top sep (new_spec_scanner true) s

module _ (p : Platform) where
  -- normalizeOptionName
  unfoldable pub normalize_option_name : Bytes → Bytes
  unfolding parser_canonical
  normalize_option_name name = parser_canonical p.to_lower p.trim_space p.catalog name

  unfoldable pub path_option : Bytes → Bool
  unfolding normalize_option_name is_path_value
  path_option name = is_path_value p.to_lower p.trim_space p.catalog (normalize_option_name name)

  -- The end of parseOption, with the value behind the equals sign if there is one.
  unfoldable pub with_value : Bytes → Option Bytes → Result AddressOption
  unfolding normalize_option_name path_option unquote
  with_value spelling none =
      ok record {
        name = normalize_option_name spelling;
        spelling = spelling;
        value = [];
        has = false;
      }
  with_value spelling (some raw) =
      unquote p.windows (path_option (normalize_option_name spelling)) raw >>= λ v.
      ok
        record { name = normalize_option_name spelling; spelling = spelling; value = v; has = true }

  unfoldable pub parse_option : Bytes → Result AddressOption
  unfolding index_top_level with_value
  parse_option s =
      let parts = cut_at (index_top_level s b'=') s in with_value (p.to_lower parts.0) parts.1

  -- A piece between two commas, before the options of what follows.
  unfoldable pub add_option : Bytes → Result (List AddressOption) → Result (List AddressOption)
  unfolding trim_unescaped_space parse_option
  add_option piece later =
      let part = trim_unescaped_space piece in
      if length part == 0 then later else parse_option part >>= λ o. later >>= λ os. ok (o ∷ os)

  -- The loop of splitOptions; `piece` is s[start:sc.Pos()].
  unfoldable pub options_loop : SpecScanner → Bytes → Bytes → Result (List AddressOption)
  unfolding at_top add_option
  options_loop sc piece [] = add_option piece (ok [])
  options_loop sc piece (c ∷ rest) = elim (at_top sc c && c == b',') [
    | true ↦ add_option piece (options_loop (step sc c).1 [] rest)
    | false ↦ options_loop (step sc c).1 (piece ++ c ∷ []) rest
  ]

  unfoldable pub split_options : Bytes → Result (List AddressOption)
  unfolding options_loop
  split_options s = if length s == 0 then ok [] else options_loop (new_spec_scanner true) [] s
