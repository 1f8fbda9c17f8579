-- ===== src/OptionMeta.antt =====
-- internal/optionmeta: the catalogue of the address options. Its tables, some hundred literal
-- options in the order of sections and hidden lists, are the parameter `catalog`;
-- strings.ToLower and strings.TrimSpace are parameters.
pub mod Spellings
use socat.Prelude.Text.{contains_text, equal_text}
use socat.Prelude.{
  ◌&&◌, ◌==◌, not, length, ◌||◌, false, if◌then◌else◌, true, some, none, [], Option, ◌∷◌, ◌++◌,
  Bool, List, Bytes, ℕ,
}

-- The fields of Option that the parser and the lookups read.
pub record OptionDef : Type 0 where
  pub canonical : Bytes
  pub aliases : List Bytes
  pub parser_aliases : List Bytes
  pub public_aliases : List Bytes
  pub path_value : Bool
  pub isolation : Bool
  pub kind : ℕ

unfoldable pub parse_aliases : OptionDef → List Bytes
parse_aliases d = d.aliases ++ d.parser_aliases

unfoldable pub help_aliases : OptionDef → List Bytes
help_aliases d = d.aliases ++ d.public_aliases

unfoldable pub names : OptionDef → List Bytes
names d = (d.canonical ∷ []) ++ (d.aliases ++ (d.parser_aliases ++ d.public_aliases))

-- Go's maps with string keys: the entry that was stored last stands first.
abbrev pub find {ℓ} : {V : Type ℓ} → Bytes → List (Bytes × V) → Option V
find key [] = none
find key ((k, v) ∷ rest) = if equal_text key k then some v else find key rest

abbrev pub store_all {ℓ} : {V : Type ℓ} → List Bytes → V → List (Bytes × V) → List (Bytes × V)
store_all [] v m = m
store_all (k ∷ ks) v m = store_all ks v ((k, v) ∷ m)

-- bySpelling, with the option in place of its index in the catalogue
unfoldable pub by_spelling : List OptionDef → List (Bytes × OptionDef) → List (Bytes × OptionDef)
unfolding names
by_spelling [] m = m
by_spelling (d ∷ ds) m = by_spelling ds (store_all (names d) d m)

-- parserAliases
unfoldable pub parser_alias_map : List OptionDef → List (Bytes × Bytes) → List (Bytes × Bytes)
unfolding parse_aliases
parser_alias_map [] m = m
parser_alias_map (d ∷ ds) m = parser_alias_map ds (store_all (parse_aliases d) d.canonical m)

module _ (to_lower : Bytes → Bytes) where
  -- The inner loop of validateCatalog: the spellings seen after it, or `none` for its errors.
  unfoldable pub claim_names : List Bytes → List Bytes → Option (List Bytes)
  claim_names [] seen = some seen
  claim_names (n ∷ ns) seen =
      let later = claim_names ns (n ∷ seen) in
      if length n == 0 || not (equal_text n (to_lower n))
      then none
      else if contains_text n seen
      then none
      else later

  unfoldable pub validate_catalog : List OptionDef → List Bytes → Option (List Bytes)
  unfolding claim_names names
  validate_catalog [] seen = some seen
  validate_catalog (d ∷ ds) seen = elim (claim_names (names d) seen) [
    | none ↦ none
    | some seen' ↦ validate_catalog ds seen'
  ]

module _ (to_lower trim_space : Bytes → Bytes) (catalog : List OptionDef) where
  -- Lookup
  unfoldable pub lookup_option : Bytes → Option OptionDef
  unfolding by_spelling
  lookup_option name = find (to_lower (trim_space name)) (by_spelling catalog [])

  unfoldable pub parser_canonical : Bytes → Bytes
  unfolding parser_alias_map
  parser_canonical name =
      let low = to_lower name in
      elim (find low (parser_alias_map catalog [])) [ none ↦ low | some canonical ↦ canonical ]

  unfoldable pub is_path_value : Bytes → Bool
  unfolding lookup_option
  is_path_value name = elim (lookup_option name) [ none ↦ false | some d ↦ d.path_value ]

-- validateKinds: whether every option that is not of the isolation policy has a value kind.
unfoldable pub validate_kinds : List OptionDef → Bool
validate_kinds [] = true
validate_kinds (d ∷ ds) = (d.isolation || not (d.kind == 0)) && validate_kinds ds
