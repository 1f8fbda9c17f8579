-- ===== src/Parse/Print/Values.antt =====
-- Printed options and parameters are parsed to what they were, off Windows.
use mathlib.Core.Path.{ap₂, subst}
use socat.Parse.Path.{is_letter}
use socat.Parse.Scanner.{step_group, at_top, top, find_top, step, new_spec_scanner}
use socat.Parse.Print.Quoted.{Passes-quoted, step-equals, Passes-word}
use socat.Parse.Trim.{trim_unescaped_space}
use socat.Parse.Scanner.Quiet.{Passes-cons, find_top-append, Passes-append, Passes}
use socat.Parse.Error.{◌>>=◌, ok, Result}
use socat.Parse.Print.Plain.{
  unquote-quoted, is_word_byte-plain, trim_unescaped_space-plain, PlainEnd-quoted, is_plain,
  PlainEnd-append, PlainEnd,
}
use socat.Parse.Print.{quoted, AreBytes, is_word_byte, IsWord, print_setting, Setting}
use socat.Parse.Options.{
  cut_at, normalize_option_name, with_value, AddressOption, add_option, parse_option,
  index_top_level, Platform,
}
use socat.OptionMeta.{parser_canonical, OptionDef}
use mathlib.Core.Option.{map}
use socat.Prelude.{
  ◌+◌, ◌∙◌, arith, refl, ap, drop-append, suc, ◌++◌, take-length-append, [], length, ◌==◌, ◌∷◌,
  some, true, ◌≡◌, Bool, false, List, Bytes, ℕ,
}

abbrev pub unix : (Bytes → Bytes) → (Bytes → Bytes) → (Bytes → Bytes) → List OptionDef → Platform
unix upper lower trim catalog = record {
  windows = false;
  to_upper = upper;
  to_lower = lower;
  trim_space = trim;
  catalog = catalog;
}

pub PlainEnd-print_setting : (o : Setting) → PlainEnd (print_setting o)
unfolding print_setting
PlainEnd-print_setting (name, value) =
    PlainEnd-append name (PlainEnd-append (b'=' ∷ []) (PlainEnd-quoted value))

module _ (upper lower trim : Bytes → Bytes) (catalog : List OptionDef) where
  -- The option that a setting is.
  unfoldable pub read_setting : Setting → AddressOption
  read_setting (name, value) = record {
    name = parser_canonical lower trim catalog name;
    spelling = name;
    value = value;
    has = true;
  }

  -- A name in lower case and a value of bytes.
  abbrev pub IsSetting : Setting → Type 0
  IsSetting (name, value) = IsWord name × ((lower name ≡ name) × AreBytes value)

  find_equals :
      (name value : Bytes)
      → IsWord name
      → index_top_level (print_setting (name, value)) b'=' ≡ some (length name)
  unfolding index_top_level print_setting
  find_equals name value h =
      let passed = Passes-word b'=' true name (unfold is_word_byte is_letter in refl) h in
      let here : find_top b'=' (new_spec_scanner true) (b'=' ∷ quoted value) ≡ some 0 =
        unfold find_top at_top step step_group in refl in
      find_top-append b'=' (new_spec_scanner true) name (b'=' ∷ quoted value) passed.quiet
      ∙ ap (λ sc. map (λ i. length name + i) (find_top b'=' sc (b'=' ∷ quoted value))) passed.ends
      ∙ ap (map (λ i. length name + i)) here
      ∙ ap some (omega arith)

  with_value-quoted :
      (name value : Bytes)
      → AreBytes value
      → with_value (unix upper lower trim catalog) name (some (quoted value))
        ≡ ok (read_setting (name, value))
  unfolding with_value normalize_option_name read_setting
  with_value-quoted name value v = rw (unquote-quoted _ value v) refl

  pub parse_option-print_setting :
      (o : Setting)
      → IsSetting o
      → parse_option (unix upper lower trim catalog) (print_setting o) ≡ ok (read_setting o)
  unfolding parse_option
  parse_option-print_setting (name, value) (h, (low, v)) =
      let p = unix upper lower trim catalog in
      let cut : cut_at (index_top_level (print_setting (name, value)) b'=')
            (print_setting (name, value))
          ≡ (name, some (quoted value)) =
        ap (λ i. cut_at i (print_setting (name, value))) (find_equals name value h)
        ∙ unfold print_setting in
          ap₂ (λ (a : Bytes) (b : Bytes). (a, some b))
            (take-length-append name (b'=' ∷ quoted value))
            (drop-append name b'=' (quoted value)) in
      ap (λ parts. with_value p (lower parts.0) parts.1) cut
      ∙ ap (λ n. with_value p n (some (quoted value))) low
      ∙ with_value-quoted name value v

  pub print_setting-front :
      (o : Setting)
      → IsWord o.0
      → (c : ℕ) × ((s : Bytes) × ((print_setting o ≡ c ∷ s) × (is_plain c ≡ true)))
  unfolding print_setting
  print_setting-front ([], value) h = (b'=', (quoted value, (refl, refl)))
  print_setting-front (c ∷ name, value) (h, hs) =
      (c, (name ++ b'=' ∷ quoted value, (refl, is_word_byte-plain c h)))

  pub Passes-print_setting :
      (sep : ℕ) (track : Bool) (o : Setting)
      → is_word_byte sep ≡ false
      → (b'=' == sep) ≡ false
      → IsSetting o
      → Passes sep (new_spec_scanner track) (print_setting o) (new_spec_scanner track)
  unfolding print_setting
  Passes-print_setting sep track (name, value) h e (n, (low, v)) =
      let equals : step (new_spec_scanner track) b'=' ≡ (top, new_spec_scanner track) =
        step-equals track in
      Passes-append (Passes-word sep track name h n)
        (Passes-cons equals e (Passes-quoted sep track value v))

  pub add_option-print_setting :
      (o : Setting) (later : Result (List AddressOption))
      → IsSetting o
      → add_option (unix upper lower trim catalog) (print_setting o) later
        ≡ (later >>= λ os. ok (read_setting o ∷ os))
  unfolding add_option
  add_option-print_setting o later h =
      let (c, (s, (e, plain))) = print_setting-front o h.0 in
      let trimmed : trim_unescaped_space (print_setting o) ≡ print_setting o =
        rw e (trim_unescaped_space-plain c s plain (subst PlainEnd e (PlainEnd-print_setting o))) in
      let size : length (print_setting o) ≡ suc (length s) = ap length e in
      let long : (length (print_setting o) == 0) ≡ false = ground arith in
      rw trimmed (rw long (rw (parse_option-print_setting o h) refl))
