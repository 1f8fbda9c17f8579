-- ===== src/Parse/Print/RoundTrip.antt =====
-- A printed address is parsed to what it was.
use socat.Parse.Print.Typed.{
  split_type-print_address, path_bytes-print, split_colon_params-body, Passes-body,
  PlainEnd-print_params, body, has_colon, PlainEnd-print_settings, path_bytes-word,
}
use socat.Parse.Print.Quoted.{Passes-word}
use socat.Parse.Unquote.{check_balanced_quotes}
use socat.Parse.Trim.{trim_unescaped_space}
use socat.Parse.Scanner.{new_spec_scanner, SpecScanner}
use socat.Parse.Scanner.Quiet.{Passes, Passes-append}
use socat.Parse.Print.Split.{
  split_params_and_options-print, Passes-print_settings, Passes-print_params, read_settings,
  AreSettings,
}
use socat.Prelude.Text.{has_prefix, codes, equal_text}
use socat.Parse.Error.{◌>>=◌, empty_address, unbalanced_quote, err, ok}
use socat.Parse.Print.Values.{unix}
use mathlib.Core.Path.{subst}
use socat.OptionMeta.{OptionDef}
use socat.Parse.Print.Plain.{
  is_word_byte-plain, trim_unescaped_space-plain, PlainEnd-word, PlainEnd,
}
use socat.Parse.Options.{AddressOption, Platform}
use socat.Parse.Print.{
  AreBytes, print_address, is_word_byte, Setting, IsWord, print_settings, print_params,
}
use socat.Parse.Path.{
  has_windows_volume, looks_like_path, socket_data_index, path_param_type, is_letter, path_bytes,
}
use socat.Parse.Address.{
  parse_spec, colon_params, is_all_digits, split_params_and_options, typed_spec, trimmed_spec,
  split_type,
}
use socat.Prelude.{
  if◌then◌else◌, All, ◌∙◌, append_assoc, length, ap, ◌<◌, arith, ◌||◌, refl, ◌==◌, Bool, true, none,
  [], ◌∷◌, ◌≡◌, ◌++◌, false, List, Bytes, ℕ,
}

-- The type of an address that starts with a letter is told apart from the forms without a type.
not_special :
    (c d : ℕ) (s : Bytes)
    → is_letter c ≡ true
    → is_word_byte d ≡ true
    → (equal_text (c ∷ d ∷ s) (codes "-") ≡ false)
      × ((has_prefix (c ∷ d ∷ s) (codes "-,") ≡ false)
          × ((is_all_digits (c ∷ d ∷ s) ≡ false) × (has_windows_volume (c ∷ d ∷ s) ≡ false)))
unfolding is_all_digits has_windows_volume
not_special c d s h w =
    unfold is_letter is_word_byte in (ground arith, (ground arith, (ground arith, ground arith)))

module _ (upper lower trim : Bytes → Bytes) (catalog : List OptionDef) where
  abbrev p : Platform
  p = unix upper lower trim catalog

  trimmed_spec-typed :
      (c d : ℕ) (name rest : Bytes)
      → is_letter c ≡ true
      → IsWord (c ∷ d ∷ name)
      → path_bytes false rest ≡ false
      → (let s = c ∷ d ∷ name ++ rest in
          let parts = split_type s in trimmed_spec p s ≡ typed_spec p s parts.0 parts.1.0 parts.1.1)
  unfolding trimmed_spec looks_like_path
  trimmed_spec-typed c d name rest h w path =
      let (a, (b, (e, v))) = not_special c d (name ++ rest) h w.1.0 in
      let bytes : path_bytes false (c ∷ d ∷ name ++ rest) ≡ false =
        path_bytes-word (c ∷ d ∷ name) rest w ∙ path in
      rw a (rw b (rw e (rw v (rw bytes refl))))

  typed_spec-ok :
      (s ty rest : Bytes) (had : Bool) (params : List Bytes) (os : List AddressOption)
      → 0 < length ty
      → path_param_type false (upper ty) ≡ false
      → socket_data_index (upper (trim ty)) ≡ none
      → split_params_and_options p rest false none ≡ ok (params, os)
      → typed_spec p s ty rest had
        ≡ ok record {
          type_name = upper ty;
          params = colon_params p had params;
          options = os;
          raw = s;
        }
  unfolding typed_spec
  typed_spec-ok s ty rest had params os n a b e =
      let named : (length ty == 0) ≡ false = ground arith in rw named (rw a (rw b (rw e refl)))

module _ (upper lower trim : Bytes → Bytes) (catalog : List OptionDef) (c d : ℕ) (name : Bytes)
    (params : List Bytes) (os : List Setting) (letter : is_letter c ≡ true)
    (word : IsWord (c ∷ d ∷ name)) (plain : All AreBytes params)
    (settings : AreSettings upper lower trim catalog os) where
  abbrev ty : Bytes
  ty = c ∷ d ∷ name

  abbrev printed : Bytes
  printed = print_address ty params os

  pub PlainEnd-print_address : PlainEnd printed
  unfolding print_address
  PlainEnd-print_address =
      let ends =
        PlainEnd-print_settings (ty ++ print_params params) os
          (PlainEnd-print_params ty params (PlainEnd-word c (d ∷ name) word)) in
      subst PlainEnd (append_assoc ty (print_params params) (print_settings os)) ends

  pub Passes-print_address :
      (sep : ℕ) (track : Bool)
      → is_word_byte sep ≡ false
      → (b':' == sep) ≡ false
      → (b',' == sep) ≡ false
      → (b'=' == sep) ≡ false
      → Passes sep (new_spec_scanner track) printed (new_spec_scanner track)
  unfolding print_address
  Passes-print_address sep track w co cm eq = Passes-append (Passes-word sep track ty w word) (
      Passes-append (Passes-print_params sep track params co plain)
        (Passes-print_settings upper lower trim catalog sep track os w cm eq settings))

  trimmed_printed : trim_unescaped_space printed ≡ printed
  unfolding print_address
  trimmed_printed =
      trim_unescaped_space-plain c (d ∷ name ++ (print_params params ++ print_settings os))
        (is_word_byte-plain c word.0) PlainEnd-print_address

  check_printed : check_balanced_quotes printed ≡ ok tt
  unfolding check_balanced_quotes
  check_printed =
      let passed =
        Passes-print_address 0 false (unfold is_word_byte is_letter in refl) refl refl refl in
      ap (λ (sc : SpecScanner). if sc.single || sc.double then err unbalanced_quote else ok tt)
        passed.ends

  colon_params-has_colon : (p : Platform) (qs : List Bytes) → colon_params p (has_colon qs) qs ≡ qs
  colon_params-has_colon p [] = refl
  colon_params-has_colon p (q ∷ qs) = refl

  typed_printed :
      path_param_type false (upper ty) ≡ false
      → socket_data_index (upper (trim ty)) ≡ none
      → trimmed_spec (unix upper lower trim catalog) printed
        ≡ ok record {
          type_name = upper ty;
          params = params;
          options = read_settings upper lower trim catalog os;
          raw = printed;
        }
  unfolding print_address
  typed_printed a b =
      let p = unix upper lower trim catalog in
      let split =
        split_params_and_options-print upper lower trim catalog (body params) params os
          (Passes-body params plain) (split_colon_params-body params plain) settings in
      trimmed_spec-typed upper lower trim catalog c d name
        (print_params params ++ print_settings os) letter word (path_bytes-print params os)
      ∙ ap (λ parts. typed_spec p printed parts.0 parts.1.0 parts.1.1)
          (split_type-print_address ty params os word)
      ∙ typed_spec-ok upper lower trim catalog printed ty (body params ++ print_settings os)
          (has_colon params) params (read_settings upper lower trim catalog os) (omega arith) a b
          split
      ∙ ap
          (λ (qs : List Bytes). ok record {
            type_name = upper ty;
            params = qs;
            options = read_settings upper lower trim catalog os;
            raw = printed;
          })
          (colon_params-has_colon p params)

  -- The printed address of a type that starts with a letter and has two bytes at least, and is not
  -- one of a single path or of raw socket data, is parsed to its type in capitals, its parameters
  -- and its options.
  pub parse_spec-print_address :
      path_param_type false (upper ty) ≡ false
      → socket_data_index (upper (trim ty)) ≡ none
      → parse_spec (unix upper lower trim catalog) (print_address ty params os)
        ≡ ok record {
          type_name = upper ty;
          params = params;
          options = read_settings upper lower trim catalog os;
          raw = print_address ty params os;
        }
  unfolding parse_spec
  parse_spec-print_address a b =
      let p = unix upper lower trim catalog in
      let long : (length printed == 0) ≡ false = unfold print_address in ground arith in
      let typed : trimmed_spec p printed
          ≡ ok record {
            type_name = upper ty;
            params = params;
            options = read_settings upper lower trim catalog os;
            raw = printed;
          } =
        typed_printed a b in
      ap
        (λ (s : Bytes).
          if length s == 0
          then err empty_address
          else check_balanced_quotes s >>= λ _. trimmed_spec p s)
        trimmed_printed
      ∙ rw long (rw check_printed typed)
