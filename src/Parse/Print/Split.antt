-- ===== src/Parse/Print/Split.antt =====
-- Printed parameters and options are split and parsed to what they were.
use mathlib.Core.Path.{ap₂}
use socat.Parse.Print.Plain.{unquote-quoted}
use socat.Parse.Print.Loops.{
  options_loop-comma, params_loop-colon, options_loop-Passes, params_loop-Passes,
}
use socat.Parse.Error.{ok}
use socat.Parse.Print.Quoted.{Passes-quoted, step-comma, step-colon}
use mathlib.Core.List.{map}
use socat.Parse.Address.{
  add_param, preserves_raw, colon_param, split_params_and_options, split_colon_params, params_loop,
}
use socat.Parse.Scanner.{step_group, step, at_top, find_top, new_spec_scanner}
use socat.Parse.Scanner.Quiet.{find_top-append, Passes-append, Passes-cons, Passes-nil, Passes}
use socat.Parse.Print.Values.{
  add_option-print_setting, print_setting-front, Passes-print_setting, read_setting, unix,
  IsSetting,
}
use socat.Parse.Options.{
  add_option, cut_at, split_options, index_top_level, options_loop, AddressOption, Platform,
}
use socat.OptionMeta.{OptionDef}
use socat.Parse.Print.{
  is_word_byte, print_setting, AreBytes, Setting, escape_all, closing, quoted, print_settings,
  print_params,
}
use socat.Parse.Path.{is_letter, is_windows_drive_colon}
use mathlib.Core.Option.{map as map_index}
use mathlib.Core.List.{map}
use socat.Prelude.{
  ◌+◌, drop-append, length-append, suc, take-length-append, arith, sym, length, some, ap, ◌∙◌,
  append-nil, ◌++◌, refl, true, none, [], ◌∷◌, false, ◌≡◌, ◌==◌, All, List, Bool, Bytes, ℕ,
}

pub quoted-IsDrive : (t s : Bytes) → is_windows_drive_colon (quoted t) s ≡ false
unfolding is_windows_drive_colon quoted closing escape_all
quoted-IsDrive [] s = refl
quoted-IsDrive (b ∷ t) s = refl

pub Passes-print_params :
    (sep : ℕ) (track : Bool) (qs : List Bytes)
    → (b':' == sep) ≡ false
    → All AreBytes qs
    → Passes sep (new_spec_scanner track) (print_params qs) (new_spec_scanner track)
unfolding print_params
Passes-print_params sep track [] e h = Passes-nil
Passes-print_params sep track (q ∷ qs) e (h, hs) =
    Passes-cons (step-colon track) e
      (Passes-append (Passes-quoted sep track q h) (Passes-print_params sep track qs e hs))

colon_param-quoted :
    (q : Bytes) (i : ℕ) → AreBytes q → colon_param false (quoted q) (preserves_raw none i) ≡ ok q
unfolding colon_param
colon_param-quoted q i h = unquote-quoted false q h

pub params_loop-print_params :
    (i : ℕ) (q : Bytes) (qs : List Bytes)
    → All AreBytes (q ∷ qs)
    → params_loop false none (new_spec_scanner true) [] i (quoted q ++ print_params qs)
      ≡ ok (q ∷ qs)
unfolding print_params
params_loop-print_params i q [] (h, hs) =
    params_loop-Passes false none i (quoted q) [] (Passes-quoted b':' true q h)
    ∙ unfold params_loop in ap (λ r. add_param false r (ok [])) (colon_param-quoted q i h)
params_loop-print_params i q (r ∷ qs) (h, hs) =
    let more = quoted r ++ print_params qs in
    params_loop-Passes false none i (quoted q) (b':' ∷ more) (Passes-quoted b':' true q h)
    ∙ params_loop-colon false none (quoted q) i more (quoted-IsDrive q more)
    ∙ ap₂ (add_param false) (colon_param-quoted q i h) (params_loop-print_params (suc i) r qs hs)

find_top-end :
    (body : Bytes)
    → Passes b',' (new_spec_scanner true) body (new_spec_scanner true)
    → index_top_level body b',' ≡ none
unfolding index_top_level
find_top-end body passed =
    ap (find_top b',' (new_spec_scanner true)) (sym (append-nil body))
    ∙ find_top-append b',' (new_spec_scanner true) body [] passed.quiet
    ∙ unfold find_top in refl

find_top-comma :
    (body more : Bytes)
    → Passes b',' (new_spec_scanner true) body (new_spec_scanner true)
    → index_top_level (body ++ b',' ∷ more) b',' ≡ some (length body)
unfolding index_top_level
find_top-comma body more passed =
    let here : find_top b',' (new_spec_scanner true) (b',' ∷ more) ≡ some 0 =
      unfold find_top at_top step step_group in refl in
    find_top-append b',' (new_spec_scanner true) body (b',' ∷ more) passed.quiet
    ∙ ap (λ sc. map_index (λ i. length body + i) (find_top b',' sc (b',' ∷ more))) passed.ends
    ∙ ap (map_index (λ i. length body + i)) here
    ∙ ap some (omega arith)

module _ (upper lower trim : Bytes → Bytes) (catalog : List OptionDef) where
  abbrev p : Platform
  p = unix upper lower trim catalog

  abbrev pub read_settings : List Setting → List AddressOption
  read_settings os = map (read_setting upper lower trim catalog) os

  abbrev pub AreSettings : List Setting → Type 0
  AreSettings os = All (IsSetting upper lower trim catalog) os

  pub Passes-print_settings :
      (sep : ℕ) (track : Bool) (os : List Setting)
      → is_word_byte sep ≡ false
      → (b',' == sep) ≡ false
      → (b'=' == sep) ≡ false
      → AreSettings os
      → Passes sep (new_spec_scanner track) (print_settings os) (new_spec_scanner track)
  unfolding print_settings
  Passes-print_settings sep track [] w c e h = Passes-nil
  Passes-print_settings sep track (o ∷ os) w c e (h, hs) =
      let passed = Passes-print_setting upper lower trim catalog sep track o w e h in
      Passes-cons (step-comma track) c
        (Passes-append passed (Passes-print_settings sep track os w c e hs))

  Passes-comma :
      (o : Setting)
      → IsSetting upper lower trim catalog o
      → Passes b',' (new_spec_scanner true) (print_setting o) (new_spec_scanner true)
  Passes-comma o h =
      Passes-print_setting upper lower trim catalog b',' true o
        (unfold is_word_byte is_letter in refl) refl h

  options_loop-print_settings :
      (o : Setting) (os : List Setting)
      → AreSettings (o ∷ os)
      → options_loop p (new_spec_scanner true) [] (print_setting o ++ print_settings os)
        ≡ ok (read_settings (o ∷ os))
  unfolding print_settings
  options_loop-print_settings o [] (h, hs) =
      options_loop-Passes p (print_setting o) [] (Passes-comma o h)
      ∙ unfold options_loop in add_option-print_setting upper lower trim catalog o (ok []) h
  options_loop-print_settings o (r ∷ os) (h, hs) =
      let more = print_setting r ++ print_settings os in
      options_loop-Passes p (print_setting o) (b',' ∷ more) (Passes-comma o h)
      ∙ options_loop-comma p (print_setting o) more
      ∙ ap (add_option p (print_setting o)) (options_loop-print_settings r os hs)
      ∙ add_option-print_setting upper lower trim catalog o (ok (read_settings (r ∷ os))) h

  split_options-print_settings :
      (o : Setting) (os : List Setting)
      → AreSettings (o ∷ os)
      → split_options p (print_setting o ++ print_settings os) ≡ ok (read_settings (o ∷ os))
  unfolding split_options
  split_options-print_settings o os h =
      let (c, (s, (e, plain))) = print_setting-front upper lower trim catalog o h.0.0 in
      let long : (length (print_setting o ++ print_settings os) == 0) ≡ false =
        ground (arith, ap length e, length-append (print_setting o) (print_settings os)) in
      rw long (options_loop-print_settings o os h)

  pub split_params_and_options-print :
      (body : Bytes) (params : List Bytes) (os : List Setting)
      → Passes b',' (new_spec_scanner true) body (new_spec_scanner true)
      → split_colon_params false body false none ≡ ok params
      → AreSettings os
      → split_params_and_options p (body ++ print_settings os) false none
        ≡ ok (params, read_settings os)
  unfolding split_params_and_options print_settings
  split_params_and_options-print body params [] passed split h =
      rw (append-nil body) (rw (find_top-end body passed) (rw split refl))
  split_params_and_options-print body params (o ∷ os) passed split h =
      let more = print_setting o ++ print_settings os in
      let cut : cut_at (index_top_level (body ++ b',' ∷ more) b',') (body ++ b',' ∷ more)
          ≡ (body, some more) =
        ap (λ i. cut_at i (body ++ b',' ∷ more)) (find_top-comma body more passed)
        ∙ ap₂ (λ (a : Bytes) (b : Bytes). (a, some b)) (take-length-append body (b',' ∷ more))
            (drop-append body b',' more) in
      rw cut (rw split (rw (split_options-print_settings o os h) refl))
