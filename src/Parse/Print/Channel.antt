-- ===== src/Parse/Print/Channel.antt =====
-- Printed addresses, one or two of them, are parsed to the channel that they were.
use mathlib.Core.Path.{subst}
use socat.Parse.Error.{empty_address, err, ok}
use socat.Parse.Print.Values.{unix}
use socat.Parse.Print.Split.{AreSettings, read_settings}
use socat.Parse.Print.Plain.{
  PlainEnd-append, is_word_byte-plain, trim_unescaped_space-plain, PlainEnd,
}
use socat.Parse.Print.RoundTrip.{
  parse_spec-print_address, PlainEnd-print_address, Passes-print_address,
}
use socat.Parse.Path.{socket_data_index, path_param_type, is_letter}
use socat.OptionMeta.{OptionDef}
use socat.Prelude.Text.{has_prefix}
use socat.Parse.Scanner.{step_group, step, at_top, SpecScanner, new_spec_scanner, walk}
use socat.Parse.Scanner.Quiet.{Passes, Quiet}
use socat.Parse.Print.{
  print_settings, print_params, AreBytes, is_word_byte, IsWord, Setting, print_address,
}
use socat.Parse.Address.{
  dual_channel, single_channel, parse_channel, parse_spec, Spec, onto_left, split_dual, dual_loop,
}
use socat.Prelude.{
  length, if◌then◌else◌, All, arith, false, ◌∙◌, ◌==◌, append-nil, ◌&&◌, sym, refl, ap, none, true,
  [], some, ◌≡◌, ◌++◌, ◌∷◌, List, Option, Bytes, ℕ,
}
use mathlib.Core.Option.{map}

-- What an address is printed from: the first two bytes of its type, the others, and what follows.
pub record Written : Type 0 where
  pub first : ℕ
  pub second : ℕ
  pub others : Bytes
  pub params : List Bytes
  pub settings : List Setting

abbrev pub type_of : Written → Bytes
type_of w = w.first ∷ w.second ∷ w.others

abbrev pub print : Written → Bytes
print w = print_address (type_of w) w.params w.settings

-- Text in front of the left part.
abbrev before_left : Bytes → Bytes × Bytes → Bytes × Bytes
before_left s (l, r) = (s ++ l, r)

map-before_left :
    (c : ℕ) (s : Bytes) (o : Option (Bytes × Bytes))
    → map (onto_left c) (map (before_left s) o) ≡ map (before_left (c ∷ s)) o
map-before_left c s none = refl
map-before_left c s (some (l, r)) = refl

map-before_nil : (o : Option (Bytes × Bytes)) → o ≡ map (before_left []) o
map-before_nil none = refl
map-before_nil (some (l, r)) = refl

dual_loop-append :
    (sc : SpecScanner) (s t : Bytes)
    → Quiet b'!' sc s
    → dual_loop sc (s ++ t) ≡ map (before_left s) (dual_loop (walk sc s) t)
unfolding dual_loop Quiet walk
dual_loop-append sc [] t q = map-before_nil (dual_loop sc t)
dual_loop-append sc (c ∷ s) t (h, q) =
    let skips : (at_top sc c && (c == b'!' && has_prefix (s ++ t) (b'!' ∷ []))) ≡ false =
      ground arith in
    rw skips (
      ap (map (onto_left c)) (dual_loop-append (step sc c).1 s t q)
      ∙ map-before_left c s (dual_loop (walk (step sc c).1 s) t))

split_dual-none :
    (s : Bytes)
    → Passes b'!' (new_spec_scanner true) s (new_spec_scanner true)
    → split_dual s ≡ none
unfolding split_dual
split_dual-none s passed =
    ap (dual_loop (new_spec_scanner true)) (sym (append-nil s))
    ∙ dual_loop-append (new_spec_scanner true) s [] passed.quiet
    ∙ unfold dual_loop in refl

split_dual-marks :
    (l r : Bytes)
    → Passes b'!' (new_spec_scanner true) l (new_spec_scanner true)
    → split_dual (l ++ b'!' ∷ b'!' ∷ r) ≡ some (l, r)
unfolding split_dual
split_dual-marks l r passed =
    let here : dual_loop (new_spec_scanner true) (b'!' ∷ b'!' ∷ r) ≡ some ([], r) =
      unfold dual_loop at_top step step_group in refl in
    dual_loop-append (new_spec_scanner true) l (b'!' ∷ b'!' ∷ r) passed.quiet
    ∙ ap (λ sc. map (before_left l) (dual_loop sc (b'!' ∷ b'!' ∷ r))) passed.ends
    ∙ ap (map (before_left l)) here
    ∙ ap (λ (t : Bytes). some (t, r)) (append-nil l)

module _ (upper lower trim : Bytes → Bytes) (catalog : List OptionDef) where
  -- The type starts with a letter, is a word, and is neither one of a single path nor one of raw
  -- socket data; parameters and values are bytes, and the names of options are in lower case.
  pub record IsWritten (w : Written) : Type 0 where
    pub letter : is_letter w.first ≡ true
    pub word : IsWord (type_of w)
    pub plain : All AreBytes w.params
    pub named : AreSettings upper lower trim catalog w.settings
    pub no_path : path_param_type false (upper (type_of w)) ≡ false
    pub no_data : socket_data_index (upper (trim (type_of w))) ≡ none

  -- The address that `w` is printed for.
  abbrev pub read : Written → Spec
  read w = record {
    type_name = upper (type_of w);
    params = w.params;
    options = read_settings upper lower trim catalog w.settings;
    raw = print w;
  }

  -- What an address is printed as is parsed to the address: the type in capitals, the parameters
  -- and the options with their values.
  pub parse_spec-print :
      (w : Written)
      → IsWritten w
      → parse_spec (unix upper lower trim catalog) (print w) ≡ ok (read w)
  parse_spec-print w h =
      parse_spec-print_address upper lower trim catalog w.first w.second w.others w.params
        w.settings h.letter h.word h.plain h.named h.no_path h.no_data

  Passes-print :
      (w : Written)
      → IsWritten w
      → Passes b'!' (new_spec_scanner true) (print w) (new_spec_scanner true)
  Passes-print w h =
      Passes-print_address upper lower trim catalog w.first w.second w.others w.params w.settings
        h.letter h.word h.plain h.named b'!' true (unfold is_word_byte is_letter in refl) refl refl
        refl

  PlainEnd-print : (w : Written) → IsWritten w → PlainEnd (print w)
  PlainEnd-print w h =
      PlainEnd-print_address upper lower trim catalog w.first w.second w.others w.params w.settings
        h.letter h.word h.plain h.named

  -- ParseChannel of a string that has nothing to trim
  channel-plain :
      (w : Written) (t : Bytes)
      → IsWritten w
      → PlainEnd (print w ++ t)
      → (let p = unix upper lower trim catalog in
          let s = print w ++ t in
          parse_channel p s ≡ (elim (split_dual s) [
            | none ↦ single_channel p s
            | some parts ↦ dual_channel p s parts
          ]))
  unfolding parse_channel print_address
  channel-plain w t h e =
      let p = unix upper lower trim catalog in
      let rest =
        w.second ∷ ((w.others ++ (print_params w.params ++ print_settings w.settings)) ++ t) in
      let long : (length (print w ++ t) == 0) ≡ false = ground arith in
      ap
        (λ (s : Bytes). if length s == 0 then err empty_address else elim (split_dual s) [
          | none ↦ single_channel p s
          | some parts ↦ dual_channel p s parts
        ])
        (trim_unescaped_space-plain w.first rest (is_word_byte-plain w.first h.word.0) e)
      ∙ rw long refl

  -- A printed address is parsed to the channel of that address alone.
  pub parse_channel-print :
      (w : Written)
      → IsWritten w
      → parse_channel (unix upper lower trim catalog) (print w)
        ≡ ok record { single = some (read w); dual = none; raw = print w }
  parse_channel-print w h =
      let p = unix upper lower trim catalog in
      let Goal : Bytes → Type 0 = λ s. parse_channel p s ≡ (elim (split_dual s) [
        | none ↦ single_channel p s
        | some parts ↦ dual_channel p s parts
      ]) in
      let plain : PlainEnd (print w ++ []) =
        subst PlainEnd (sym (append-nil (print w))) (PlainEnd-print w h) in
      subst Goal (append-nil (print w)) (channel-plain w [] h plain)
      ∙ rw (split_dual-none (print w) (Passes-print w h))
          (unfold single_channel in rw (parse_spec-print w h) refl)

  -- Two printed addresses with two exclamation marks between them are parsed to the channel that
  -- reads from the first and writes to the second.
  pub parse_channel-print_dual :
      (l r : Written)
      → IsWritten l
      → IsWritten r
      → (let s = print l ++ b'!' ∷ b'!' ∷ print r in
          parse_channel (unix upper lower trim catalog) s
          ≡ ok record {
            single = none;
            dual = some record { left = read l; right = read r; raw = s };
            raw = s;
          })
  parse_channel-print_dual l r hl hr =
      let plain =
        PlainEnd-append (print l) (PlainEnd-append (b'!' ∷ b'!' ∷ []) (PlainEnd-print r hr)) in
      channel-plain l (b'!' ∷ b'!' ∷ print r) hl plain
      ∙ rw (split_dual-marks (print l) (print r) (Passes-print l hl))
          (unfold dual_channel in rw (parse_spec-print l hl) (rw (parse_spec-print r hr) refl))
