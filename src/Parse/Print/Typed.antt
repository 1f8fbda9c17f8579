-- ===== src/Parse/Print/Typed.antt =====
-- The text of a printed address: what starts it, what ends it and where its type ends.
use socat.Parse.Print.Quoted.{Passes-quoted}
use socat.Parse.Scanner.{new_spec_scanner}
use socat.Parse.Scanner.Quiet.{Passes-append, Passes-nil, Passes}
use socat.Parse.Print.Split.{Passes-print_params, params_loop-print_params}
use socat.Parse.Error.{ok}
use socat.Parse.Print.Values.{PlainEnd-print_setting}
use mathlib.Core.Path.{subst}
use socat.Parse.Print.Plain.{PlainEnd-quoted, PlainEnd-append, PlainEnd}
use socat.Parse.Print.{
  AreBytes, print_address, print_setting, quoted, is_word_byte, Setting, IsWord, print_settings,
  print_params,
}
use socat.Parse.Path.{is_letter, path_bytes}
use socat.Parse.Address.{split_colon_params, onto_left, split_type}
use socat.Prelude.{
  All, ◌∙◌, append_assoc, length, ap, arith, ◌||◌, append-nil, refl, ◌==◌, Bool, true, sym, none,
  [], ◌∷◌, ◌≡◌, ◌++◌, false, List, Bytes,
}

split_type-word :
    (s rest : Bytes)
    → IsWord s
    → split_type (s ++ rest) ≡ (s ++ (split_type rest).0, (split_type rest).1)
unfolding split_type
split_type-word [] rest h = refl
split_type-word (c ∷ s) rest (h, hs) =
    let other : ((c == b':') ≡ false) × ((c == b',') ≡ false) =
      unfold is_word_byte is_letter in (ground arith, ground arith) in
    rw other.0 (rw other.1 (ap (onto_left c) (split_type-word s rest hs)))

split_type-print_settings :
    (os : List Setting) → split_type (print_settings os) ≡ ([], (print_settings os, false))
unfolding split_type print_settings
split_type-print_settings [] = refl
split_type-print_settings (o ∷ os) = refl

pub path_bytes-word :
    (s rest : Bytes) → IsWord s → path_bytes false (s ++ rest) ≡ path_bytes false rest
unfolding path_bytes
path_bytes-word [] rest h = refl
path_bytes-word (c ∷ s) rest (h, hs) =
    let sep : ((c == b'/') ≡ false)
        × (((c == b'\\') ≡ false) × ((c == b':' || c == b',') ≡ false)) =
      unfold is_word_byte is_letter in (ground arith, (ground arith, ground arith)) in
    rw sep.0 (rw sep.1.0 (rw sep.1.1 (path_bytes-word s rest hs)))

pub path_bytes-print :
    (params : List Bytes) (os : List Setting)
    → path_bytes false (print_params params ++ print_settings os) ≡ false
unfolding path_bytes print_params print_settings
path_bytes-print [] [] = refl
path_bytes-print [] (o ∷ os) = refl
path_bytes-print (q ∷ qs) os = refl

pub PlainEnd-print_params :
    (s : Bytes) (qs : List Bytes) → PlainEnd s → PlainEnd (s ++ print_params qs)
unfolding print_params
PlainEnd-print_params s [] h = subst PlainEnd (sym (append-nil s)) h
PlainEnd-print_params s (q ∷ qs) h =
    let step = PlainEnd-append s (PlainEnd-append (b':' ∷ []) (PlainEnd-quoted q)) in
    subst PlainEnd (append_assoc s (b':' ∷ quoted q) (print_params qs))
      (PlainEnd-print_params (s ++ b':' ∷ quoted q) qs step)

pub PlainEnd-print_settings :
    (s : Bytes) (os : List Setting) → PlainEnd s → PlainEnd (s ++ print_settings os)
unfolding print_settings
PlainEnd-print_settings s [] h = subst PlainEnd (sym (append-nil s)) h
PlainEnd-print_settings s (o ∷ os) h =
    let step = PlainEnd-append s (PlainEnd-append (b',' ∷ []) (PlainEnd-print_setting o)) in
    subst PlainEnd (append_assoc s (b',' ∷ print_setting o) (print_settings os))
      (PlainEnd-print_settings (s ++ b',' ∷ print_setting o) os step)

-- What stands behind the colon of the type, and whether there is one.
abbrev pub body : List Bytes → Bytes
body [] = []
body (q ∷ qs) = quoted q ++ print_params qs

abbrev pub has_colon : List Bytes → Bool
has_colon [] = false
has_colon (q ∷ qs) = true

pub split_type-print_address :
    (ty : Bytes) (params : List Bytes) (os : List Setting)
    → IsWord ty
    → split_type (print_address ty params os)
      ≡ (ty, (body params ++ print_settings os, has_colon params))
unfolding print_address print_params
split_type-print_address ty [] os h =
    split_type-word ty (print_settings os) h
    ∙ ap (λ (parts : Bytes × (Bytes × Bool)). (ty ++ parts.0, parts.1))
        (split_type-print_settings os)
    ∙ ap (λ (t : Bytes). (t, (print_settings os, false))) (append-nil ty)
split_type-print_address ty (q ∷ qs) os h =
    split_type-word ty (b':' ∷ body (q ∷ qs) ++ print_settings os) h
    ∙ unfold split_type in
      ap (λ (t : Bytes). (t, (body (q ∷ qs) ++ print_settings os, true))) (append-nil ty)

pub split_colon_params-body :
    (params : List Bytes)
    → All AreBytes params
    → split_colon_params false (body params) false none ≡ ok params
unfolding split_colon_params
split_colon_params-body [] h = refl
split_colon_params-body (q ∷ qs) h =
    let long : (length (quoted q ++ print_params qs) == 0) ≡ false =
      unfold quoted in ground arith in
    rw long (params_loop-print_params 0 q qs h)

pub Passes-body :
    (params : List Bytes)
    → All AreBytes params
    → Passes b',' (new_spec_scanner true) (body params) (new_spec_scanner true)
Passes-body [] h = Passes-nil
Passes-body (q ∷ qs) (h, hs) =
    Passes-append (Passes-quoted b',' true q h) (Passes-print_params b',' true qs refl hs)
