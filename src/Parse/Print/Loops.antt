-- ===== src/Parse/Print/Loops.antt =====
-- The loops of the parser over text that they pass.
use socat.Parse.Path.{is_windows_drive_colon}
use socat.Parse.Scanner.Quiet.{Passes, Quiet}
use socat.Parse.Address.{preserves_raw, colon_param, add_param, params_loop}
use socat.Parse.Scanner.{step_group, new_spec_scanner, at_top, step, walk, SpecScanner}
use socat.Parse.Options.{add_option, options_loop, Platform}
use socat.Prelude.{
  suc, refl, true, arith, false, not, ◌==◌, ◌&&◌, append_assoc, ◌∷◌, append-nil, sym, ◌∙◌, ap, ◌≡◌,
  [], ◌++◌, Option, Bytes, Bool, ℕ,
}

module _ (p : Platform) where
  -- a step of the comma loop
  options_step :
      (b : Bool) (sc : SpecScanner) (piece : Bytes) (c : ℕ) (s : Bytes)
      → (at_top sc c && c == b',') ≡ b
      → options_loop p sc piece (c ∷ s) ≡ (elim b [
        | true ↦ add_option p piece (options_loop p (step sc c).1 [] s)
        | false ↦ options_loop p (step sc c).1 (piece ++ c ∷ []) s
      ])
  unfolding options_loop
  options_step b sc piece c s h =
      ap
        (λ a. elim a [
          | true ↦ add_option p piece (options_loop p (step sc c).1 [] s)
          | false ↦ options_loop p (step sc c).1 (piece ++ c ∷ []) s
        ])
        h

  -- A comma at the top level ends a piece.
  pub options_loop-comma :
      (piece s : Bytes)
      → options_loop p (new_spec_scanner true) piece (b',' ∷ s)
        ≡ add_option p piece (options_loop p (new_spec_scanner true) [] s)
  options_loop-comma piece s =
      options_step true (new_spec_scanner true) piece b',' s (unfold at_top step step_group in refl)
      ∙ unfold step step_group in refl

  -- the comma loop, as far as it meets no comma
  options_loop-Quiet :
      (sc : SpecScanner) (piece s t : Bytes)
      → Quiet b',' sc s
      → options_loop p sc piece (s ++ t) ≡ options_loop p (walk sc s) (piece ++ s) t
  unfolding Quiet walk
  options_loop-Quiet sc piece [] t q = ap (λ r. options_loop p sc r t) (sym (append-nil piece))
  options_loop-Quiet sc piece (c ∷ s) t (h, q) =
      options_step false sc piece c (s ++ t) h
      ∙ (options_loop-Quiet (step sc c).1 (piece ++ c ∷ []) s t q
          ∙ ap (λ r. options_loop p (walk (step sc c).1 s) r t) (append_assoc piece (c ∷ []) s))

  pub options_loop-Passes :
      {sc last : SpecScanner} (s t : Bytes)
      → Passes b',' sc s last
      → options_loop p sc [] (s ++ t) ≡ options_loop p last s t
  options_loop-Passes {sc} s t h =
      options_loop-Quiet sc [] s t h.quiet ∙ ap (λ r. options_loop p r s t) h.ends

module _ (windows : Bool) where
  params_step :
      (b : Bool) (d : Option ℕ) (sc : SpecScanner) (piece : Bytes) (i c : ℕ) (s : Bytes)
      → (at_top sc c && (c == b':' && not (is_windows_drive_colon piece s))) ≡ b
      → params_loop windows d sc piece i (c ∷ s) ≡ (elim b [
        | true ↦
            add_param windows
              (colon_param windows piece (preserves_raw d i))
              (params_loop windows d (step sc c).1 [] (suc i) s)
        | false ↦ params_loop windows d (step sc c).1 (piece ++ c ∷ []) i s
      ])
  unfolding params_loop
  params_step b d sc piece i c s h =
      ap
        (λ a. elim a [
          | true ↦
              add_param windows (colon_param windows piece (preserves_raw d i))
                (params_loop windows d (step sc c).1 [] (suc i) s)
          | false ↦ params_loop windows d (step sc c).1 (piece ++ c ∷ []) i s
        ])
        h

  -- A colon at the top level ends a piece, unless it is that of a drive.
  pub params_loop-colon :
      (d : Option ℕ) (piece : Bytes) (i : ℕ) (s : Bytes)
      → is_windows_drive_colon piece s ≡ false
      → params_loop windows d (new_spec_scanner true) piece i (b':' ∷ s)
        ≡ add_param windows
            (colon_param windows piece (preserves_raw d i))
            (params_loop windows d (new_spec_scanner true) [] (suc i) s)
  params_loop-colon d piece i s h =
      params_step true d (new_spec_scanner true) piece i b':' s
        (unfold at_top step step_group in ap not h)
      ∙ unfold step step_group in refl

  params_loop-Quiet :
      (d : Option ℕ) (sc : SpecScanner) (piece : Bytes) (i : ℕ) (s t : Bytes)
      → Quiet b':' sc s
      → params_loop windows d sc piece i (s ++ t)
        ≡ params_loop windows d (walk sc s) (piece ++ s) i t
  unfolding Quiet walk
  params_loop-Quiet d sc piece i [] t q =
      ap (λ r. params_loop windows d sc r i t) (sym (append-nil piece))
  params_loop-Quiet d sc piece i (c ∷ s) t (h, q) =
      let skips : (at_top sc c && (c == b':' && not (is_windows_drive_colon piece (s ++ t))))
          ≡ false =
        ground arith in
      params_step false d sc piece i c (s ++ t) skips
      ∙ (params_loop-Quiet d (step sc c).1 (piece ++ c ∷ []) i s t q
          ∙ ap (λ r. params_loop windows d (walk (step sc c).1 s) r i t)
              (append_assoc piece (c ∷ []) s))

  pub params_loop-Passes :
      {sc last : SpecScanner} (d : Option ℕ) (i : ℕ) (s t : Bytes)
      → Passes b':' sc s last
      → params_loop windows d sc [] i (s ++ t) ≡ params_loop windows d last s i t
  params_loop-Passes {sc} d i s t h =
      params_loop-Quiet d sc [] i s t h.quiet ∙ ap (λ r. params_loop windows d r s i t) h.ends
