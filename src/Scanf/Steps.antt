-- ===== src/Scanf/Steps.antt =====
-- The steps of `sscanf` through fields of digits.
use gnome_usage.Base.{
  ℕ, ◌≤◌, ◌≡◌, refl, true, false, not, Option, none, some, List, [], ◌∷◌, ◌++◌, arith, length,
}
use gnome_usage.Base.Text.{Text}
use gnome_usage.Scanf.{
  is_space, is_digit, is_hex, skip_space, span, to_uint, to_long, hex_number, dec_number, Directive,
  space, byte, hex_set, hex, dec, skip_hex, skip_dec, skip_word, Value, str, num, directive, sscanf,
}
use gnome_usage.Scanf.Fields.{
  IsField, is_stop, padded, skip_space-padded, hex-IsPlain, scan_hex-field, scan_dec-field,
  scan_set-field,
}

-- The steps of `sscanf` on such fields.
module _ (ds : List Directive) (d : ℕ) (s : Text) (stop : is_stop d ≡ true) where
  pub sscanf-hex :
      (t : Text)
      → IsField is_hex t
      → sscanf (hex ∷ ds) (t ++ d ∷ s) ≡ num (to_uint false (hex_number t)) ∷ sscanf ds (d ∷ s)
  unfolding sscanf directive padded
  sscanf-hex t h = rw (sscanf, directive, scan_hex-field 0 t (d ∷ s) h stop) refl

  pub sscanf-skip_hex :
      (t : Text) → IsField is_hex t → sscanf (skip_hex ∷ ds) (t ++ d ∷ s) ≡ sscanf ds (d ∷ s)
  unfolding sscanf directive padded
  sscanf-skip_hex t h = rw (sscanf, directive, scan_hex-field 0 t (d ∷ s) h stop) refl

  pub sscanf-dec :
      (t : Text)
      → IsField is_digit t
      → sscanf (dec ∷ ds) (t ++ d ∷ s) ≡ num (to_long false (dec_number t)) ∷ sscanf ds (d ∷ s)
  unfolding sscanf directive padded
  sscanf-dec t h = rw (sscanf, directive, scan_dec-field 0 t (d ∷ s) h stop) refl

  pub sscanf-skip_dec :
      (k : ℕ) (t : Text)
      → IsField is_digit t
      → sscanf (skip_dec ∷ ds) (padded k (t ++ d ∷ s)) ≡ sscanf ds (d ∷ s)
  unfolding sscanf directive
  sscanf-skip_dec k t h = rw (sscanf, directive, scan_dec-field k t (d ∷ s) h stop) refl

  pub sscanf-hex_set :
      (width : ℕ) (t : Text)
      → IsField is_hex t
      → length t ≤ width
      → sscanf (hex_set width ∷ ds) (t ++ d ∷ s) ≡ str t ∷ sscanf ds (d ∷ s)
  unfolding sscanf directive
  sscanf-hex_set width t h fits =
      rw (sscanf, directive, scan_set-field width t (d ∷ s) h stop fits) refl

-- Spaces are skipped up to a field.
pub sscanf-space :
    (ds : List Directive) (k : ℕ) (t s : Text)
    → IsField is_hex t
    → sscanf (space ∷ ds) (padded k (t ++ s)) ≡ sscanf ds (t ++ s)
unfolding sscanf directive
sscanf-space ds k [] s h = elim h [ ]
sscanf-space ds k (c ∷ t) s h =
    rw (sscanf, directive, skip_space-padded k c (t ++ s) (hex-IsPlain c h.0).0) refl

pub sscanf-byte :
    (ds : List Directive) (b : ℕ) (s : Text) → sscanf (byte b ∷ ds) (b ∷ s) ≡ sscanf ds s
unfolding sscanf directive
sscanf-byte ds b s = ground arith

-- What comes last assigns nothing.
assigned_rest :
    (front rest : Text)
    → (elim (elim front as (λ _. Option (List Value × Text)) [
      | [] ↦ none
      | c ∷ more ↦ some ([], rest)
    ]) [ none ↦ [] | some (values, rest) ↦ values ++ sscanf (space ∷ []) rest ])
      ≡ []
unfolding sscanf directive
assigned_rest [] rest = refl
assigned_rest (c ∷ front) rest = refl

pub sscanf-rest : (width : ℕ) (s : Text) → sscanf (space ∷ skip_word width ∷ space ∷ []) s ≡ []
unfolding sscanf directive
sscanf-rest width s =
    let (front, rest) = span (λ c. not (is_space c)) width (skip_space (skip_space s)) in
    assigned_rest front rest
