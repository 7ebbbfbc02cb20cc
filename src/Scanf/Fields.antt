-- ===== src/Scanf/Fields.antt =====
-- What the conversions of `sscanf` read from a field of digits that a stop follows.
use gnome_usage.Base.{
  ℕ, zero, suc, ◌≤◌, ◌≡◌, ◌≢◌, refl, ◌∙◌, ap, Bool, true, false, ◌||◌, not, Option, none, some, [],
  ◌∷◌, ◌++◌, ◌==◌, arith, All, All-map, length, length-append,
}
use gnome_usage.Base.Text.{Text}
use gnome_usage.Scanf.{
  is_space, is_digit, is_hex, skip_space, span, sign, hex_prefix, scan_number, scan_hex, scan_dec,
  scan_set, to_uint, to_long, hex_number, dec_number,
}

-- At least one byte, and all of them of a kind.
abbrev pub IsField : (ℕ → Bool) → Text → Type 0
IsField test [] = ⊥
IsField test (c ∷ s) = All (λ d. test d ≡ true) (c ∷ s)

-- A space or a colon.
abbrev pub is_stop : ℕ → Bool
is_stop c = c == 32 || c == 58

-- Nothing, or a stop.
abbrev pub is_ended : Text → Bool
is_ended [] = true
is_ended (d ∷ s) = is_stop d

-- Spaces in front of a text.
unfoldable pub padded : ℕ → Text → Text
padded zero s = s
padded (suc k) s = 32 ∷ padded k s

pub skip_space-padded :
    (k c : ℕ) (s : Text) → is_space c ≡ false → skip_space (padded k (c ∷ s)) ≡ c ∷ s
unfolding skip_space is_space padded
skip_space-padded zero c s h = ground arith
skip_space-padded (suc k) c s h = skip_space-padded k c s h

-- Nothing, or a byte that does not pass.
abbrev pub is_stopped : (ℕ → Bool) → Text → Bool
is_stopped test [] = true
is_stopped test (d ∷ s) = not (test d)

span-stop :
    (test : ℕ → Bool) (width : ℕ) (t r : Text)
    → All (λ c. test c ≡ true) t
    → is_stopped test r ≡ true
    → length t ≤ width
    → span test width (t ++ r) ≡ (t, r)
unfolding span
span-stop test zero [] [] h stop fits = refl
span-stop test (suc width) [] [] h stop fits = refl
span-stop test zero [] (d ∷ s) h stop fits = refl
span-stop test (suc width) [] (d ∷ s) h stop fits = ground arith
span-stop test zero (c ∷ t) r h stop fits = absurd (omega arith)
span-stop test (suc width) (c ∷ t) r h stop fits =
    rw (h.0, span-stop test width t r h.1 stop (omega arith)) refl

-- As many bytes as the width allows.
pub span-width :
    (test : ℕ → Bool) (t r : Text)
    → All (λ c. test c ≡ true) t
    → span test (length t) (t ++ r) ≡ (t, r)
unfolding span
span-width test [] [] h = refl
span-width test [] (d ∷ s) h = refl
span-width test (c ∷ t) r h = rw (h.0, span-width test t r h.1) refl

pub hex-IsPlain :
    (c : ℕ) → is_hex c ≡ true → (is_space c ≡ false) × (c ≢ 45) × (c ≢ 43) × (c ≢ 120) × (c ≢ 88)
unfolding is_hex is_digit is_space
hex-IsPlain c h = ground arith

digit-hex : (c : ℕ) → is_digit c ≡ true → is_hex c ≡ true
unfolding is_hex
digit-hex c h = ground arith

-- A field of decimal digits is one of hexadecimal digits.
pub digits-IsField : (t : Text) → IsField is_digit t → IsField is_hex t
digits-IsField [] h = h
digits-IsField (c ∷ t) h = All-map digit-hex (c ∷ t) h

stop-IsNoHex :
    (d : ℕ) → is_stop d ≡ true → (is_hex d ≡ false) × (is_digit d ≡ false) × (d ≢ 120) × (d ≢ 88)
unfolding is_hex is_digit
stop-IsNoHex d h = ground arith

ended-stopped :
    (r : Text) → is_ended r ≡ true → (is_stopped is_hex r ≡ true) × (is_stopped is_digit r ≡ true)
ended-stopped [] h = (refl, refl)
ended-stopped (d ∷ s) h = ground (arith, stop-IsNoHex d h)

sign-plain : (c : ℕ) (s : Text) → is_hex c ≡ true → sign (c ∷ s) ≡ (false, c ∷ s)
unfolding sign
sign-plain c s h = ground (arith, hex-IsPlain c h)

-- What is made of the bytes that pass, if there are any.
abbrev chosen : {A : Type 0} → (Text → A) → Text × Text → Option (A × Text)
chosen make (front, rest) = elim front [ [] ↦ none | c ∷ more ↦ some (make (c ∷ more), rest) ]

abbrev behind_sign :
    (ℕ → Bool) → (Bool → Text → ℕ) → (Text → Text) → Bool × Text → Option (ℕ × Text)
behind_sign test make prefix (minus, t) =
    chosen (make minus) (span test (length (prefix t)) (prefix t))

-- A number behind spaces, with no prefix to skip.
scan_number-padded :
    (test : ℕ → Bool) (make : Bool → Text → ℕ) (prefix : Text → Text) (k c : ℕ) (t : Text)
    (r : Text)
    → is_hex c ≡ true
    → All (λ e. test e ≡ true) (c ∷ t)
    → is_stopped test r ≡ true
    → prefix (c ∷ t ++ r) ≡ c ∷ t ++ r
    → scan_number test make prefix (padded k (c ∷ t ++ r)) ≡ some (make false (c ∷ t), r)
unfolding scan_number
scan_number-padded test make prefix k c t r plain h stop same =
    ap (λ u. behind_sign test make prefix (sign u))
      (skip_space-padded k c (t ++ r) (hex-IsPlain c plain).0)
    ∙ ap (behind_sign test make prefix) (sign-plain c (t ++ r) plain)
    ∙ ap (λ u. chosen (make false) (span test (length u) u)) same
    ∙ ap (chosen (make false)) (
        span-stop test (length (c ∷ t ++ r)) (c ∷ t) r h stop
          (omega (arith, length-append (c ∷ t) r)))

-- No field of digits before a stop begins like `0x`.
hex_prefix-field :
    (c : ℕ) (t r : Text)
    → All (λ e. is_hex e ≡ true) (c ∷ t)
    → is_ended r ≡ true
    → hex_prefix (c ∷ t ++ r) ≡ c ∷ t ++ r
unfolding hex_prefix
hex_prefix-field c [] [] h stop = refl
hex_prefix-field c [] (d ∷ []) h stop = refl
hex_prefix-field c [] (d ∷ e ∷ s) h stop = ground (arith, stop-IsNoHex d stop)
hex_prefix-field c (b ∷ []) [] h stop = refl
hex_prefix-field c (b ∷ []) (d ∷ s) h stop = ground (arith, hex-IsPlain b h.1.0)
hex_prefix-field c (b ∷ e ∷ t) r h stop = ground (arith, hex-IsPlain b h.1.0)

pub scan_hex-field :
    (k : ℕ) (t r : Text)
    → IsField is_hex t
    → is_ended r ≡ true
    → scan_hex (padded k (t ++ r)) ≡ some (to_uint false (hex_number t), r)
unfolding scan_hex
scan_hex-field k [] r h stop = elim h [ ]
scan_hex-field k (c ∷ t) r h stop =
    scan_number-padded is_hex (λ minus u. to_uint minus (hex_number u)) hex_prefix k c t r h.0 h
      (ended-stopped r stop).0 (hex_prefix-field c t r h stop)

pub scan_dec-field :
    (k : ℕ) (t r : Text)
    → IsField is_digit t
    → is_ended r ≡ true
    → scan_dec (padded k (t ++ r)) ≡ some (to_long false (dec_number t), r)
unfolding scan_dec
scan_dec-field k [] r h stop = elim h [ ]
scan_dec-field k (c ∷ t) r h stop =
    scan_number-padded is_digit (λ minus u. to_long minus (dec_number u)) (λ u. u) k c t r
      (digit-hex c h.0) h (ended-stopped r stop).1 refl

pub scan_set-field :
    (width : ℕ) (t r : Text)
    → IsField is_hex t
    → is_ended r ≡ true
    → length t ≤ width
    → scan_set width (t ++ r) ≡ some (t, r)
unfolding scan_set
scan_set-field width [] r h stop fits = elim h [ ]
scan_set-field width (c ∷ t) r h stop fits =
    ap (chosen (λ u. u)) (span-stop is_hex width (c ∷ t) r h (ended-stopped r stop).0 fits)
