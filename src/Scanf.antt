-- ===== src/Scanf.antt =====
-- The C library's `sscanf`, by its documented behaviour, at the conversions that
-- network-analyzer/na-conninode.c writes, with `strtoul` and `isdigit` of na-inodeproc.c.
pub mod Fields
pub mod Steps
pub mod Print
use gnome_usage.Base.{
  ℕ, zero, suc, ◌+◌, ◌-◌, ◌*◌, ◌%◌, ◌^◌, Bool, true, false, ◌&&◌, ◌||◌, Option, none, some, List,
  [], ◌∷◌, leb, ltb, ◌==◌, if◌then◌else◌, length, ◌++◌, not,
}
use gnome_usage.Base.Text.{Text}

unfoldable pub is_space : ℕ → Bool
is_space c = c == 32 || (leb 9 c && leb c 13)

unfoldable pub is_digit : ℕ → Bool
is_digit c = leb 48 c && leb c 57

unfoldable pub is_hex : ℕ → Bool
unfolding is_digit
is_hex c = is_digit c || (leb 65 c && leb c 70) || (leb 97 c && leb c 102)

unfoldable pub hex_value : ℕ → ℕ
hex_value c = if leb c 57 then c - 48 else if leb c 70 then c - 55 else c - 87

unfoldable pub skip_space : Text → Text
skip_space [] = []
skip_space (c ∷ s) = let rest = skip_space s in if is_space c then rest else c ∷ s

-- The longest front of at most `width` bytes that pass the test, and what is behind it.
unfoldable pub span : (ℕ → Bool) → ℕ → Text → Text × Text
span test width [] = ([], [])
span test zero (c ∷ s) = ([], c ∷ s)
span test (suc width) (c ∷ s) =
    let (front, rest) = span test width s in if test c then (c ∷ front, rest) else ([], c ∷ s)

unfoldable pub base_value : ℕ → (ℕ → ℕ) → ℕ → Text → ℕ
base_value base digit acc [] = acc
base_value base digit acc (c ∷ s) = base_value base digit (acc * base + digit c) s

unfoldable pub hex_number : Text → ℕ
unfolding base_value hex_value
hex_number s = base_value 16 hex_value 0 s

unfoldable pub dec_number : Text → ℕ
unfolding base_value
dec_number s = base_value 10 (λ c. c - 48) 0 s

-- An optional sign: whether it is a minus, and the rest.
unfoldable pub sign : Text → Bool × Text
sign [] = (false, [])
sign (c ∷ s) = if c == b'-' then (true, s) else if c == b'+' then (false, s) else (false, c ∷ s)

-- An optional `0x` before a hexadecimal digit.
hex_prefix : Text → Text
unfolding is_hex
hex_prefix (a ∷ b ∷ c ∷ s) =
    if a == b'0' && (b == b'x' || b == b'X') && is_hex c then c ∷ s else a ∷ b ∷ c ∷ s
hex_prefix s = s

-- `strtoul` into 64 bits, then the cut to an `unsigned int`.
pub to_uint : Bool → ℕ → ℕ
to_uint minus n =
    if leb (2 ^ 64) n then 2 ^ 32 - 1 else if minus then (2 ^ 64 - n) % 2 ^ 32 else n % 2 ^ 32

-- `strtol`, as a bit pattern of 64 bits.
unfoldable pub to_long : Bool → ℕ → ℕ
to_long minus n =
    if minus
    then if leb n (2 ^ 63) then (2 ^ 64 - n) % 2 ^ 64 else 2 ^ 63
    else if ltb n (2 ^ 63)
    then n
    else 2 ^ 63 - 1

-- A conversion fails where it finds no digit; `make` turns the sign and the digits into the value.
scan_number : (ℕ → Bool) → (Bool → Text → ℕ) → (Text → Text) → Text → Option (ℕ × Text)
unfolding skip_space sign span
scan_number test make prefix s =
    let (minus, t) = sign (skip_space s) in
    let u = prefix t in
    let (front, rest) = span test (length u) u in
    elim front [ [] ↦ none | c ∷ more ↦ some (make minus (c ∷ more), rest) ]

-- `%X`
unfoldable pub scan_hex : Text → Option (ℕ × Text)
unfolding scan_number hex_prefix is_hex to_uint hex_number
scan_hex s = scan_number is_hex (λ minus t. to_uint minus (hex_number t)) hex_prefix s

-- `%ld`, also `%d`
unfoldable pub scan_dec : Text → Option (ℕ × Text)
unfolding scan_number is_digit to_long dec_number
scan_dec s = scan_number is_digit (λ minus t. to_long minus (dec_number t)) (λ t. t) s

-- `%64[0-9A-Fa-f]`: no white space is skipped.
unfoldable pub scan_set : ℕ → Text → Option (Text × Text)
unfolding span is_hex
scan_set width s =
    let (front, rest) = span is_hex width s in
    elim front [ [] ↦ none | c ∷ more ↦ some (c ∷ more, rest) ]

pub data Directive : Type 0 where
  space : Directive
  byte : ℕ → Directive
  hex_set : ℕ → Directive
  hex dec skip_hex skip_dec : Directive
  skip_word : ℕ → Directive

pub data Value : Type 0 where
  str : Text → Value
  num : ℕ → Value

-- One directive: the value that it assigns, if any, and the rest; `none` where it fails.
unfoldable pub directive : Directive → Text → Option (List Value × Text)
unfolding skip_space span is_space scan_hex scan_dec scan_set
directive space s = some ([], skip_space s)
directive (byte b) [] = none
directive (byte b) (c ∷ s) = if c == b then some ([], s) else none
directive (hex_set width) s = elim (scan_set width s) [
  | none ↦ none
  | some (t, rest) ↦ some (str t ∷ [], rest)
]
directive hex s = elim (scan_hex s) [ none ↦ none | some (n, rest) ↦ some (num n ∷ [], rest) ]
directive dec s = elim (scan_dec s) [ none ↦ none | some (n, rest) ↦ some (num n ∷ [], rest) ]
directive skip_hex s = elim (scan_hex s) [ none ↦ none | some (n, rest) ↦ some ([], rest) ]
directive skip_dec s = elim (scan_dec s) [ none ↦ none | some (n, rest) ↦ some ([], rest) ]
directive (skip_word width) s =
    let (front, rest) = span (λ c. not (is_space c)) width (skip_space s) in
    elim front [ [] ↦ none | c ∷ more ↦ some ([], rest) ]

-- The values assigned up to the first directive that fails.
unfoldable pub sscanf : List Directive → Text → List Value
unfolding directive
sscanf [] s = []
sscanf (d ∷ ds) s = elim (directive d s) [
  | none ↦ []
  | some (values, rest) ↦ values ++ sscanf ds rest
]

-- `strtoul (s, NULL, 10)`: 0 where there is no digit.
unfoldable pub strtoul : Text → ℕ
unfolding scan_number is_digit dec_number
strtoul s =
    elim (scan_number is_digit
      (λ minus t.
        let n = dec_number t in
        if leb (2 ^ 64) n then 2 ^ 64 - 1 else if minus then (2 ^ 64 - n) % 2 ^ 64 else n)
      (λ t. t) s) [ none ↦ 0 | some (n, rest) ↦ n ]

-- `strtol (s, NULL, 10)`, as a bit pattern of 64 bits.
unfoldable pub strtol : Text → ℕ
unfolding scan_dec
strtol s = elim (scan_dec s) [ none ↦ 0 | some (n, rest) ↦ n ]
