-- ===== src/Scanf/Print.antt =====
-- Numbers printed with `%0wX` and `%u`, and what the conversions of `sscanf` make of them.
use gnome_usage.Base.{
  ℕ, zero, suc, ◌+◌, ◌-◌, ◌*◌, ◌/◌, ◌%◌, ◌^◌, ◌<◌, ◌≤◌, ◌≡◌, ◌∙◌, refl, Bool, true, false, [], ◌∷◌,
  ◌++◌, arith, ltb, if◌then◌else◌, All, All-append, length, length-append,
}
use gnome_usage.Base.Text.{Text}
use gnome_usage.Base.Decimal.{
  digits, print_nat, value_from, value_from-print_nat, IsDigit, print_nat-IsDigit,
}
use gnome_usage.Scanf.{
  is_hex, is_digit, hex_value, base_value, hex_number, dec_number, to_uint, to_long,
}
use gnome_usage.Scanf.Fields.{IsField}

unfoldable pub hex_digit : ℕ → ℕ
hex_digit d = if ltb d 10 then 48 + d else 55 + d

-- The last `w` hexadecimal digits: `%0wX` where the number has no more.
unfoldable pub hex_text : ℕ → ℕ → Text
hex_text zero n = []
hex_text (suc w) n = hex_text w (n / 16) ++ hex_digit (n % 16) ∷ []

-- A number of at most that many digits.
abbrev Fits : ℕ → ℕ → Type 0
Fits zero n = n ≡ 0
Fits (suc w) n = Fits w (n / 16)

base_value-append :
    (base : ℕ) (digit : ℕ → ℕ) (acc : ℕ) (s : Text) (c : ℕ)
    → base_value base digit acc (s ++ c ∷ []) ≡ base_value base digit acc s * base + digit c
unfolding base_value
base_value-append base digit acc [] c = refl
base_value-append base digit acc (d ∷ s) c = base_value-append base digit (acc * base + digit d) s c

hex_value-hex_digit :
    (d : ℕ) → d < 16 → (hex_value (hex_digit d) ≡ d) × (is_hex (hex_digit d) ≡ true)
unfolding hex_value hex_digit is_hex is_digit
hex_value-hex_digit d h = ground arith

hex_number-text : (w n : ℕ) → Fits w n → hex_number (hex_text w n) ≡ n
unfolding hex_number hex_text base_value
hex_number-text zero n h = omega (arith, h)
hex_number-text (suc w) n h =
    rw (base_value-append 16 hex_value 0 (hex_text w (n / 16)) (hex_digit (n % 16)))
      (omega (arith, hex_number-text w (n / 16) h, hex_value-hex_digit (n % 16) (omega arith)))

pub hex_number-hex_text8 : (n : ℕ) → n < 2 ^ 32 → hex_number (hex_text 8 n) ≡ n
hex_number-hex_text8 n h = hex_number-text 8 n (omega (arith, h))

pub hex_number-hex_text4 : (n : ℕ) → n < 2 ^ 16 → hex_number (hex_text 4 n) ≡ n
hex_number-hex_text4 n h = hex_number-text 4 n (omega (arith, h))

pub length-hex_text : (w n : ℕ) → length (hex_text w n) ≡ w
unfolding hex_text
length-hex_text zero n = refl
length-hex_text (suc w) n = omega (
  arith,
  length-append (hex_text w (n / 16)) (hex_digit (n % 16) ∷ []),
  length-hex_text w (n / 16),
)

pub hex_text-IsHex : (w n : ℕ) → All (λ c. is_hex c ≡ true) (hex_text w n)
unfolding hex_text
hex_text-IsHex zero n = tt
hex_text-IsHex (suc w) n =
    All-append _ (hex_text w (n / 16)) (hex_digit (n % 16) ∷ []) (hex_text-IsHex w (n / 16))
      ((hex_value-hex_digit (n % 16) (omega arith)).1, tt)

-- What is not empty, and of a kind, is a field.
pub IsField-long :
    (test : ℕ → Bool) (s : Text) → All (λ c. test c ≡ true) s → 1 ≤ length s → IsField test s
IsField-long test [] h long = omega (arith, long)
IsField-long test (c ∷ s) h long = h

pub hex_text-IsField : (w n : ℕ) → IsField is_hex (hex_text (suc w) n)
hex_text-IsField w n =
    IsField-long is_hex (hex_text (suc w) n) (hex_text-IsHex (suc w) n)
      (omega (arith, length-hex_text (suc w) n))

digits-length : (f n : ℕ) → 1 ≤ length (digits (suc f) n)
unfolding digits
digits-length f n = ground (arith, length-append (digits f (n / 10)) ((48 + n % 10) ∷ []))

IsDigit-is_digit : (s : Text) → All IsDigit s → All (λ c. is_digit c ≡ true) s
unfolding is_digit
IsDigit-is_digit [] h = tt
IsDigit-is_digit (c ∷ s) h = (ground (arith, h.0), IsDigit-is_digit s h.1)

pub print_nat-IsField : (n : ℕ) → IsField is_digit (print_nat n)
unfolding print_nat
print_nat-IsField n =
    IsField-long is_digit (print_nat n) (IsDigit-is_digit (print_nat n) (print_nat-IsDigit n))
      (digits-length n n)

base_value-value_from : (acc : ℕ) (s : Text) → base_value 10 (λ c. c - 48) acc s ≡ value_from acc s
unfolding base_value value_from
base_value-value_from acc [] = refl
base_value-value_from acc (c ∷ s) = base_value-value_from (acc * 10 + (c - 48)) s

pub dec_number-print_nat : (n : ℕ) → dec_number (print_nat n) ≡ n
unfolding dec_number
dec_number-print_nat n = base_value-value_from 0 (print_nat n) ∙ value_from-print_nat n

pub to_uint-small : (n : ℕ) → n < 2 ^ 32 → to_uint false n ≡ n
unfolding to_uint
to_uint-small n h = ground arith

pub to_long-small : (n : ℕ) → n < 2 ^ 63 → to_long false n ≡ n
unfolding to_long
to_long-small n h = ground arith
