-- ===== src/Conninode/Addresses.antt =====
-- The addresses that `addtoconninode` makes of the hexadecimal words of a row.
use gnome_usage.Base.{
  ℕ, ◌^◌, ◌<◌, ◌≡◌, refl, ◌∙◌, ap, sym, Bool, true, false, ◌&&◌, ◌==◌, [], ◌∷◌, ◌++◌, some, arith,
  length, length-append, if◌then◌else◌, ltb, All-append,
}
use gnome_usage.Base.Text.{Text}
use gnome_usage.Packet.{In6Addr, inet, inet6}
use gnome_usage.Scanf.{is_hex, skip_space, span, scan_hex, hex_number, to_uint}
use gnome_usage.Scanf.Fields.{
  IsField, padded, span-width, scan_hex-field, skip_space-padded, hex-IsPlain,
}
use gnome_usage.Scanf.Print.{
  IsField-long, hex_text, hex_text-IsField, hex_text-IsHex, length-hex_text, hex_number-hex_text8,
  to_uint-small,
}
use gnome_usage.Conninode.{NetAddr, Row, eight_hex, scan_in, scan_in6, row_addresses}

-- An IPv6 address as the four words that `/proc/net/tcp6` shows.
abbrev pub words_text : In6Addr → Text
words_text a = hex_text 8 a.w0 ++ (hex_text 8 a.w1 ++ (hex_text 8 a.w2 ++ hex_text 8 a.w3))

pub record IsWords (a : In6Addr) : Type 0 where
  pub small0 : a.w0 < 2 ^ 32
  pub small1 : a.w1 < 2 ^ 32
  pub small2 : a.w2 < 2 ^ 32
  pub small3 : a.w3 < 2 ^ 32

append-nil : (s : Text) → s ++ [] ≡ s
append-nil [] = refl
append-nil (c ∷ s) = ap (λ t. c ∷ t) (append-nil s)

scan_hex-hex_text : (n : ℕ) → n < 2 ^ 32 → scan_hex (hex_text 8 n) ≡ some (n, [])
unfolding padded
scan_hex-hex_text n h =
    ap scan_hex (sym (append-nil (hex_text 8 n)))
    ∙ scan_hex-field 0 (hex_text 8 n) [] (hex_text-IsField 7 n) refl
    ∙ ap (λ k. some (k, [])) (ap (to_uint false) (hex_number-hex_text8 n h) ∙ to_uint-small n h)

pub scan_in-hex_text :
    (old : In6Addr) (n : ℕ) → n < 2 ^ 32 → scan_in old (hex_text 8 n) ≡ record old { w0 = n }
unfolding scan_in
scan_in-hex_text old n h = rw (scan_in, scan_hex-hex_text n h) refl

-- What `%08X` makes of the digits that it found.
abbrev word : ℕ → Text × Text → ℕ × Text
word old (front, rest) = elim front [ [] ↦ (old, []) | c ∷ more ↦ (hex_number (c ∷ more), rest) ]

word-field : (old : ℕ) (t r : Text) → IsField is_hex t → word old (t, r) ≡ (hex_number t, r)
word-field old [] r h = elim h [ ]
word-field old (c ∷ t) r h = refl

skip_space-field : (t r : Text) → IsField is_hex t → skip_space (t ++ r) ≡ t ++ r
unfolding padded
skip_space-field [] r h = elim h [ ]
skip_space-field (c ∷ t) r h = skip_space-padded 0 c (t ++ r) (hex-IsPlain c h.0).0

eight_hex-hex_text :
    (old n : ℕ) (r : Text) → n < 2 ^ 32 → eight_hex old (hex_text 8 n ++ r) ≡ (n, r)
unfolding eight_hex
eight_hex-hex_text old n r h =
    ap (λ s. word old (span is_hex 8 s)) (skip_space-field (hex_text 8 n) r (hex_text-IsField 7 n))
    ∙ ap (λ w. word old (span is_hex w (hex_text 8 n ++ r))) (sym (length-hex_text 8 n))
    ∙ ap (word old) (span-width is_hex (hex_text 8 n) r (hex_text-IsHex 8 n))
    ∙ word-field old (hex_text 8 n) r (hex_text-IsField 7 n)
    ∙ ap (λ k. (k, r)) (hex_number-hex_text8 n h)

pub scan_in6-words : (old a : In6Addr) → IsWords a → scan_in6 old (words_text a) ≡ a
unfolding scan_in6
scan_in6-words old a w =
    ap
      (λ x.
        let y = eight_hex old.w1 x.1 in
        let z = eight_hex old.w2 y.1 in
        let v = eight_hex old.w3 z.1 in record { w0 = x.0; w1 = y.0; w2 = z.0; w3 = v.0 })
      (eight_hex-hex_text old.w0 a.w0 _ w.small0)
    ∙ ap
        (λ y.
          let z = eight_hex old.w2 y.1 in
          let v = eight_hex old.w3 z.1 in record { w0 = a.w0; w1 = y.0; w2 = z.0; w3 = v.0 })
        (eight_hex-hex_text old.w1 a.w1 _ w.small1)
    ∙ ap (λ z. let v = eight_hex old.w3 z.1 in record { w0 = a.w0; w1 = a.w1; w2 = z.0; w3 = v.0 })
        (eight_hex-hex_text old.w2 a.w2 _ w.small2)
    ∙ ap (λ v. record { w0 = a.w0; w1 = a.w1; w2 = a.w2; w3 = v.0 })
        (ap (eight_hex old.w3) (sym (append-nil (hex_text 8 a.w3)))
          ∙ eight_hex-hex_text old.w3 a.w3 [] w.small3)

pub length-words_text : (a : In6Addr) → length (words_text a) ≡ 32
length-words_text a = omega (
  arith,
  length-append (hex_text 8 a.w0) (hex_text 8 a.w1 ++ (hex_text 8 a.w2 ++ hex_text 8 a.w3)),
  length-append (hex_text 8 a.w1) (hex_text 8 a.w2 ++ hex_text 8 a.w3),
  length-append (hex_text 8 a.w2) (hex_text 8 a.w3),
  length-hex_text 8 a.w0,
  length-hex_text 8 a.w1,
  length-hex_text 8 a.w2,
  length-hex_text 8 a.w3,
)

pub words_text-IsField : (a : In6Addr) → IsField is_hex (words_text a)
words_text-IsField a =
    IsField-long is_hex (words_text a)
      (All-append _ (hex_text 8 a.w0) _ (hex_text-IsHex 8 a.w0) (
        All-append _ (hex_text 8 a.w1) _ (hex_text-IsHex 8 a.w1)
          (All-append _ (hex_text 8 a.w2) _ (hex_text-IsHex 8 a.w2) (hex_text-IsHex 8 a.w3))))
      (omega (arith, length-words_text a))

abbrev pub row_of : Text → Text → ℕ → ℕ → ℕ → Row
row_of local_addr rem_addr lport rport i = record {
  local_addr = local_addr;
  local_port = lport;
  rem_addr = rem_addr;
  rem_port = rport;
  inode = i;
}

pub if-false : {A : Type 0} (b : Bool) (x y z : A) → b ≡ false → y ≡ z → (if b then x else y) ≡ z
if-false true x y z h e = cc
if-false false x y z h e = e

pub if-true : {A : Type 0} (b : Bool) (x y z : A) → b ≡ true → x ≡ z → (if b then x else y) ≡ z
if-true true x y z h e = e
if-true false x y z h e = cc

-- A row of IPv4 addresses.
pub row_addresses-ip4 :
    (old : In6Addr) (s_ip d_ip lport rport inode : ℕ)
    → s_ip < 2 ^ 32
    → d_ip < 2 ^ 32
    → row_addresses old (row_of (hex_text 8 s_ip) (hex_text 8 d_ip) lport rport inode) ≡ (
      record { sa_family = inet; words = record old { w0 = s_ip } },
      record { sa_family = inet; words = record old { w0 = d_ip } },
    )
unfolding row_addresses
row_addresses-ip4 old s_ip d_ip lport rport inode hs hd =
    if-false (ltb 8 (length (hex_text 8 s_ip))) _ _ _ (ground (arith, length-hex_text 8 s_ip)) (
      ap
        (λ w. (
          record { sa_family = inet; words = w },
          record { sa_family = inet; words = scan_in old (hex_text 8 d_ip) },
        ))
        (scan_in-hex_text old s_ip hs)
      ∙ ap
          (λ w. (
            record { sa_family = inet; words = record old { w0 = s_ip } },
            record { sa_family = inet; words = w },
          ))
          (scan_in-hex_text old d_ip hd))

-- The address is an IPv4 address in the form of an IPv6 address.
abbrev pub is_mapped : In6Addr → Bool
is_mapped a = a.w0 == 0 && a.w1 == 0 && a.w2 == 0xFFFF0000

-- What the words of the two addresses stand for.
abbrev pub decoded : In6Addr → In6Addr → In6Addr → NetAddr × NetAddr
decoded old s_ip6 d_ip6 =
    if is_mapped s_ip6
    then (
      record { sa_family = inet; words = record old { w0 = s_ip6.w3 } },
      record { sa_family = inet; words = record old { w0 = d_ip6.w3 } },
    )
    else (record { sa_family = inet6; words = s_ip6 }, record { sa_family = inet6; words = d_ip6 })

-- A row of IPv6 addresses: the form of the local one decides.
pub row_addresses-ip6 :
    (old s_ip6 d_ip6 : In6Addr) (lport rport inode : ℕ)
    → IsWords s_ip6
    → IsWords d_ip6
    → row_addresses old (row_of (words_text s_ip6) (words_text d_ip6) lport rport inode)
      ≡ decoded old s_ip6 d_ip6
unfolding row_addresses
row_addresses-ip6 old s_ip6 d_ip6 lport rport inode hs hd =
    if-true (ltb 8 (length (words_text s_ip6))) _ _ _ (ground (arith, length-words_text s_ip6)) (
      ap (λ a. decoded old a (scan_in6 old (words_text d_ip6))) (scan_in6-words old s_ip6 hs)
      ∙ ap (decoded old s_ip6) (scan_in6-words old d_ip6 hd))
