-- ===== src/Conninode/Printed.antt =====
-- The rows of /proc/net/tcp, as proc(5) lays them out, read by `addtoconninode` of na-conninode.c.
use gnome_usage.Base.{
  ℕ, suc, ◌^◌, ◌<◌, ◌≤◌, ◌≡◌, refl, ◌∙◌, ap, true, false, List, [], ◌∷◌, ◌++◌, arith, length, All,
  zero,
}
use gnome_usage.Base.Text.{Text, c_str}
use gnome_usage.Base.Decimal.{print_nat}
use gnome_usage.Scanf.{
  is_hex, is_digit, Directive, str, num, sscanf, space, byte, hex, dec, skip_hex, skip_dec,
  skip_word, to_uint, to_long, dec_number,
}
use gnome_usage.Scanf.Fields.{IsField, padded, digits-IsField}
use gnome_usage.Scanf.Steps.{
  sscanf-hex, sscanf-skip_hex, sscanf-dec, sscanf-skip_dec, sscanf-hex_set, sscanf-space,
  sscanf-byte, sscanf-rest,
}
use gnome_usage.Scanf.Print.{
  hex_text, hex_text-IsField, hex_text-IsHex, print_nat-IsField, hex_number-hex_text4,
  dec_number-print_nat, to_uint-small, to_long-small,
}
use gnome_usage.Conninode.{row_format}

-- The numbers of a row, but for the two addresses, and how far the padded ones are set in.
pub record Line : Type 0 where
  pub sl : ℕ
  pub local_port : ℕ
  pub rem_port : ℕ
  pub st : ℕ
  pub tx_queue : ℕ
  pub rx_queue : ℕ
  pub tr : ℕ
  pub tm_when : ℕ
  pub retrnsmt : ℕ
  pub uid : ℕ
  pub timeout : ℕ
  pub inode : ℕ
  pub sl_pad : ℕ
  pub uid_pad : ℕ
  pub timeout_pad : ℕ

-- From the queues on.
behind_ports : Line → Text → Text
behind_ports l tail = padded 1 (
    hex_text 2 l.st
    ++ padded 1 (
        hex_text 8 l.tx_queue
        ++ b':'
          ∷ (hex_text 8 l.rx_queue
              ++ padded 1 (
                  hex_text 2 l.tr
                  ++ b':'
                    ∷ (hex_text 8 l.tm_when
                        ++ padded 1 (
                            hex_text 8 l.retrnsmt
                            ++ padded (suc l.uid_pad) (
                                print_nat l.uid
                                ++ padded (suc l.timeout_pad) (
                                    print_nat l.timeout
                                    ++ padded 1 (print_nat l.inode ++ padded 1 tail)))))))))

-- "%4d: <local>:%04X <remote>:%04X %02X %08X:%08X %02X:%08X %08X %5u %8d %lu …"
unfoldable pub row_line : (local_addr rem_addr : Text) → Line → Text → Text
unfolding behind_ports
row_line local_addr rem_addr l tail = padded l.sl_pad (
    print_nat l.sl
    ++ b':'
      ∷ padded 1 (
          local_addr
          ++ b':'
            ∷ (hex_text 4 l.local_port
                ++ padded 1 (rem_addr ++ b':' ∷ (hex_text 4 l.rem_port ++ behind_ports l tail)))))

sscanf-port :
    (ds : List Directive) (n : ℕ) (s : Text)
    → n < 2 ^ 16
    → sscanf (hex ∷ ds) (hex_text 4 n ++ 32 ∷ s) ≡ num n ∷ sscanf ds (32 ∷ s)
sscanf-port ds n s h =
    sscanf-hex ds 32 s refl (hex_text 4 n) (hex_text-IsField 3 n)
    ∙ ap (λ k. num k ∷ sscanf ds (32 ∷ s))
        (ap (to_uint false) (hex_number-hex_text4 n h) ∙ to_uint-small n (omega (arith, h)))

module _ (l : Line) (tail : Text) where
  sscanf-behind_ports :
      l.inode < 2 ^ 63
      → sscanf
          (space
            ∷ skip_hex
            ∷ space
            ∷ skip_hex
            ∷ byte b':'
            ∷ skip_hex
            ∷ space
            ∷ skip_hex
            ∷ byte b':'
            ∷ skip_hex
            ∷ space
            ∷ skip_hex
            ∷ space
            ∷ skip_dec
            ∷ space
            ∷ skip_dec
            ∷ space
            ∷ dec
            ∷ space
            ∷ skip_word 512
            ∷ space
            ∷ [])
          (behind_ports l tail)
        ≡ num l.inode ∷ []
  unfolding behind_ports padded
  sscanf-behind_ports small =
      sscanf-space _ 1 (hex_text 2 l.st) _ (hex_text-IsField 1 l.st)
      ∙ sscanf-skip_hex _ 32 _ refl (hex_text 2 l.st) (hex_text-IsField 1 l.st)
      ∙ sscanf-space _ 1 (hex_text 8 l.tx_queue) _ (hex_text-IsField 7 l.tx_queue)
      ∙ sscanf-skip_hex _ 58 _ refl (hex_text 8 l.tx_queue) (hex_text-IsField 7 l.tx_queue)
      ∙ sscanf-byte _ 58 _
      ∙ sscanf-skip_hex _ 32 _ refl (hex_text 8 l.rx_queue) (hex_text-IsField 7 l.rx_queue)
      ∙ sscanf-space _ 1 (hex_text 2 l.tr) _ (hex_text-IsField 1 l.tr)
      ∙ sscanf-skip_hex _ 58 _ refl (hex_text 2 l.tr) (hex_text-IsField 1 l.tr)
      ∙ sscanf-byte _ 58 _
      ∙ sscanf-skip_hex _ 32 _ refl (hex_text 8 l.tm_when) (hex_text-IsField 7 l.tm_when)
      ∙ sscanf-space _ 1 (hex_text 8 l.retrnsmt) _ (hex_text-IsField 7 l.retrnsmt)
      ∙ sscanf-skip_hex _ 32 _ refl (hex_text 8 l.retrnsmt) (hex_text-IsField 7 l.retrnsmt)
      ∙ sscanf-space _ (suc l.uid_pad) (print_nat l.uid) _
          (digits-IsField (print_nat l.uid) (print_nat-IsField l.uid))
      ∙ sscanf-skip_dec _ 32 _ refl 0 (print_nat l.uid) (print_nat-IsField l.uid)
      ∙ sscanf-space _ (suc l.timeout_pad) (print_nat l.timeout) _
          (digits-IsField (print_nat l.timeout) (print_nat-IsField l.timeout))
      ∙ sscanf-skip_dec _ 32 _ refl 0 (print_nat l.timeout) (print_nat-IsField l.timeout)
      ∙ sscanf-space _ 1 (print_nat l.inode) _
          (digits-IsField (print_nat l.inode) (print_nat-IsField l.inode))
      ∙ sscanf-dec _ 32 _ refl (print_nat l.inode) (print_nat-IsField l.inode)
      ∙ ap (λ vs. num (to_long false (dec_number (print_nat l.inode))) ∷ vs) (sscanf-rest 512 _)
      ∙ ap (λ n. num n ∷ [])
          (ap (to_long false) (dec_number-print_nat l.inode) ∙ to_long-small l.inode small)

  -- The conversions take the addresses as they are written, the ports and the inode.
  pub sscanf-row_line :
      (local_addr rem_addr : Text)
      → IsField is_hex local_addr
      → IsField is_hex rem_addr
      → length local_addr ≤ 64
      → length rem_addr ≤ 64
      → l.local_port < 2 ^ 16
      → l.rem_port < 2 ^ 16
      → l.inode < 2 ^ 63
      → sscanf row_format (row_line local_addr rem_addr l tail)
        ≡ str local_addr ∷ num l.local_port ∷ str rem_addr ∷ num l.rem_port ∷ num l.inode ∷ []
  unfolding row_line padded
  sscanf-row_line local_addr rem_addr f g fit_local fit_rem lport rport small =
      sscanf-skip_dec _ 58 _ refl l.sl_pad (print_nat l.sl) (print_nat-IsField l.sl)
      ∙ sscanf-byte _ 58 _
      ∙ sscanf-space _ 1 local_addr _ f
      ∙ sscanf-hex_set _ 58 _ refl 64 local_addr f fit_local
      ∙ ap (λ vs. str local_addr ∷ vs)
          (sscanf-byte _ 58 _
            ∙ sscanf-port _ l.local_port _ lport
            ∙ ap (λ vs. num l.local_port ∷ vs)
                (sscanf-space _ 1 rem_addr _ g
                  ∙ sscanf-hex_set _ 58 _ refl 64 rem_addr g fit_rem
                  ∙ ap (λ vs. str rem_addr ∷ vs)
                      (sscanf-byte _ 58 _
                        ∙ sscanf-port _ l.rem_port _ rport
                        ∙ ap (λ vs. num l.rem_port ∷ vs) (sscanf-behind_ports small))))

-- What `c_str` makes of a text: no byte of a row is a NUL but in its tail.
record Cuts (x y : Text) : Type 0 where
  cut : c_str x ≡ y

Cuts-padded : (k : ℕ) {x y : Text} → Cuts x y → Cuts (padded k x) (padded k y)
unfolding c_str padded
Cuts-padded zero e = e
Cuts-padded (suc k) e = record { cut = ap (λ z. 32 ∷ z) (Cuts-padded k e).cut }

Cuts-colon : {x y : Text} → Cuts x y → Cuts (58 ∷ x) (58 ∷ y)
unfolding c_str
Cuts-colon e = record { cut = ap (λ z. 58 ∷ z) e.cut }

Cuts-hex :
    (t : Text) {x y : Text} → All (λ c. is_hex c ≡ true) t → Cuts x y → Cuts (t ++ x) (t ++ y)
unfolding c_str is_hex is_digit
Cuts-hex [] h e = e
Cuts-hex (c ∷ t) h e = record { cut = ground (arith, (Cuts-hex t h.1 e).cut, h.0) }

Cuts-field : (t : Text) {x y : Text} → IsField is_hex t → Cuts x y → Cuts (t ++ x) (t ++ y)
Cuts-field [] h e = elim h [ ]
Cuts-field (c ∷ t) h e = Cuts-hex (c ∷ t) h e

Cuts-dec : (n : ℕ) {x y : Text} → Cuts x y → Cuts (print_nat n ++ x) (print_nat n ++ y)
Cuts-dec n e = Cuts-field (print_nat n) (digits-IsField (print_nat n) (print_nat-IsField n)) e

Cuts-word : (w n : ℕ) {x y : Text} → Cuts x y → Cuts (hex_text w n ++ x) (hex_text w n ++ y)
Cuts-word w n e = Cuts-hex (hex_text w n) (hex_text-IsHex w n) e

Cuts-behind_ports :
    (l : Line) (tail : Text) → Cuts (behind_ports l tail) (behind_ports l (c_str tail))
unfolding behind_ports
Cuts-behind_ports l tail =
    let inode = Cuts-dec l.inode (Cuts-padded 1 (record { cut = refl })) in
    let timeout = Cuts-padded (suc l.timeout_pad) (Cuts-dec l.timeout (Cuts-padded 1 inode)) in
    let uid = Cuts-padded (suc l.uid_pad) (Cuts-dec l.uid timeout) in
    let retrnsmt = Cuts-padded 1 (Cuts-word 8 l.retrnsmt uid) in
    let tr = Cuts-word 2 l.tr (Cuts-colon (Cuts-word 8 l.tm_when retrnsmt)) in
    let rx_queue = Cuts-word 8 l.rx_queue (Cuts-padded 1 tr) in
    Cuts-padded 1 (Cuts-word 2 l.st (Cuts-padded 1 (Cuts-word 8 l.tx_queue (Cuts-colon rx_queue))))

pub c_str-row_line :
    (local_addr rem_addr : Text) (l : Line) (tail : Text)
    → IsField is_hex local_addr
    → IsField is_hex rem_addr
    → c_str (row_line local_addr rem_addr l tail) ≡ row_line local_addr rem_addr l (c_str tail)
unfolding row_line
c_str-row_line local_addr rem_addr l tail f g =
    let rem_port = Cuts-word 4 l.rem_port (Cuts-behind_ports l tail) in
    let rem = Cuts-padded 1 (Cuts-field rem_addr g (Cuts-colon rem_port)) in
    let local_port = Cuts-colon (Cuts-word 4 l.local_port rem) in
    (Cuts-padded l.sl_pad
      (Cuts-dec l.sl (Cuts-colon (Cuts-padded 1 (Cuts-field local_addr f local_port))))).cut
