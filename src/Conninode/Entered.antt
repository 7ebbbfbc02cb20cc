-- ===== src/Conninode/Entered.antt =====
-- A printed row of /proc/net is entered under the key of its two addresses.
use gnome_usage.Base.{ℕ, ◌^◌, ◌<◌, ◌≤◌, ◌≡◌, ◌≢◌, ap, ◌∙◌, List, some, arith, length}
use gnome_usage.Base.Text.{Text, c_str, text_eq}
use gnome_usage.Base.Assoc.{lookup}
use gnome_usage.Packet.{In6Addr, InetNtop, hash_key}
use gnome_usage.Scanf.{is_hex, sscanf}
use gnome_usage.Scanf.Fields.{IsField}
use gnome_usage.Scanf.Print.{hex_text, hex_text-IsField, length-hex_text}
use gnome_usage.LocalAddresses.Occurs.{occurs}
use gnome_usage.Conninode.{
  Undefined, ConninodeTable, NetAddr, five, row_format, row_addresses, ntop_at, addtoconninode,
}
use gnome_usage.Conninode.Table.{own_key, lookup-addtoconninode}
use gnome_usage.Conninode.Printed.{Line, row_line, sscanf-row_line, c_str-row_line}
use gnome_usage.Conninode.Addresses.{
  words_text, IsWords, row_of, length-words_text, words_text-IsField, decoded, row_addresses-ip4,
  row_addresses-ip6,
}

-- The five values of a printed row.
row_line-five :
    (local_addr rem_addr : Text) (l : Line) (tail : Text)
    → IsField is_hex local_addr
    → IsField is_hex rem_addr
    → length local_addr ≤ 64
    → length rem_addr ≤ 64
    → l.local_port < 2 ^ 16
    → l.rem_port < 2 ^ 16
    → l.inode < 2 ^ 63
    → five (sscanf row_format (c_str (row_line local_addr rem_addr l tail)))
      ≡ some (row_of local_addr rem_addr l.local_port l.rem_port l.inode)
unfolding five
row_line-five local_addr rem_addr l tail f g fl fr lp rp small =
    ap (λ s. five (sscanf row_format s)) (c_str-row_line local_addr rem_addr l tail f g)
    ∙ ap five (sscanf-row_line l (c_str tail) local_addr rem_addr f g fl fr lp rp small)

-- A row of a connection that is not in TIME_WAIT, with ports and an inode in their ranges.
pub record IsLine (l : Line) : Type 0 where
  pub local_small : l.local_port < 2 ^ 16
  pub rem_small : l.rem_port < 2 ^ 16
  pub inode_small : l.inode < 2 ^ 63
  pub inode_nonzero : l.inode ≢ 0

module _ (ntop : InetNtop) (undefined : Undefined) (local_addresses : List Text) where
  -- Where the row's addresses are known, its own key leads to its inode.
  lookup-row_line :
      (table : ConninodeTable) (local_addr rem_addr : Text) (l : Line) (tail : Text) (a b : NetAddr)
      → IsField is_hex local_addr
      → IsField is_hex rem_addr
      → length local_addr ≤ 64
      → length rem_addr ≤ 64
      → IsLine l
      → occurs (ntop_at ntop a) local_addresses ≤ 1
      → row_addresses undefined.stack (row_of local_addr rem_addr l.local_port l.rem_port l.inode)
        ≡ (a, b)
      → lookup (hash_key (ntop_at ntop a) l.local_port (ntop_at ntop b) l.rem_port) (
          addtoconninode ntop undefined local_addresses table (row_line local_addr rem_addr l tail))
        ≡ some l.inode
  lookup-row_line table local_addr rem_addr l tail a b f g fl fr w once addresses =
      let row = row_of local_addr rem_addr l.local_port l.rem_port l.inode in
      let j = hash_key (ntop_at ntop a) l.local_port (ntop_at ntop b) l.rem_port in
      ground (
        arith,
        lookup-addtoconninode ntop undefined local_addresses j table
            (row_line local_addr rem_addr l tail),
        row_line-five local_addr rem_addr l tail f g fl fr w.local_small w.rem_small w.inode_small,
        w.inode_nonzero,
        own_key ntop undefined local_addresses row a b addresses once,
      )

  pub hex_text-line :
      (table : ConninodeTable) (s_ip d_ip : ℕ) (l : Line) (tail : Text)
      → IsLine l
      → s_ip < 2 ^ 32
      → d_ip < 2 ^ 32
      → occurs (ntop.ntop4 s_ip) local_addresses ≤ 1
      → lookup (hash_key (ntop.ntop4 s_ip) l.local_port (ntop.ntop4 d_ip) l.rem_port) (
          addtoconninode ntop undefined local_addresses table
            (row_line (hex_text 8 s_ip) (hex_text 8 d_ip) l tail))
        ≡ some l.inode
  unfolding ntop_at
  hex_text-line table s_ip d_ip l tail w hs hd once =
      lookup-row_line table (hex_text 8 s_ip) (hex_text 8 d_ip) l tail _ _ (hex_text-IsField 7 s_ip)
        (hex_text-IsField 7 d_ip) (omega (arith, length-hex_text 8 s_ip))
        (omega (arith, length-hex_text 8 d_ip)) w once
        (row_addresses-ip4 undefined.stack s_ip d_ip l.local_port l.rem_port l.inode hs hd)

  pub words_text-line :
      (table : ConninodeTable) (s_ip6 d_ip6 : In6Addr) (l : Line) (tail : Text) (a b : NetAddr)
      → IsLine l
      → IsWords s_ip6
      → IsWords d_ip6
      → occurs (ntop_at ntop a) local_addresses ≤ 1
      → decoded undefined.stack s_ip6 d_ip6 ≡ (a, b)
      → lookup (hash_key (ntop_at ntop a) l.local_port (ntop_at ntop b) l.rem_port) (
          addtoconninode ntop undefined local_addresses table
            (row_line (words_text s_ip6) (words_text d_ip6) l tail))
        ≡ some l.inode
  words_text-line table s_ip6 d_ip6 l tail a b w hs hd once e =
      lookup-row_line table (words_text s_ip6) (words_text d_ip6) l tail a b
        (words_text-IsField s_ip6) (words_text-IsField d_ip6)
        (omega (arith, length-words_text s_ip6)) (omega (arith, length-words_text d_ip6)) w once
        (row_addresses-ip6 undefined.stack s_ip6 d_ip6 l.local_port l.rem_port l.inode hs hd ∙ e)
