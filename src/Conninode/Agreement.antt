-- ===== src/Conninode/Agreement.antt =====
-- The rows of /proc/net and the packets of na-packet.c agree on the keys of connections.
use gnome_usage.Base.{ℕ, ◌^◌, ◌<◌, ◌≡◌, refl, ap, ◌∙◌, true, false, List, some, arith}
use gnome_usage.Base.Text.{Text, text_eq}
use gnome_usage.Base.Assoc.{lookup}
use gnome_usage.LocalAddresses.{is_local_address}
use gnome_usage.LocalAddresses.Occurs.{occurs, is_local_address-occurs}
use gnome_usage.Packet.{
  In6Addr, InetNtop, Timeval, unknown, hash_key, packet_new_from_ip4, packet_new_from_ip6,
  packet_get_hashstring,
}
use gnome_usage.Scanf.Print.{hex_text}
use gnome_usage.Conninode.{ConninodeTable, Undefined, ntop_at, addtoconninode}
use gnome_usage.Conninode.Entered.{IsLine, hex_text-line, words_text-line}
use gnome_usage.Conninode.Printed.{Line, row_line}
use gnome_usage.Conninode.Addresses.{words_text, IsWords, is_mapped, if-true, if-false}

entry_at :
    (key key' : Text) (table : ConninodeTable) (i : ℕ)
    → key ≡ key'
    → lookup key' table ≡ some i
    → lookup key table ≡ some i
entry_at key key' table i same there = ap (λ k. lookup k table) same ∙ there

module _ (ntop : InetNtop) (undefined : Undefined) (local_addresses : List Text) where
  -- The key of both directions of a flow between this machine and another.
  pub flow_key4 :
      (s_ip d_ip s_port d_port len : ℕ) (time : Timeval)
      → is_local_address local_addresses (ntop.ntop4 s_ip) ≡ true
      → is_local_address local_addresses (ntop.ntop4 d_ip) ≡ false
      → ((packet_get_hashstring ntop local_addresses
            (packet_new_from_ip4 s_ip s_port d_ip d_port len time unknown)).1
          ≡ hash_key (ntop.ntop4 s_ip) s_port (ntop.ntop4 d_ip) d_port)
        × ((packet_get_hashstring ntop local_addresses
              (packet_new_from_ip4 d_ip d_port s_ip s_port len time unknown)).1
            ≡ hash_key (ntop.ntop4 s_ip) s_port (ntop.ntop4 d_ip) d_port)
  unfolding packet_get_hashstring packet_new_from_ip4
  flow_key4 s_ip d_ip s_port d_port len time near far = ground (arith, near, far)

  flow_key6 :
      (s_ip6 d_ip6 : In6Addr) (s_port d_port len : ℕ) (time : Timeval)
      → is_local_address local_addresses (ntop.ntop6 s_ip6) ≡ true
      → is_local_address local_addresses (ntop.ntop6 d_ip6) ≡ false
      → ((packet_get_hashstring ntop local_addresses
            (packet_new_from_ip6 s_ip6 s_port d_ip6 d_port len time unknown)).1
          ≡ hash_key (ntop.ntop6 s_ip6) s_port (ntop.ntop6 d_ip6) d_port)
        × ((packet_get_hashstring ntop local_addresses
              (packet_new_from_ip6 d_ip6 d_port s_ip6 s_port len time unknown)).1
            ≡ hash_key (ntop.ntop6 s_ip6) s_port (ntop.ntop6 d_ip6) d_port)
  unfolding packet_get_hashstring packet_new_from_ip6
  flow_key6 s_ip6 d_ip6 s_port d_port len time near far = ground (arith, near, far)

  pub local_once :
      (address : Text)
      → occurs address local_addresses ≡ 1
      → is_local_address local_addresses address ≡ true
  local_once address once = ground (arith, is_local_address-occurs local_addresses address)

  -- The row of an IPv4 connection of this machine, however it is set in and whatever follows the
  -- inode, is entered under the key of the connection's packets: a packet to the remote end and one
  -- from it both lead to the row's inode, if that is not 0, the row's local address stands exactly once
  -- among the local ones and the remote one does not, and addresses, ports and inode are in their ranges.
  pub lookup-ip4_line :
      (table : ConninodeTable) (s_ip d_ip : ℕ) (l : Line) (tail : Text) (len : ℕ) (time : Timeval)
      → IsLine l
      → s_ip < 2 ^ 32
      → d_ip < 2 ^ 32
      → occurs (ntop.ntop4 s_ip) local_addresses ≡ 1
      → is_local_address local_addresses (ntop.ntop4 d_ip) ≡ false
      → (lookup
            (packet_get_hashstring ntop local_addresses
              (packet_new_from_ip4 s_ip l.local_port d_ip l.rem_port len time unknown)).1
            (addtoconninode ntop undefined local_addresses table
              (row_line (hex_text 8 s_ip) (hex_text 8 d_ip) l tail))
          ≡ some l.inode)
        × (lookup
              (packet_get_hashstring ntop local_addresses
                (packet_new_from_ip4 d_ip l.rem_port s_ip l.local_port len time unknown)).1
              (addtoconninode ntop undefined local_addresses table
                (row_line (hex_text 8 s_ip) (hex_text 8 d_ip) l tail))
            ≡ some l.inode)
  lookup-ip4_line table s_ip d_ip l tail len time w hs hd once far =
      let (out, into) =
        flow_key4 s_ip d_ip l.local_port l.rem_port len time (local_once _ once) far in
      let there =
        hex_text-line ntop undefined local_addresses table s_ip d_ip l tail w hs hd (omega arith) in
      (entry_at _ _ _ _ out there, entry_at _ _ _ _ into there)

  -- The same holds of the row of an IPv6 connection, with its two addresses in four words each, if
  -- the local one does not begin with 0, 0 and 0xFFFF0000.
  pub lookup-ip6_line :
      (table : ConninodeTable) (s_ip6 d_ip6 : In6Addr) (l : Line) (tail : Text) (len : ℕ)
      (time : Timeval)
      → IsLine l
      → IsWords s_ip6
      → IsWords d_ip6
      → is_mapped s_ip6 ≡ false
      → occurs (ntop.ntop6 s_ip6) local_addresses ≡ 1
      → is_local_address local_addresses (ntop.ntop6 d_ip6) ≡ false
      → (lookup
            (packet_get_hashstring ntop local_addresses
              (packet_new_from_ip6 s_ip6 l.local_port d_ip6 l.rem_port len time unknown)).1
            (addtoconninode ntop undefined local_addresses table
              (row_line (words_text s_ip6) (words_text d_ip6) l tail))
          ≡ some l.inode)
        × (lookup
              (packet_get_hashstring ntop local_addresses
                (packet_new_from_ip6 d_ip6 l.rem_port s_ip6 l.local_port len time unknown)).1
              (addtoconninode ntop undefined local_addresses table
                (row_line (words_text s_ip6) (words_text d_ip6) l tail))
            ≡ some l.inode)
  unfolding ntop_at
  lookup-ip6_line table s_ip6 d_ip6 l tail len time w hs hd real once far =
      let (out, into) =
        flow_key6 s_ip6 d_ip6 l.local_port l.rem_port len time (local_once _ once) far in
      let there =
        words_text-line ntop undefined local_addresses table s_ip6 d_ip6 l tail _ _ w hs hd
          (omega (arith, once)) (if-false (is_mapped s_ip6) _ _ _ real refl) in
      (entry_at _ _ _ _ out there, entry_at _ _ _ _ into there)

  -- Where the local address of an IPv6 row begins with the words 0, 0 and 0xFFFF0000, both addresses
  -- are taken for IPv4 addresses, in their last words: the packets of the IPv4 connection between
  -- them lead to the row's inode, on the conditions of an IPv4 row.
  pub lookup-mapped_line :
      (table : ConninodeTable) (s_ip6 d_ip6 : In6Addr) (l : Line) (tail : Text) (len : ℕ)
      (time : Timeval)
      → IsLine l
      → IsWords s_ip6
      → IsWords d_ip6
      → is_mapped s_ip6 ≡ true
      → occurs (ntop.ntop4 s_ip6.w3) local_addresses ≡ 1
      → is_local_address local_addresses (ntop.ntop4 d_ip6.w3) ≡ false
      → (lookup
            (packet_get_hashstring ntop local_addresses
              (packet_new_from_ip4 s_ip6.w3 l.local_port d_ip6.w3 l.rem_port len time unknown)).1
            (addtoconninode ntop undefined local_addresses table
              (row_line (words_text s_ip6) (words_text d_ip6) l tail))
          ≡ some l.inode)
        × (lookup
              (packet_get_hashstring ntop local_addresses
                (packet_new_from_ip4 d_ip6.w3 l.rem_port s_ip6.w3 l.local_port len time unknown)).1
              (addtoconninode ntop undefined local_addresses table
                (row_line (words_text s_ip6) (words_text d_ip6) l tail))
            ≡ some l.inode)
  unfolding ntop_at
  lookup-mapped_line table s_ip6 d_ip6 l tail len time w hs hd mapped once far =
      let (out, into) =
        flow_key4 s_ip6.w3 d_ip6.w3 l.local_port l.rem_port len time (local_once _ once) far in
      let there =
        words_text-line ntop undefined local_addresses table s_ip6 d_ip6 l tail _ _ w hs hd
          (omega (arith, once)) (if-true (is_mapped s_ip6) _ _ _ mapped refl) in
      (entry_at _ _ _ _ out there, entry_at _ _ _ _ into there)
