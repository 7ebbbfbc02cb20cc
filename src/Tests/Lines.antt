-- ===== src/Tests/Lines.antt =====
-- The rows of /proc/net at concrete inputs.
use gnome_usage.Base.{◌≡◌, refl, false, some, [], ◌∷◌, arith}
use gnome_usage.Base.Text.{text, text_eq, text_beq}
use gnome_usage.Base.Assoc.{lookup}
use gnome_usage.LocalAddresses.{is_local_address}
use gnome_usage.LocalAddresses.Occurs.{occurs}
use gnome_usage.Packet.{
  In6Addr, unknown, packet_get_hashstring, packet_new_from_ip4, packet_new_from_ip6,
}
use gnome_usage.Scanf.Fields.{padded}
use gnome_usage.Base.Decimal.{print_nat}
use gnome_usage.Scanf.Print.{hex_text, hex_digit}
use gnome_usage.Conninode.{addtoconninode}
use gnome_usage.Conninode.Printed.{Line, row_line}
use gnome_usage.Conninode.Addresses.{words_text, IsWords}
use gnome_usage.Conninode.Entered.{IsLine}
use gnome_usage.Conninode.Agreement.{lookup-ip4_line, lookup-ip6_line, lookup-mapped_line}
use gnome_usage.Tests.Samples.{here, there, at_second, ntop, undefined}

-- From port 8080 to port 80, with inode 2119.
abbrev pub line : Line
line = record {
  sl = 0;
  local_port = 8080;
  rem_port = 80;
  st = 1;
  tx_queue = 0;
  rx_queue = 0;
  tr = 0;
  tm_when = 0;
  retrnsmt = 0;
  uid = 1000;
  timeout = 0;
  inode = 2119;
  sl_pad = 3;
  uid_pad = 1;
  timeout_pad = 7;
}

pub line-IsLine : IsLine line
line-IsLine = record {
  local_small = omega arith;
  rem_small = omega arith;
  inode_small = omega arith;
  inode_nonzero = omega arith;
}

abbrev near6 : In6Addr
near6 = record { w0 = 0x01200120; w1 = 2; w2 = 3; w3 = 4 }

abbrev far6 : In6Addr
far6 = record { w0 = 0x01200120; w1 = 5; w2 = 6; w3 = 7 }

abbrev near4 : In6Addr
near4 = record { w0 = 0; w1 = 0; w2 = 0xFFFF0000; w3 = here }

abbrev far4 : In6Addr
far4 = record { w0 = 0; w1 = 0; w2 = 0xFFFF0000; w3 = there }

near6-IsWords : IsWords near6
near6-IsWords = record {
  small0 = omega arith;
  small1 = omega arith;
  small2 = omega arith;
  small3 = omega arith;
}

far6-IsWords : IsWords far6
far6-IsWords = record {
  small0 = omega arith;
  small1 = omega arith;
  small2 = omega arith;
  small3 = omega arith;
}

near4-IsWords : IsWords near4
near4-IsWords = record {
  small0 = omega arith;
  small1 = omega arith;
  small2 = omega arith;
  small3 = omega arith;
}

far4-IsWords : IsWords far4
far4-IsWords = record {
  small0 = omega arith;
  small1 = omega arith;
  small2 = omega arith;
  small3 = omega arith;
}

-- The row as the kernel prints it.
row_line_test :
    row_line (hex_text 8 here) (hex_text 8 there) line (text "1 c0f4")
    ≡ text
        "   0: 0100000A:1F90 0200000A:0050 01 00000000:00000000 00:00000000 00000000  1000        0 2119 1 c0f4"
unfolding row_line padded print_nat hex_text hex_digit
row_line_test = refl

pub near_once : occurs (ntop.ntop4 here) (text "10.0.0.1" ∷ []) ≡ 1
unfolding occurs text_beq print_nat
near_once = refl

pub far_remote : is_local_address (text "10.0.0.1" ∷ []) (ntop.ntop4 there) ≡ false
unfolding is_local_address text_beq print_nat
far_remote = refl

near6_once : occurs (ntop.ntop6 near6) (ntop.ntop6 near6 ∷ []) ≡ 1
unfolding occurs text_beq print_nat
near6_once = refl

far6_remote : is_local_address (ntop.ntop6 near6 ∷ []) (ntop.ntop6 far6) ≡ false
unfolding is_local_address text_beq print_nat
far6_remote = refl

lookup-ip4_line_example :
    (lookup
        (packet_get_hashstring ntop
          (text "10.0.0.1" ∷ [])
          (packet_new_from_ip4 here 8080 there 80 60 (at_second 100) unknown)).1
        (addtoconninode ntop undefined
          (text "10.0.0.1" ∷ [])
          []
          (row_line (hex_text 8 here) (hex_text 8 there) line (text "1 c0f4")))
      ≡ some 2119)
    × (lookup
          (packet_get_hashstring ntop
            (text "10.0.0.1" ∷ [])
            (packet_new_from_ip4 there 80 here 8080 60 (at_second 100) unknown)).1
          (addtoconninode ntop undefined
            (text "10.0.0.1" ∷ [])
            []
            (row_line (hex_text 8 here) (hex_text 8 there) line (text "1 c0f4")))
        ≡ some 2119)
lookup-ip4_line_example =
    lookup-ip4_line ntop undefined (text "10.0.0.1" ∷ []) [] here there line (text "1 c0f4") 60
      (at_second 100) line-IsLine (omega arith) (omega arith) near_once far_remote

lookup-ip6_line_example :
    (lookup
        (packet_get_hashstring ntop
          (ntop.ntop6 near6 ∷ [])
          (packet_new_from_ip6 near6 8080 far6 80 60 (at_second 100) unknown)).1
        (addtoconninode ntop undefined
          (ntop.ntop6 near6 ∷ [])
          []
          (row_line (words_text near6) (words_text far6) line (text "1 c0f4")))
      ≡ some 2119)
    × (lookup
          (packet_get_hashstring ntop
            (ntop.ntop6 near6 ∷ [])
            (packet_new_from_ip6 far6 80 near6 8080 60 (at_second 100) unknown)).1
          (addtoconninode ntop undefined
            (ntop.ntop6 near6 ∷ [])
            []
            (row_line (words_text near6) (words_text far6) line (text "1 c0f4")))
        ≡ some 2119)
lookup-ip6_line_example =
    lookup-ip6_line ntop undefined (ntop.ntop6 near6 ∷ []) [] near6 far6 line (text "1 c0f4") 60
      (at_second 100) line-IsLine near6-IsWords far6-IsWords refl near6_once far6_remote

lookup-mapped_line_example :
    (lookup
        (packet_get_hashstring ntop
          (text "10.0.0.1" ∷ [])
          (packet_new_from_ip4 here 8080 there 80 60 (at_second 100) unknown)).1
        (addtoconninode ntop undefined
          (text "10.0.0.1" ∷ [])
          []
          (row_line (words_text near4) (words_text far4) line (text "1 c0f4")))
      ≡ some 2119)
    × (lookup
          (packet_get_hashstring ntop
            (text "10.0.0.1" ∷ [])
            (packet_new_from_ip4 there 80 here 8080 60 (at_second 100) unknown)).1
          (addtoconninode ntop undefined
            (text "10.0.0.1" ∷ [])
            []
            (row_line (words_text near4) (words_text far4) line (text "1 c0f4")))
        ≡ some 2119)
lookup-mapped_line_example =
    lookup-mapped_line ntop undefined (text "10.0.0.1" ∷ []) [] near4 far4 line (text "1 c0f4") 60
      (at_second 100) line-IsLine near4-IsWords far4-IsWords refl near_once far_remote
