-- ===== src/Tests/First.antt =====
-- The first packet of a connection at concrete inputs.
use gnome_usage.Base.{◌≡◌, refl, true, none, some, [], ◌∷◌, arith, inl}
use gnome_usage.Base.Text.{text, text_beq, c_str}
use gnome_usage.Base.Assoc.{lookup}
use gnome_usage.Base.Decimal.{print_nat, print_int}
use gnome_usage.Outcome.{Returns}
use gnome_usage.Packet.{Packet, unknown, packet_new_from_ip4, hash_key}
use gnome_usage.LocalAddresses.{is_local_address}
use gnome_usage.Scanf.{strtoul, strtol, is_digit, is_space}
use gnome_usage.Scanf.Fields.{padded}
use gnome_usage.Scanf.Print.{hex_text, hex_digit}
use gnome_usage.Conninode.{fgets}
use gnome_usage.Conninode.Rows.{lines}
use gnome_usage.Conninode.Printed.{row_line}
use gnome_usage.Conninode.Files.{file_lines, net_lines}
use gnome_usage.Inodeproc.{Program, is_number, after_prefix}
use gnome_usage.Inodeproc.Scan.{sockets, entry_sockets, fds_sockets, fd_socket, last_with}
use gnome_usage.Store.{connection_find_from_packet, find_loop}
use gnome_usage.Process.{Process, World, State, process_new, find_process_from_program, g_strdup}
use gnome_usage.Pcap.{account}
use gnome_usage.Pcap.Counted.{counted}
use gnome_usage.Pcap.First.{account-new_flow}
use gnome_usage.Pcap.Joined.{account-joined_flow, account-known_flow, account-unknown_flow}
use gnome_usage.Tests.Samples.{process, here, there, at_second, world, proc, web_entry, ntop}
use gnome_usage.Tests.Lines.{line, line-IsLine, near_once, far_remote}

abbrev empty : State
empty = record {
  local_addresses = text "10.0.0.1" ∷ [];
  store = record { cells = λ a. none; next = 5; connections = [] };
  processes = [];
  conninode = [];
  inodeproc = [];
  reads = 0;
}

abbrev packet : Packet
packet = packet_new_from_ip4 here 8080 there 80 60 (at_second 100) unknown

abbrev program : Program
program = record { inode = 2119; pid = 42; name = some (text "web") }

shown :
    net_lines proc.net ≡ row_line (hex_text 8 here) (hex_text 8 there) line (text "1 c0f4\n") ∷ []
unfolding net_lines file_lines lines fgets row_line padded print_nat hex_text hex_digit
shown = refl

there_is : last_with 2119 (sockets (web_entry ∷ [])) none ≡ some program
unfolding last_with sockets entry_sockets fds_sockets fd_socket is_number after_prefix strtoul
    strtol is_digit is_space
there_is = refl

account-new_flow_example :
    Returns
      (λ s'.
        (s'.processes
          ≡ record { name = some (text "web"); connections = 5 ∷ []; pid = 42; uid = 1000 } ∷ [])
        × (s'.store.connections ≡ 5 ∷ [])
        × (counted (s'.store.cells 5) ≡ 60))
      (account world empty packet)
unfolding connection_find_from_packet find_loop lookup find_process_from_program process_new
    g_strdup c_str
account-new_flow_example =
    account-new_flow world empty here there 60 (at_second 100) line (text "1 c0f4\n") packet [] []
      (web_entry ∷ []) program (inl refl) line-IsLine (omega arith) (omega arith) near_once
      far_remote refl refl shown tt refl there_is refl

-- A shell beside the program of the flow.
abbrev shell : Process
shell = record { name = some (text "sh"); connections = 3 ∷ []; pid = 7; uid = 0 }

abbrev running : State
running = record empty { processes = shell ∷ process ∷ [] }

account-joined_flow_example :
    Returns
      (λ s'.
        (s'.processes
          ≡ shell
            ∷ record { name = some (text "web"); connections = 0 ∷ 5 ∷ []; pid = 42; uid = 1000 }
            ∷ [])
        × (s'.store.connections ≡ 5 ∷ [])
        × (counted (s'.store.cells 5) ≡ 60))
      (account world running packet)
unfolding connection_find_from_packet find_loop lookup
account-joined_flow_example =
    account-joined_flow world running here there 60 (at_second 100) line (text "1 c0f4\n") packet []
      [] (web_entry ∷ []) program (shell ∷ []) [] process (inl refl) line-IsLine (omega arith)
      (omega arith) near_once far_remote refl refl shown tt refl there_is refl
      ((λ e. omega (arith, e)), tt) refl

-- A state whose tables know the flow.
abbrev known : State
known = record running {
  conninode = (text "10.0.0.1:8080-10.0.0.2:80", 2119) ∷ [];
  inodeproc = (2119, program) ∷ [];
}

near_local : is_local_address empty.local_addresses (ntop.ntop4 here) ≡ true
unfolding is_local_address text_beq print_nat
near_local = refl

account-known_flow_example :
    Returns
      (λ s'.
        (s'.processes
          ≡ shell
            ∷ record { name = some (text "web"); connections = 0 ∷ 5 ∷ []; pid = 42; uid = 1000 }
            ∷ [])
        × (s'.conninode ≡ known.conninode)
        × (s'.inodeproc ≡ known.inodeproc)
        × (counted (s'.store.cells 5) ≡ 60))
      (account world known packet)
unfolding connection_find_from_packet find_loop lookup text_beq hash_key print_nat print_int
account-known_flow_example =
    account-known_flow world known here there 60 (at_second 100) packet 8080 80 2119 program
      (shell ∷ []) [] process (inl refl) near_local far_remote refl refl refl refl
      ((λ e. omega (arith, e)), tt) refl

-- A machine without sockets.
abbrev quiet : World
quiet = record world {
  proc = λ n. record proc { net = record { tcp = none; tcp6 = none; udp = none; udp6 = none } };
}

account-unknown_flow_example :
    Returns
      (λ s'.
        (s'.processes
          ≡ shell
            ∷ process
            ∷ record {
              name = some (text "10.0.0.1:8080-10.0.0.2:80");
              connections = 5 ∷ [];
              pid = 0;
              uid = 0;
            }
            ∷ [])
        × (s'.store.connections ≡ 5 ∷ [])
        × (counted (s'.store.cells 5) ≡ 60))
      (account quiet running packet)
unfolding connection_find_from_packet find_loop lookup net_lines file_lines c_str hash_key print_nat
    print_int
account-unknown_flow_example =
    account-unknown_flow quiet running here there 60 (at_second 100) packet 8080 80 (web_entry ∷ [])
      (inl refl) near_local far_remote refl refl tt refl
