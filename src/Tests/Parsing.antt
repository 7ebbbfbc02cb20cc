-- ===== src/Tests/Parsing.antt =====
-- The theorems about texts, tables and frames at concrete inputs.
use gnome_usage.Base.{
  ℕ, ◌≡◌, List, refl, Option, none, some, [], ◌∷◌, ◌++◌, ◌==◌, arith, if◌then◌else◌, inl, nat_eq,
  length, ltb,
}
use gnome_usage.Base.Assoc.{lookup}
use gnome_usage.Base.Text.{Text, text, text_eq, c_str}
use gnome_usage.Packet.Key.{hash_key-injective}
use gnome_usage.Scanf.{sscanf}
use gnome_usage.Conninode.{
  five, row_format, addtoconninode, addprocinfo_loop, conninode_table_refresh,
}
use gnome_usage.Conninode.Table.{is_entered, is_stale, lookup-addtoconninode}
use gnome_usage.Conninode.Files.{last_entry, net_lines, lookup-refresh}
use gnome_usage.Conninode.Rows.{lines, joined, add_lines, addprocinfo_loop-lines}
use gnome_usage.Inodeproc.{proc_loop}
use gnome_usage.Inodeproc.Scan.{last_with, sockets, lookup-proc_loop}
use gnome_usage.Frame.{IpAddress, ip4, PktHdr, pcap_dispatch_cb, parse_ip}
use gnome_usage.Frame.Bytes.{linux_cooked, frame, lay, ip_header, dispatch-frame, parse_ip_options}
use gnome_usage.Frame.Locality.{dispatch_local}
use gnome_usage.Frame.Null.{null_frame, dispatch-null}
use gnome_usage.Tests.Samples.{ntop, here, there, at_second, row, proc, state, undefined, web_entry}

hash_key-injective_example :
    (text "10.0.0.1" ≡ text "10.0.0.1")
    × (◌≡◌ {A = ℕ} 8080 8080)
    × (text "10.0.0.2" ≡ text "10.0.0.2")
    × (◌≡◌ {A = ℕ} 80 80)
hash_key-injective_example =
    hash_key-injective (text "10.0.0.1") (text "10.0.0.2") (text "10.0.0.1") (text "10.0.0.2") 8080
      80 8080 80 (omega arith) (omega arith) (omega arith) (omega arith) (omega arith) (omega arith)
      refl

-- A machine whose second address stands behind the row's own one.
abbrev two_addresses : List Text
two_addresses = text "10.0.0.1" ∷ text "10.0.0.9" ∷ []

abbrev second_key : Text
second_key = text "10.0.0.9:8080-10.0.0.2:80"

lookup-addtoconninode_example :
    lookup second_key (addtoconninode ntop undefined two_addresses [] row)
    ≡ elim (five (sscanf row_format (c_str row))) [
      | none ↦ none
      | some r ↦
          if r.inode == 0
          then none
          else if is_stale ntop undefined two_addresses r second_key
          then some 0
          else if is_entered ntop undefined two_addresses r second_key
          then some r.inode
          else none
    ]
unfolding lookup
lookup-addtoconninode_example = lookup-addtoconninode ntop undefined two_addresses second_key [] row

lookup-refresh_example :
    lookup second_key (conninode_table_refresh ntop undefined two_addresses [] proc.net)
    ≡ last_entry ntop undefined two_addresses second_key (net_lines proc.net) (lookup second_key [])
lookup-refresh_example = lookup-refresh ntop undefined two_addresses second_key [] proc.net

addprocinfo_loop-lines_example :
    (addprocinfo_loop ntop undefined state.local_addresses (length (row ++ row)) [] (row ++ row)
      ≡ add_lines ntop undefined state.local_addresses []
          (lines (length (row ++ row)) (row ++ row)))
    × (joined (lines (length (row ++ row)) (row ++ row)) ≡ row ++ row)
addprocinfo_loop-lines_example =
    addprocinfo_loop-lines ntop undefined state.local_addresses (length (row ++ row)) []
      (row ++ row) (omega arith)

lookup-proc_loop_example :
    lookup 2119 (proc_loop [] (web_entry ∷ [])) ≡ last_with 2119 (sockets (web_entry ∷ [])) none
unfolding lookup
lookup-proc_loop_example = lookup-proc_loop 2119 (web_entry ∷ []) []

abbrev header : PktHdr
header = record { ts = at_second 101; caplen = 54; len = 54 }

-- A callback that hands on what it is given.
abbrev shown : PktHdr → IpAddress → ℕ → ℕ → Option (IpAddress × ℕ × ℕ)
shown h a s d = some (a, s, d)

dispatch-frame_example :
    pcap_dispatch_cb shown none 113 header
      (frame linux_cooked 6 here there 8080 80 (λ i. 1) (λ i. 2) (λ i. 3))
    ≡ some (ip4 here there, 8080, 80)
dispatch-frame_example =
    dispatch-frame shown none linux_cooked 6 here there 8080 80 header (λ i. 1) (λ i. 2) (λ i. 3)
      (inl refl) (omega arith) (omega arith) (omega arith) (omega arith)

-- 10.0.0.2 is read as the ports 2560 and 2.
dispatch-null_example :
    pcap_dispatch_cb shown none 0 header
      (null_frame 17 here there 8080 80 (λ i. 0) (λ i. 6) (λ i. 0))
    ≡ some (ip4 0x06061106 here, 2560, 2)
dispatch-null_example =
    dispatch-null shown none 17 here there 8080 80 header (λ i. 0) (λ i. 6) (λ i. 0) (omega arith)

parse_ip_options_example :
    parse_ip shown none header (
      lay (ip_header 6 here there (λ i. 0x46) ++ (1 ∷ 1 ∷ 1 ∷ 0 ∷ 31 ∷ 144 ∷ 0 ∷ 80 ∷ [])) (λ i. 0))
    ≡ some (ip4 here there, 257, 256)
parse_ip_options_example =
    parse_ip_options shown none 6 here there 1 1 1 0 (31 ∷ 144 ∷ 0 ∷ 80 ∷ []) header (λ i. 0x46)
      (λ i. 0) (inl refl) (omega arith) (omega arith)

dispatch_local_example :
    pcap_dispatch_cb shown none 1 header (λ i. i)
    ≡ pcap_dispatch_cb shown none 1 header (λ i. if ltb i 60 then i else 0)
dispatch_local_example =
    dispatch_local shown none 1 header (λ i. i) (λ i. if ltb i 60 then i else 0) λ i h. ground arith
