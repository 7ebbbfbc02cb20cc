-- ===== src/Pcap/First.antt =====
-- The first packet of a connection, from na-pcap.c through the two tables to na-process.c.
use gnome_usage.Base.{
  ℕ, suc, ◌^◌, ◌<◌, ◌≡◌, ◌⊎◌, inl, inr, refl, ap, ◌∙◌, true, false, none, some, List, [], ◌∷◌, ◌++◌,
  ==_refl, arith, All, nat_eq,
}
use gnome_usage.Base.Text.{Text, text_eq}
use gnome_usage.Base.Assoc.{lookup}
use gnome_usage.Outcome.{ok, Returns}
use gnome_usage.LocalAddresses.{is_local_address}
use gnome_usage.LocalAddresses.Occurs.{occurs}
use gnome_usage.Packet.{
  InetNtop, Packet, Timeval, unknown, hash_key, packet_new_from_ip4, packet_get_hashstring,
  packet_is_outgoing, source_string, destination_string, packet_copy, packet_new_inverted,
}
use gnome_usage.Connection.{Connection, connection_new, connection_get_refpacket}
use gnome_usage.Scanf.Print.{hex_text}
use gnome_usage.Conninode.Printed.{Line, row_line}
use gnome_usage.Conninode.Entered.{IsLine}
use gnome_usage.Conninode.Agreement.{local_once}
use gnome_usage.Conninode.Files.{net_lines, line_entry}
use gnome_usage.Conninode.Sought.{refresh-printed_row}
use gnome_usage.Inodeproc.{Program, ProcEntry, inodeproc_table_refresh, proc_loop}
use gnome_usage.Inodeproc.Scan.{sockets, last_with, lookup-proc_loop}
use gnome_usage.Store.{deref, write, assign, add_connection, connection_find_from_packet}
use gnome_usage.Process.{State, World, process_new, find_process_from_program}
use gnome_usage.Attribution.Found.{refreshed, find-new}
use gnome_usage.Pcap.{account}
use gnome_usage.Pcap.Counted.{counted, new-counted}

-- A packet of the flow between a local end and a remote one, in one direction or the other.
abbrev pub IsBetween : (s_ip s_port d_ip d_port len : ℕ) → Timeval → Packet → Type 0
IsBetween s_ip s_port d_ip d_port len time p =
    (p ≡ packet_new_from_ip4 s_ip s_port d_ip d_port len time unknown)
    ⊎ (p ≡ packet_new_from_ip4 d_ip d_port s_ip s_port len time unknown)

-- The key of a flow: its local end, and its remote one.
abbrev pub flow_key : InetNtop → (s_ip s_port d_ip d_port : ℕ) → Text
flow_key ntop s_ip s_port d_ip d_port = hash_key (ntop.ntop4 s_ip) s_port (ntop.ntop4 d_ip) d_port

module _ (ntop : InetNtop) (locals : List Text) (s_ip s_port d_ip d_port len : ℕ)
    (time : Timeval) where
  -- The key that a new connection gets is that of its local and its remote end.
  pub new_key :
      (p : Packet)
      → IsBetween s_ip s_port d_ip d_port len time p
      → is_local_address locals (ntop.ntop4 s_ip) ≡ true
      → is_local_address locals (ntop.ntop4 d_ip) ≡ false
      → (packet_get_hashstring ntop locals
          (connection_get_refpacket (connection_new ntop locals p).1)).1
        ≡ flow_key ntop s_ip s_port d_ip d_port
  unfolding connection_new packet_is_outgoing packet_copy packet_get_hashstring packet_new_inverted
      packet_new_from_ip4 connection_get_refpacket source_string destination_string
  new_key p (inl e) near far = rw e (ground (arith, near, far))
  new_key p (inr e) near far = rw e (ground (arith, near, far))

  -- It has counted the packet's length.
  pub new_total :
      (p : Packet)
      → IsBetween s_ip s_port d_ip d_port len time p
      → counted (some (connection_new ntop locals p).1) ≡ len
  unfolding packet_new_from_ip4
  new_total p (inl e) = rw e (
      (new-counted ntop locals (packet_new_from_ip4 s_ip s_port d_ip d_port len time unknown)
        (refl, refl)).0)
  new_total p (inr e) = rw e (
      (new-counted ntop locals (packet_new_from_ip4 d_ip d_port s_ip s_port len time unknown)
        (refl, refl)).0)

-- The connection of a flow's first packet is in the memory that it is put in.
pub deref-add :
    (s : State) (c : Connection) → deref (add_connection s.store c).0 s.store.next ≡ ok c
unfolding deref add_connection write
deref-add s c = ground (arith, ==_refl s.store.next)

module _ (world : World) (s : State) (s_ip d_ip len : ℕ) (time : Timeval) (l : Line)
    (tail : Text) where
  -- The first packet of an IPv4 connection, in either direction, where no listed connection matches
  -- it: it makes one connection, that has counted its length, and puts it alone in a new process at
  -- the end of the list, with the name and the pid of the program that holds the connection's socket,
  -- and with the user of that pid, or 0 if there is none. The conditions: the connection table does not
  -- know the flow; the files of /proc/net, when they are read, show its row with the socket's inode,
  -- its numbers in their ranges, and no row behind it enters anything under its key; the local address
  -- stands exactly once among the local ones and the remote one does not; the listing of /proc shows a
  -- program with that inode, or the program table has one, and no process has its pid.
  pub account-new_flow :
      (p : Packet) (before after : List Text) (entries : List ProcEntry) (node : Program)
      → IsBetween s_ip l.local_port d_ip l.rem_port len time p
      → IsLine l
      → s_ip < 2 ^ 32
      → d_ip < 2 ^ 32
      → occurs (world.ntop.ntop4 s_ip) s.local_addresses ≡ 1
      → is_local_address s.local_addresses (world.ntop.ntop4 d_ip) ≡ false
      → connection_find_from_packet s.store p ≡ ok none
      → lookup (flow_key world.ntop s_ip l.local_port d_ip l.rem_port) s.conninode ≡ none
      → net_lines (world.proc (suc s.reads)).net
        ≡ before ++ row_line (hex_text 8 s_ip) (hex_text 8 d_ip) l tail ∷ after
      → All
          (λ line.
            line_entry world.ntop world.undefined s.local_addresses
              (flow_key world.ntop s_ip l.local_port d_ip l.rem_port)
              line
            ≡ none)
          after
      → (world.proc s.reads).entries ≡ some entries
      → last_with l.inode (sockets entries) (lookup l.inode s.inodeproc) ≡ some node
      → find_process_from_program s.processes node ≡ none
      → Returns
          (λ s'.
            (s'.processes
              ≡ s.processes
                ++ record (process_new node.name) {
                  connections = s.store.next ∷ [];
                  pid = node.pid;
                  uid = elim ((world.proc (suc (suc (suc s.reads)))).st_uid node.pid) [
                    | none ↦ 0
                    | some uid ↦ uid
                  ];
                }
                  ∷ [])
            × (s'.store.connections ≡ s.store.connections ++ s.store.next ∷ [])
            × (counted (s'.store.cells s.store.next) ≡ len))
          (account world s p)
  unfolding account inodeproc_table_refresh add_connection assign write
  account-new_flow p before after entries node between w hs hd once far missed absent shown others
        listing there fresh =
      let c = (connection_new world.ntop s.local_addresses p).1 in
      let same =
        new_key world.ntop s.local_addresses s_ip l.local_port d_ip l.rem_port len time p between
          (local_once world.ntop world.undefined s.local_addresses _ once) far in
      let added : State = record s { store = (add_connection s.store c).0 } in
      let known =
        ap (λ k. lookup k (refreshed world added s.store.next c)) same
        ∙ refresh-printed_row world.ntop world.undefined s.local_addresses s_ip d_ip l tail
            s.conninode (world.proc (suc s.reads)).net before after w hs hd (omega arith) shown
            others in
      let found =
        find-new world added s.store.next c l.inode node (proc_loop s.inodeproc entries)
          (deref-add s c) (ap (λ k. lookup k s.conninode) same ∙ absent)
          (ap (inodeproc_table_refresh s.inodeproc) listing) known
          (lookup-proc_loop l.inode entries s.inodeproc ∙ there) fresh in
      rw (missed, Returns)
        (rw found (
          refl,
          refl,
          rw (==_refl s.store.next) (
              new_total world.ntop s.local_addresses s_ip l.local_port d_ip l.rem_port len time p
                between),
        ))
