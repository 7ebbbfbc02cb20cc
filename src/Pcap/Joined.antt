-- ===== src/Pcap/Joined.antt =====
-- The first packet of a connection whose process is there already, or cannot be found, from
-- na-pcap.c through the two tables to na-process.c.
use gnome_usage.Base.{
  ℕ, suc, ◌^◌, ◌<◌, ◌≡◌, refl, ap, ◌∙◌, true, false, none, some, List, [], ◌∷◌, ◌++◌, ==_refl,
  arith, All, nat_eq, ◌≢◌,
}
use gnome_usage.Base.Text.{Text, text_eq, c_str}
use gnome_usage.Base.Assoc.{lookup}
use gnome_usage.Outcome.{ok, Returns}
use gnome_usage.LocalAddresses.{is_local_address}
use gnome_usage.LocalAddresses.Occurs.{occurs}
use gnome_usage.Packet.{Packet, Timeval}
use gnome_usage.Connection.{connection_new}
use gnome_usage.Scanf.Print.{hex_text}
use gnome_usage.Conninode.Printed.{Line, row_line}
use gnome_usage.Conninode.Entered.{IsLine}
use gnome_usage.Conninode.Agreement.{local_once}
use gnome_usage.Conninode.Files.{lookup-refresh, net_lines, line_entry}
use gnome_usage.Conninode.Sought.{last_entry-none, refresh-printed_row}
use gnome_usage.Inodeproc.{Program, ProcEntry, inodeproc_table_refresh, proc_loop}
use gnome_usage.Inodeproc.Scan.{sockets, last_with, lookup-proc_loop}
use gnome_usage.Store.{write, assign, add_connection, connection_find_from_packet}
use gnome_usage.Process.{State, Process, World}
use gnome_usage.Attribution.Found.{refreshed, find-known, find-joined, find-unknown}
use gnome_usage.Pcap.{account}
use gnome_usage.Pcap.First.{IsBetween, flow_key, new_key, new_total, deref-add}
use gnome_usage.Pcap.Counted.{counted}

module _ (world : World) (s : State) (s_ip d_ip len : ℕ) (time : Timeval) where
  module _ (l : Line) (tail : Text) where
    -- The first packet of an IPv4 connection, in either direction, where no listed connection matches
    -- it, of a program that has a process already: it makes one connection, that has counted its
    -- length, and puts it behind the others of the first process with the program's pid; the process
    -- keeps its name, pid and user, and no other process changes or moves. The conditions: the
    -- connection table does not know the flow; the files of /proc/net, when they are read, show its row
    -- with the socket's inode, its numbers in their ranges, and no row behind it enters anything under
    -- its key; the local address stands exactly once among the local ones and the remote one does not;
    -- the listing of /proc shows a program with that inode, or the program table has one.
    pub account-joined_flow :
        (p : Packet) (before after : List Text) (entries : List ProcEntry) (node : Program)
        (earlier later : List Process) (q : Process)
        → IsBetween s_ip l.local_port d_ip l.rem_port len time p
        → IsLine l
        → s_ip < 2 ^ 32
        → d_ip < 2 ^ 32
        → occurs (world.ntop.ntop4 s_ip) s.local_addresses ≡ 1
        → is_local_address s.local_addresses (world.ntop.ntop4 d_ip) ≡ false
        → connection_find_from_packet s.store p ≡ ok none
        → lookup (flow_key world.ntop s_ip l.local_port d_ip l.rem_port) s.conninode ≡ none
        → net_lines (world.proc (suc s.reads)).net
          ≡ before ++ row_line (hex_text 8 s_ip) (hex_text 8 d_ip) l tail ∷ after
        → All
            (λ line.
              line_entry world.ntop world.undefined s.local_addresses
                (flow_key world.ntop s_ip l.local_port d_ip l.rem_port)
                line
              ≡ none)
            after
        → (world.proc s.reads).entries ≡ some entries
        → last_with l.inode (sockets entries) (lookup l.inode s.inodeproc) ≡ some node
        → s.processes ≡ earlier ++ q ∷ later
        → All (λ e. node.pid ≢ e.pid) earlier
        → node.pid ≡ q.pid
        → Returns
            (λ s'.
              (s'.processes
                ≡ earlier
                  ++ record {
                    name = q.name;
                    connections = q.connections ++ s.store.next ∷ [];
                    pid = q.pid;
                    uid = q.uid;
                  }
                    ∷ later)
              × (s'.store.connections ≡ s.store.connections ++ s.store.next ∷ [])
              × (counted (s'.store.cells s.store.next) ≡ len))
            (account world s p)
    unfolding account inodeproc_table_refresh add_connection assign write
    account-joined_flow p before after entries node earlier later q between w hs hd once far missed
          absent shown others listing there listed different same_pid =
        let c = (connection_new world.ntop s.local_addresses p).1 in
        let same =
          new_key world.ntop s.local_addresses s_ip l.local_port d_ip l.rem_port len time p between
            (local_once world.ntop world.undefined s.local_addresses _ once) far in
        let added : State = record s { store = (add_connection s.store c).0 } in
        let known =
          ap (λ k. lookup k (refreshed world added s.store.next c)) same
          ∙ refresh-printed_row world.ntop world.undefined s.local_addresses s_ip d_ip l tail
              s.conninode (world.proc (suc s.reads)).net before after w hs hd (omega arith) shown
              others in
        let found =
          find-joined world added s.store.next c l.inode node (proc_loop s.inodeproc entries)
            earlier later q (deref-add s c) (ap (λ k. lookup k s.conninode) same ∙ absent)
            (ap (inodeproc_table_refresh s.inodeproc) listing) known
            (lookup-proc_loop l.inode entries s.inodeproc ∙ there) listed different same_pid in
        rw (missed, Returns)
          (rw found (
            refl,
            refl,
            rw (==_refl s.store.next) (
                new_total world.ntop s.local_addresses s_ip l.local_port d_ip l.rem_port len time p
                  between),
          ))

  -- The first packet of an IPv4 connection, in either direction, where no listed connection matches
  -- it, of a flow that the connection table knows: it makes one connection, that has counted its
  -- length, and puts it behind the others of the first process with the program's pid, whatever
  -- /proc shows by then: no other process changes or moves, and both tables stay as they are. The
  -- conditions: the program table has the inode that the connection table gives; the process list
  -- has a process with the program's pid; the local address stands among the local ones and the
  -- remote one does not.
  pub account-known_flow :
      (p : Packet) (s_port d_port inode : ℕ) (node : Program) (earlier later : List Process)
      (q : Process)
      → IsBetween s_ip s_port d_ip d_port len time p
      → is_local_address s.local_addresses (world.ntop.ntop4 s_ip) ≡ true
      → is_local_address s.local_addresses (world.ntop.ntop4 d_ip) ≡ false
      → connection_find_from_packet s.store p ≡ ok none
      → lookup (flow_key world.ntop s_ip s_port d_ip d_port) s.conninode ≡ some inode
      → lookup inode s.inodeproc ≡ some node
      → s.processes ≡ earlier ++ q ∷ later
      → All (λ e. node.pid ≢ e.pid) earlier
      → node.pid ≡ q.pid
      → Returns
          (λ s'.
            (s'.processes
              ≡ earlier
                ++ record {
                  name = q.name;
                  connections = q.connections ++ s.store.next ∷ [];
                  pid = q.pid;
                  uid = q.uid;
                }
                  ∷ later)
            × (s'.conninode ≡ s.conninode)
            × (s'.inodeproc ≡ s.inodeproc)
            × (counted (s'.store.cells s.store.next) ≡ len))
          (account world s p)
  unfolding account add_connection assign write
  account-known_flow p s_port d_port inode node earlier later q between near far missed known there
        listed different same_pid =
      let c = (connection_new world.ntop s.local_addresses p).1 in
      let same =
        new_key world.ntop s.local_addresses s_ip s_port d_ip d_port len time p between near far in
      let added : State = record s { store = (add_connection s.store c).0 } in
      let found =
        find-known world added s.store.next c inode node earlier later q (deref-add s c)
          (ap (λ k. lookup k s.conninode) same ∙ known) there listed different same_pid in
      rw (missed, Returns)
        (rw found (
          refl,
          refl,
          refl,
          rw (==_refl s.store.next)
              (new_total world.ntop s.local_addresses s_ip s_port d_ip d_port len time p between),
        ))

  -- The first packet of an IPv4 connection, in either direction, where no listed connection matches
  -- it, of a flow that /proc/net does not show: it makes one connection, that has counted its length,
  -- and puts it alone in a new process at the end of the list, that is named by the flow's key up to
  -- its first zero byte, with pid and uid 0, whatever processes without a program there are. The
  -- conditions: the connection table does not know the flow, and no line of the files of /proc/net,
  -- when they are read, enters anything under its key; the local address stands among the local ones
  -- and the remote one does not; /proc can be listed.
  pub account-unknown_flow :
      (p : Packet) (s_port d_port : ℕ) (entries : List ProcEntry)
      → IsBetween s_ip s_port d_ip d_port len time p
      → is_local_address s.local_addresses (world.ntop.ntop4 s_ip) ≡ true
      → is_local_address s.local_addresses (world.ntop.ntop4 d_ip) ≡ false
      → connection_find_from_packet s.store p ≡ ok none
      → lookup (flow_key world.ntop s_ip s_port d_ip d_port) s.conninode ≡ none
      → All
          (λ line.
            line_entry world.ntop world.undefined s.local_addresses
              (flow_key world.ntop s_ip s_port d_ip d_port)
              line
            ≡ none)
          (net_lines (world.proc (suc s.reads)).net)
      → (world.proc s.reads).entries ≡ some entries
      → Returns
          (λ s'.
            (s'.processes
              ≡ s.processes
                ++ record {
                  name = some (c_str (flow_key world.ntop s_ip s_port d_ip d_port));
                  connections = s.store.next ∷ [];
                  pid = 0;
                  uid = 0;
                }
                  ∷ [])
            × (s'.store.connections ≡ s.store.connections ++ s.store.next ∷ [])
            × (counted (s'.store.cells s.store.next) ≡ len))
          (account world s p)
  unfolding account inodeproc_table_refresh add_connection assign write
  account-unknown_flow p s_port d_port entries between near far missed absent others listing =
      let c = (connection_new world.ntop s.local_addresses p).1 in
      let same =
        new_key world.ntop s.local_addresses s_ip s_port d_ip d_port len time p between near far in
      let added : State = record s { store = (add_connection s.store c).0 } in
      let still =
        ap (λ k. lookup k (refreshed world added s.store.next c)) same
        ∙ lookup-refresh world.ntop world.undefined s.local_addresses _ s.conninode
            (world.proc (suc s.reads)).net
        ∙ last_entry-none world.ntop world.undefined s.local_addresses _ _ _ others
        ∙ absent in
      let found =
        find-unknown world added s.store.next c (proc_loop s.inodeproc entries) (deref-add s c)
          (ap (λ k. lookup k s.conninode) same ∙ absent)
          (ap (inodeproc_table_refresh s.inodeproc) listing) still in
      rw (missed, Returns)
        (rw found (
          ap
              (λ k.
                s.processes
                ++ record {
                  name = some (c_str k);
                  connections = s.store.next ∷ [];
                  pid = 0;
                  uid = 0;
                }
                  ∷ [])
              same,
          refl,
          rw (==_refl s.store.next)
              (new_total world.ntop s.local_addresses s_ip s_port d_ip d_port len time p between),
        ))
