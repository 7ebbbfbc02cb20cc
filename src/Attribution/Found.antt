-- ===== src/Attribution/Found.antt =====
-- Which process na-process.c finds for a connection.
use gnome_usage.Base.{
  ℕ, suc, ◌≡◌, refl, ◌≢◌, ◌∙◌, All, arith, none, some, List, [], ◌∷◌, ◌++◌, length, ap, nat_eq,
}
use gnome_usage.Base.Text.{Text, text_eq, c_str}
use gnome_usage.Base.Assoc.{lookup}
use gnome_usage.Outcome.{ok, ◌>>=◌}
use gnome_usage.Packet.{packet_get_hashstring}
use gnome_usage.Connection.{Connection, connection_get_refpacket}
use gnome_usage.Conninode.{ConninodeTable, conninode_table_refresh}
use gnome_usage.Inodeproc.{
  InodeprocTable, Program, inodeproc_table_refresh, inodeproc_table_find_pid,
}
use gnome_usage.Store.{deref, assign}
use gnome_usage.Process.{Process, World, State, process_new, g_strdup, find_process_from_program}
use gnome_usage.Attribution.{
  attach, find_inode, get_process_from_inode, place_or_new, process_find_from_connection,
}

attach-append :
    (a : ℕ) (ps : List Process) (p : Process)
    → attach (length ps) a (ps ++ p ∷ [])
      ≡ ps ++ record p { connections = p.connections ++ a ∷ [] } ∷ []
unfolding attach
attach-append a [] p = refl
attach-append a (q ∷ ps) p = ap (λ rest. q ∷ rest) (attach-append a ps p)

-- The first process with the program's pid is found, and a connection is attached to it alone.
find_first :
    (before after : List Process) (q : Process) (node : Program)
    → All (λ p. node.pid ≢ p.pid) before
    → node.pid ≡ q.pid
    → find_process_from_program (before ++ q ∷ after) node ≡ some (length before)
unfolding find_process_from_program
find_first [] after q node others same = ground (arith, same)
find_first (p ∷ before) after q node (other, others) same =
    rw (find_first before after q node others same) (ground (arith, other))

attach-split :
    (a : ℕ) (before after : List Process) (q : Process)
    → attach (length before) a (before ++ q ∷ after)
      ≡ before ++ record q { connections = q.connections ++ a ∷ [] } ∷ after
unfolding attach
attach-split a [] after q = refl
attach-split a (p ∷ before) after q = ap (λ rest. p ∷ rest) (attach-split a before after q)

get-known :
    (world : World) (s : State) (inode place : ℕ) (node : Program)
    → lookup inode s.inodeproc ≡ some node
    → find_process_from_program s.processes node ≡ some place
    → get_process_from_inode world s inode ≡ ok (record s { reads = suc s.reads }, some place)
unfolding get_process_from_inode inodeproc_table_find_pid
get-known world s inode place node there found =
    rw (get_process_from_inode, inodeproc_table_find_pid, there) (rw (◌>>=◌, found) refl)

get-new :
    (world : World) (s : State) (inode : ℕ) (node : Program)
    → lookup inode s.inodeproc ≡ some node
    → find_process_from_program s.processes node ≡ none
    → get_process_from_inode world s inode
      ≡ ok (
        record s {
          reads = suc (suc s.reads);
          processes =
              s.processes
              ++ record (process_new node.name) {
                pid = node.pid;
                uid = elim ((world.proc (suc s.reads)).st_uid node.pid) [
                  | none ↦ 0
                  | some uid ↦ uid
                ];
              }
                ∷ [];
        },
        some (length s.processes),
      )
unfolding get_process_from_inode inodeproc_table_find_pid
get-new world s inode node there fresh =
    rw (get_process_from_inode, inodeproc_table_find_pid, there) (rw (◌>>=◌, fresh) refl)

module _ (world : World) (s : State) (a : ℕ) (c : Connection) where
  -- The key of the connection.
  abbrev pub key : Text
  key = (packet_get_hashstring world.ntop s.local_addresses (connection_get_refpacket c)).1

  -- The connection's memory with the key kept in its reference packet.
  abbrev pub keyed : State
  keyed = record s {
    store = assign s.store a (record c {
      refpacket =
          (packet_get_hashstring world.ntop s.local_addresses (connection_get_refpacket c)).0;
    });
  }

  -- Where the tables know the inode of the connection's key and the program of that inode, the
  -- connection goes to the end of the first process with the program's pid, and neither the tables
  -- nor any other process change.
  pub find-known :
      (inode : ℕ) (node : Program) (before after : List Process) (q : Process)
      → deref s.store a ≡ ok c
      → lookup key s.conninode ≡ some inode
      → lookup inode s.inodeproc ≡ some node
      → s.processes ≡ before ++ q ∷ after
      → All (λ p. node.pid ≢ p.pid) before
      → node.pid ≡ q.pid
      → process_find_from_connection world s a
        ≡ ok (
          record keyed {
            reads = suc s.reads;
            processes = before ++ record q { connections = q.connections ++ a ∷ [] } ∷ after;
          },
          length before,
        )
  unfolding process_find_from_connection find_inode place_or_new
  find-known inode node before after q read known there listed others same =
      rw (read, find_inode, known)
        (rw
          (get-known world keyed inode (length before) node there (
            ap (λ ps. find_process_from_program ps node) listed
            ∙ find_first before after q node others same))
          (ap (λ ps. ok (record keyed { reads = suc s.reads; processes = ps }, length before))
            (ap (attach (length before) a) listed ∙ attach-split a before after q)))

  -- The connection table after the next refresh.
  abbrev pub refreshed : ConninodeTable
  refreshed =
      conninode_table_refresh world.ntop world.undefined s.local_addresses s.conninode
        (world.proc (suc s.reads)).net

  -- Where neither the table nor the refresh that follows knows the connection's key, the connection
  -- gets a new process of its own at the end of the list, named by the key, with pid and uid 0.
  pub find-unknown :
      (table : InodeprocTable)
      → deref s.store a ≡ ok c
      → lookup key s.conninode ≡ none
      → inodeproc_table_refresh s.inodeproc (world.proc s.reads).entries ≡ ok table
      → lookup key refreshed ≡ none
      → process_find_from_connection world s a
        ≡ ok (
          record keyed {
            conninode = refreshed;
            inodeproc = table;
            reads = suc (suc s.reads);
            processes =
                s.processes
                ++ record { name = some (c_str key); connections = a ∷ []; pid = 0; uid = 0 } ∷ [];
          },
          length s.processes,
        )
  unfolding process_find_from_connection find_inode place_or_new process_new g_strdup
  find-unknown table read absent programs still =
      rw (read, find_inode, absent, programs)
        (rw still (
          ap
            (λ ps. ok (
              record keyed {
                conninode = refreshed;
                inodeproc = table;
                reads = suc (suc s.reads);
                processes = ps;
              },
              length s.processes,
            ))
            (attach-append a s.processes _)))

  -- A connection of a program that has a process: where the table does not know the key but the
  -- refresh that follows does, and the refreshed programs know the inode, the connection goes to the
  -- end of the first process with the program's pid, and no other process changes.
  pub find-joined :
      (inode : ℕ) (node : Program) (table : InodeprocTable) (before after : List Process)
      (q : Process)
      → deref s.store a ≡ ok c
      → lookup key s.conninode ≡ none
      → inodeproc_table_refresh s.inodeproc (world.proc s.reads).entries ≡ ok table
      → lookup key refreshed ≡ some inode
      → lookup inode table ≡ some node
      → s.processes ≡ before ++ q ∷ after
      → All (λ p. node.pid ≢ p.pid) before
      → node.pid ≡ q.pid
      → process_find_from_connection world s a
        ≡ ok (
          record keyed {
            conninode = refreshed;
            inodeproc = table;
            reads = suc (suc (suc s.reads));
            processes = before ++ record q { connections = q.connections ++ a ∷ [] } ∷ after;
          },
          length before,
        )
  unfolding process_find_from_connection find_inode place_or_new
  find-joined inode node table before after q read absent programs known there listed others same =
      rw (read, find_inode, absent, programs)
        (rw known (
          rw
            (get-known world
              (record keyed { conninode = refreshed; inodeproc = table; reads = suc (suc s.reads) })
              inode (length before) node there
              (ap (λ ps. find_process_from_program ps node) listed
                ∙ find_first before after q node others same))
            (ap
              (λ ps. ok (
                record keyed {
                  conninode = refreshed;
                  inodeproc = table;
                  reads = suc (suc (suc s.reads));
                  processes = ps;
                },
                length before,
              ))
              (ap (attach (length before) a) listed ∙ attach-split a before after q))))

  -- A connection of a program that was not seen before: where the table does not know the key but
  -- the refresh that follows does, the refreshed programs know the inode, and no process has the
  -- program's pid, the connection gets a new process at the end of the list, with the program's name
  -- and pid and with the user of that pid, or 0 if there is none, and both tables stay refreshed.
  pub find-new :
      (inode : ℕ) (node : Program) (table : InodeprocTable)
      → deref s.store a ≡ ok c
      → lookup key s.conninode ≡ none
      → inodeproc_table_refresh s.inodeproc (world.proc s.reads).entries ≡ ok table
      → lookup key refreshed ≡ some inode
      → lookup inode table ≡ some node
      → find_process_from_program s.processes node ≡ none
      → process_find_from_connection world s a
        ≡ ok (
          record keyed {
            conninode = refreshed;
            inodeproc = table;
            reads = suc (suc (suc (suc s.reads)));
            processes =
                s.processes
                ++ record (process_new node.name) {
                  connections = a ∷ [];
                  pid = node.pid;
                  uid = elim ((world.proc (suc (suc (suc s.reads)))).st_uid node.pid) [
                    | none ↦ 0
                    | some uid ↦ uid
                  ];
                }
                  ∷ [];
          },
          length s.processes,
        )
  unfolding process_find_from_connection find_inode get_process_from_inode place_or_new
      inodeproc_table_find_pid process_new
  find-new inode node table read absent programs known there fresh =
      rw (read, find_inode, absent, programs)
        (rw known (
          rw
            (get-new world
              (record keyed { conninode = refreshed; inodeproc = table; reads = suc (suc s.reads) })
              inode node there fresh)
            (ap
              (λ ps. ok (
                record keyed {
                  conninode = refreshed;
                  inodeproc = table;
                  reads = suc (suc (suc (suc s.reads)));
                  processes = ps;
                },
                length s.processes,
              ))
              (attach-append a s.processes _))))
