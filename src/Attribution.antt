-- ===== src/Attribution.antt =====
-- The second half of network-analyzer/na-process.c: which process a new connection belongs to.
pub mod Held
pub mod Keeps
pub mod Found
pub mod Every
use gnome_usage.Base.{ℕ, zero, suc, Bool, Option, none, some, List, [], ◌∷◌, ◌++◌, length, nat_eq}
use gnome_usage.Base.Text.{Text, text_eq}
use gnome_usage.Base.Assoc.{lookup}
use gnome_usage.Outcome.{Outcome, ok, fault, aborted, ◌>>=◌}
use gnome_usage.Packet.{packet_get_hashstring}
use gnome_usage.Connection.{Connection, connection_get_refpacket}
use gnome_usage.Conninode.{conninode_table_refresh}
use gnome_usage.Inodeproc.{inodeproc_table_refresh, inodeproc_table_find_pid}
use gnome_usage.Store.{Store, deref, assign}
use gnome_usage.Process.{Process, World, State, process_new, find_process_from_program}

-- `proc->connections = g_list_append (proc->connections, connection)` at a place of the list.
unfoldable pub attach : ℕ → ℕ → List Process → List Process
attach place a [] = []
attach zero a (p ∷ rest) = record p { connections = p.connections ++ a ∷ [] } ∷ rest
attach (suc place) a (p ∷ rest) = p ∷ attach place a rest

module _ (world : World) where
  -- The place of the process of an inode, if its program is known.
  unfoldable pub get_process_from_inode : State → ℕ → Outcome (State × Option ℕ)
  get_process_from_inode state inode = do
    (table, found) ← inodeproc_table_find_pid state.inodeproc inode (world.proc state.reads).entries
    let searched : State = record state { inodeproc = table; reads = suc state.reads }
    elim found [
      | none ↦ ok (searched, none)
      | some node ↦ elim (find_process_from_program searched.processes node) [
        | some place ↦ ok (searched, some place)
        | none ↦
            let newproc : Process = record (process_new node.name) {
              pid = node.pid;
              uid = elim ((world.proc searched.reads).st_uid node.pid) [
                | none ↦ 0
                | some uid ↦ uid
              ];
            } in
            ok (
              record searched {
                processes = searched.processes ++ newproc ∷ [];
                reads = suc searched.reads;
              },
              some (length searched.processes),
            )
      ]
    ]

  -- The look-up of a key, with the two refreshes where it is missing.
  unfoldable pub find_inode : State → Text → Outcome (State × Option ℕ)
  find_inode state hashstring = elim (lookup hashstring state.conninode) [
    | some inode ↦ ok (state, some inode)
    | none ↦ (do
      table ← inodeproc_table_refresh state.inodeproc (world.proc state.reads).entries
      let conninode =
          conninode_table_refresh world.ntop world.undefined state.local_addresses state.conninode
            (world.proc (suc state.reads)).net
      ok (
        record state { inodeproc = table; conninode = conninode; reads = suc (suc state.reads) },
        lookup hashstring conninode,
      ))
  ]

  -- The process at the place, or a new one under the name of the key.
  unfoldable pub place_or_new : State → Text → Option ℕ → State × ℕ
  place_or_new state hashstring (some place) = (state, place)
  place_or_new state hashstring none = (
    record state { processes = state.processes ++ process_new (some hashstring) ∷ [] },
    length state.processes,
  )

  unfoldable pub process_find_from_connection : State → ℕ → Outcome (State × ℕ)
  process_find_from_connection state a = do
    connection ← deref state.store a
    let (refpacket, hashstring) =
        packet_get_hashstring world.ntop state.local_addresses (connection_get_refpacket connection)
    let keyed : State = record state {
      store = assign state.store a (record connection { refpacket = refpacket });
    }
    (searched, inode) ← find_inode keyed hashstring
    (known, found) ← elim inode [
      | none ↦ ok (searched, none)
      | some i ↦ get_process_from_inode searched i
    ]
    let (placed, place) = place_or_new known hashstring found
    ok (record placed { processes = attach place a placed.processes }, place)
