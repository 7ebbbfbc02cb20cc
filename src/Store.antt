-- ===== src/Store.antt =====
-- The connections of network-analyzer/na-connection.c as objects in memory: the static list
-- `connections` holds pointers, which the processes share.
pub mod WellFormed
pub mod Flows
pub mod Single
pub mod Every
pub mod Early
pub mod History
use gnome_usage.Base.{
  ℕ, suc, Bool, true, false, Option, none, some, List, [], ◌∷◌, ◌++◌, ◌==◌, if◌then◌else◌,
}
use gnome_usage.Base.Text.{Text}
use gnome_usage.Outcome.{Outcome, ok, fault, aborted, ◌>>=◌}
use gnome_usage.Packet.{Packet, InetNtop, packet_match, packet_new_inverted}
use gnome_usage.Connection.{Connection, connection_new, connection_add_packet}

-- `cells` is the memory, `next` the address of the next `g_new`.
pub record Store : Type 0 where
  pub cells : ℕ → Option Connection
  pub next : ℕ
  pub connections : List ℕ

unfoldable pub write : (ℕ → Option Connection) → ℕ → Option Connection → ℕ → Option Connection
write cells a c b = if b == a then c else cells b

-- A read through a pointer, a fault where nothing is allocated.
unfoldable pub deref : Store → ℕ → Outcome Connection
deref s a = elim (s.cells a) [ none ↦ fault | some c ↦ ok c ]

unfoldable pub assign : Store → ℕ → Connection → Store
assign s a c = record s { cells = write s.cells a (some c) }

-- `g_list_remove`: the first element that is equal.
unfoldable pub remove_first : ℕ → List ℕ → List ℕ
remove_first a [] = []
remove_first a (b ∷ rest) = if b == a then rest else b ∷ remove_first a rest

-- The end of `na_connection_new`: the connection is allocated and listed.
unfoldable pub add_connection : Store → Connection → Store × ℕ
add_connection s c = (
  record s {
    cells = write s.cells s.next (some c);
    next = suc s.next;
    connections = s.connections ++ s.next ∷ [];
  },
  s.next,
)

-- `na_connection_free`, which reads the connection that it frees.
unfoldable pub connection_free : Store → ℕ → Outcome Store
connection_free s a = do
  connection ← deref s a
  ok (record s { cells = write s.cells a none; connections = remove_first a s.connections })

-- One of the two loops of `na_connection_find_from_packet`.
unfoldable pub find_loop : Store → Packet → List ℕ → Outcome (Option ℕ)
find_loop s packet [] = ok none
find_loop s packet (a ∷ rest) =
    let later = find_loop s packet rest in
    do
      connection ← deref s a
      if packet_match packet connection.refpacket then ok (some a) else later

unfoldable pub connection_find_from_packet : Store → Packet → Outcome (Option ℕ)
connection_find_from_packet s packet = do
  direct ← find_loop s packet s.connections
  elim direct [
    | some a ↦ ok (some a)
    | none ↦ find_loop s (packet_new_inverted packet) s.connections
  ]
