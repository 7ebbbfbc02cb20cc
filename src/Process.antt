-- ===== src/Process.antt =====
-- network-analyzer/na-process.h and na-process.c, with the static state of the whole program. A
-- pointer to a process is its place in the list `processes`.
pub mod Safety
pub mod Ownership
pub mod Overflow
pub mod Orphans
pub mod Figures
pub mod Sums
pub mod Report
pub mod Every
pub mod History
pub mod Accounts
use gnome_usage.Base.{
  ℕ, zero, suc, ◌+◌, ◌%◌, ◌^◌, Bool, true, false, Option, none, some, List, [], ◌∷◌, ◌++◌, ◌==◌,
  if◌then◌else◌, length, nat_eq,
}
use gnome_usage.Base.Int.{pos, sub_ℕ, leb_ℤ, ltb_ℤ, signed32}
use gnome_usage.Base.Text.{Text, c_str, text_eq}
use gnome_usage.Base.Assoc.{lookup}
use gnome_usage.Outcome.{Outcome, ok, fault, aborted, ◌>>=◌}
use gnome_usage.Packet.{Timeval, In6Addr, InetNtop, packet_get_hashstring}
use gnome_usage.Connection.{
  Connection, connection_get_last_packet_time, connection_sum_packets, connection_get_refpacket,
}
use gnome_usage.Conninode.{ConninodeTable, Undefined, ProcNet, conninode_table_refresh}
use gnome_usage.Inodeproc.{
  Program, InodeprocTable, ProcEntry, inodeproc_table_refresh, inodeproc_table_find_pid,
}
use gnome_usage.Store.{Store, deref, assign, connection_free}

-- `CONNTIMEOUT` and `PROCESSTIMEOUT`, in seconds.
abbrev pub conn_timeout : ℕ
conn_timeout = 25

abbrev pub process_timeout : ℕ
process_timeout = 50

-- `pid` is kept as its bit pattern; a `name` of `none` is NULL.
pub record Process : Type 0 where
  pub name : Option Text
  pub connections : List ℕ
  pub pid : ℕ
  pub uid : ℕ

pub record ProcInfo : Type 0 where
  pub name : Option Text
  pub pid : ℕ
  pub sent : ℕ
  pub recv : ℕ

-- What one reading of /proc finds: the socket tables, the listing (`none` if it cannot be opened)
-- and the owner of each process directory, if it is there.
pub record ProcFs : Type 0 where
  pub net : ProcNet
  pub entries : Option (List ProcEntry)
  pub st_uid : ℕ → Option ℕ

-- What the program does not implement: `inet_ntop`, what memory holds before it is written or after
-- it is freed, and /proc, which may change at every moment.
pub record World : Type 0 where
  pub ntop : InetNtop
  pub undefined : Undefined
  pub proc : ℕ → ProcFs

-- The static variables of all files. `reads` is the moment of the next reading of /proc.
pub record State : Type 0 where
  pub local_addresses : List Text
  pub store : Store
  pub processes : List Process
  pub conninode : ConninodeTable
  pub inodeproc : InodeprocTable
  pub reads : ℕ

-- `g_strdup`
unfoldable pub g_strdup : Option Text → Option Text
g_strdup none = none
g_strdup (some name) = some (c_str name)

unfoldable pub process_new : Option Text → Process
process_new name = record { name = g_strdup name; connections = []; pid = 0; uid = 0 }

-- The loop of `na_process_get_last_packet_time`, over bit patterns of `int`.
unfoldable pub last_packet_time_loop : Store → ℕ → List ℕ → Outcome ℕ
last_packet_time_loop s last [] = ok last
last_packet_time_loop s last (a ∷ rest) = do
  connection ← deref s a
  let time = connection_get_last_packet_time connection
  last_packet_time_loop s (if ltb_ℤ (signed32 last) (signed32 time) then time else last) rest

unfoldable pub process_get_last_packet_time : Store → Process → Outcome ℕ
process_get_last_packet_time s process = last_packet_time_loop s 0 process.connections

unfoldable pub process_get_uid : Process → ℕ
process_get_uid process = process.uid

unfoldable pub process_get_name : Process → Option Text
process_get_name process = process.name

-- `na_connection_get_last_packet_time (connection) <= t.tv_sec - CONNTIMEOUT`
unfoldable pub is_stalled : Connection → Timeval → Bool
is_stalled connection t =
    leb_ℤ (signed32 (connection_get_last_packet_time connection)) (sub_ℕ t.tv_sec conn_timeout)

-- The loop of `na_process_sum_connections`: the connections that stay, the bytes received and sent.
unfoldable pub sum_connections_loop :
    Timeval → Store → ℕ → ℕ → List ℕ → Outcome (Store × List ℕ × ℕ × ℕ)
sum_connections_loop t s recv sent [] = ok (s, [], recv, sent)
sum_connections_loop t s recv sent (a ∷ rest) = do
  connection ← deref s a
  let freed = do s' ← connection_free s a; sum_connections_loop t s' recv sent rest
  let (connection', conn_recv, conn_sent) = connection_sum_packets connection t
  let summed = do
    (s', kept, recv', sent') ←
        sum_connections_loop t (assign s a connection') ((recv + conn_recv) % 2 ^ 32)
          ((sent + conn_sent) % 2 ^ 32) rest
    ok (s', a ∷ kept, recv', sent')
  if is_stalled connection t then freed else summed

unfoldable pub process_sum_connections :
    Timeval → Store → Process → Outcome (Store × Process × ℕ × ℕ)
process_sum_connections t s process = do
  (s', kept, recv, sent) ← sum_connections_loop t s 0 0 process.connections
  ok (s', record process { connections = kept }, recv, sent)

-- `na_process_get_last_packet_time (process) + PROCESSTIMEOUT <= t.tv_sec`, the sum being an `int`.
unfoldable pub is_timed_out : ℕ → Timeval → Bool
is_timed_out last t = leb_ℤ (signed32 ((last + process_timeout) % 2 ^ 32)) (pos t.tv_sec)

-- The loop of `na_process_info_get_all`: the processes that stay, and their figures.
unfoldable pub info_loop :
    Timeval → Store → List Process → Outcome (Store × List Process × List ProcInfo)
info_loop t s [] = ok (s, [], [])
info_loop t s (process ∷ rest) = do
  last ← process_get_last_packet_time s process
  let deleted = info_loop t s rest
  let reported = do
    (s', process', recv, sent) ← process_sum_connections t s process
    (s'', processes, infos) ← info_loop t s' rest
    let info : ProcInfo = record {
      name = process.name;
      pid = process.pid;
      recv = recv;
      sent = sent;
    }
    ok (s'', process' ∷ processes, info ∷ infos)
  if is_timed_out last t then deleted else reported

-- The place of the first process with the program's pid.
unfoldable pub find_process_from_program : List Process → Program → Option ℕ
find_process_from_program [] node = none
find_process_from_program (process ∷ rest) node =
    if node.pid == process.pid
    then some 0
    else elim (find_process_from_program rest node) [ none ↦ none | some i ↦ some (suc i) ]

module _ (world : World) where
  unfoldable pub process_info_get_all : Timeval → State → Outcome (State × List ProcInfo)
  process_info_get_all t state = do
    let conninode =
        conninode_table_refresh world.ntop world.undefined state.local_addresses state.conninode
          (world.proc state.reads).net
    (store, processes, infos) ← info_loop t state.store state.processes
    ok (
      record state {
        conninode = conninode;
        reads = suc state.reads;
        store = store;
        processes = processes;
      },
      infos,
    )

-- `find_process`, which nothing calls.
unfoldable pub find_process :
    InodeprocTable
    → List Process
    → ℕ
    → Option (List ProcEntry)
    → Outcome (InodeprocTable × Option ℕ)
find_process table processes inode proc = do
  (table', found) ← inodeproc_table_find_pid table inode proc
  ok (table', elim found [ none ↦ none | some node ↦ find_process_from_program processes node ])
