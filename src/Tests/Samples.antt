-- ===== src/Tests/Samples.antt =====
-- The data of the tests: one host, 10.0.0.1, with one TCP connection.
use gnome_usage.Base.{
  ℕ, ◌/◌, ◌%◌, refl, true, none, some, [], ◌∷◌, ◌++◌, ◌==◌, arith, if◌then◌else◌,
}
use gnome_usage.Base.Text.{Text, text}
use gnome_usage.Base.Decimal.{print_nat}
use gnome_usage.Packet.{Packet, unknown, inet, in6addr_zero, Timeval, InetNtop, outgoing}
use gnome_usage.Connection.{Connection}
use gnome_usage.Conninode.{Undefined}
use gnome_usage.Inodeproc.{ProcEntry}
use gnome_usage.Store.{Store}
use gnome_usage.Process.{Process, World, State, ProcFs}
use gnome_usage.Process.Ownership.{Owns}
use gnome_usage.Attribution.Keeps.{IsReadable}

abbrev pub dotted : ℕ → Text
dotted a =
    print_nat (a % 256)
    ++ (b'.'
        ∷ (print_nat (a / 256 % 256)
            ++ (b'.' ∷ (print_nat (a / 65536 % 256) ++ (b'.' ∷ print_nat (a / 16777216))))))

abbrev pub ntop : InetNtop
ntop = record {
  ntop4 = dotted;
  ntop6 = λ a. print_nat a.w0 ++ (b':' ∷ (print_nat a.w1 ++ (b':' ∷ print_nat a.w3)));
}

-- 10.0.0.1 and 10.0.0.2, as `s_addr` holds them.
abbrev pub here : ℕ
here = 0x0100000A

abbrev pub there : ℕ
there = 0x0200000A

abbrev pub at_second : ℕ → Timeval
at_second n = record { tv_sec = n; tv_usec = 0 }

abbrev pub packet_at : ℕ → ℕ → Packet
packet_at second len = record {
  s_ip6 = in6addr_zero;
  d_ip6 = in6addr_zero;
  s_ip = here;
  d_ip = there;
  s_port = 8080;
  d_port = 80;
  len = len;
  time = at_second second;
  dir = unknown;
  sa_family = inet;
  hashstring = none;
}

abbrev pub connection : Connection
connection = record {
  refpacket = record (packet_at 100 60) { dir = outgoing };
  total_sent = 60;
  total_received = 0;
  sent_packets = packet_at 100 60 ∷ [];
  recv_packets = [];
  last_packet_time = 100;
}

abbrev pub store : Store
store = record {
  cells = λ a. if a == 0 then some connection else none;
  next = 1;
  connections = 0 ∷ [];
}

abbrev pub process : Process
process = record { name = some (text "web"); connections = 0 ∷ []; pid = 42; uid = 1000 }

abbrev pub state : State
state = record {
  local_addresses = text "10.0.0.1" ∷ [];
  store = store;
  processes = process ∷ [];
  conninode = [];
  inodeproc = [];
  reads = 0;
}

abbrev pub row : Text
row =
    text
      "   0: 0100000A:1F90 0200000A:0050 01 00000000:00000000 00:00000000 00000000  1000        0 2119 1 c0f4\n"

abbrev pub web_entry : ProcEntry
web_entry = record {
  is_dir = true;
  d_name = text "42";
  cmdline = some (text "web");
  fds = some (
      record { is_link = true; target = some (text "socket:[2119]") }
      ∷ record { is_link = true; target = some (text "/dev/null") }
      ∷ []);
}

abbrev pub proc : ProcFs
proc = record {
  net = record {
    tcp = some (text "  sl  local_address\n" ++ row);
    tcp6 = none;
    udp = none;
    udp6 = none;
  };
  entries = some (web_entry ∷ []);
  st_uid = λ pid. if pid == 42 then some 1000 else none;
}

abbrev pub undefined : Undefined
undefined = record { stack = in6addr_zero; freed = λ key. 0 }

abbrev pub world : World
world = record { ntop = ntop; undefined = undefined; proc = λ n. proc }

pub readable : IsReadable world
readable n = (web_entry ∷ [], refl)

pub state-Owns : Owns state.store state.processes
state-Owns = record {
  store = record { listed = λ a. ground arith; fresh = λ a h. ground arith; distinct = (refl, tt) };
  distinct = (refl, tt);
  backed = λ b h. ground arith;
}
