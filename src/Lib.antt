-- ===== src/Lib.antt =====
-- gnome-usage, the network analyzer (network-analyzer/*.c): a system service that captures packets,
-- attributes them to processes and sends the rates of each process over D-Bus.
--
-- How the parts work together. main_loop_cb runs once per refresh delay. It lets libpcap deliver the
-- captured packets of each handle; pcap_dispatch_cb finds the addresses and the ports in a packet
-- and push_packet adds the packet to the connection of its flow, or makes a new connection. A new
-- connection goes to a process: the key of its packet leads to an inode (the tables of /proc/net),
-- and the inode to a program (the descriptors in /proc/<pid>/fd). Then do_refresh asks each process
-- for the bytes of the last PERIOD seconds, drops what has timed out, and emits the figures as a
-- signal. The client answers by Acknowledge; without that the service quits after about five
-- seconds.
--
-- Which file models what (C names without the prefix na_, static variables as arguments or fields;
-- all files are in network-analyzer/):
--   LocalAddresses  network-analyzer/na-local-addresses.c
--   Packet          na-packet.h, na-packet.c; a write through the packet pointer is a new packet
--   Connection      na-connection.h, na-connection.c: one connection; Connection/Packets the packet
--                   lists
--   Store           na-connection.c: the list of all connections, and the memory they are in. An
--                   address is a number; a read of an address that is not allocated is `fault`
--   Scanf           the sscanf, strtoul and strtol of the C library, by their documentation;
--                   Scanf/Print the numbers that it reads, printed with %X and %u
--   Conninode       na-conninode.c; Conninode/Printed the rows of /proc/net as proc(5) has them,
--                   Conninode/Files the four files as one list of lines
--   Inodeproc       na-inodeproc.h, na-inodeproc.c
--   Process         na-process.h, na-process.c up to find_process, and `State`, all static variables
--   Attribution     na-process.c from get_process_from_inode on
--   Frame           na-pcap.c: the parsers from the link layer to the ports
--   Pcap            na-pcap.h, na-pcap.c: capture handles, push_packet and dispatch
--   Application     na-application.h, na-application.c: timers, properties and bus events;
--                   Application/Network get_devices, Application/Refresh main_loop_cb and do_refresh,
--                   Application/Class the class that GObject gets;
--                   Application/System puts these together: events, seconds that pass and callbacks
--   Main            main.c: the check for root, and the run from the start
--   Outcome         how a call ends: a value, a memory fault, or the abort of g_error
--   Base            numbers, texts, association lists and membership
-- Below a module stand the proofs about it, named for what they prove. Tests holds the theorems at
-- concrete inputs.
--
-- Numbers. Ports, addresses, sizes and times are natural numbers, unsigned sums are cut to 32 bits
-- where they are stored, an `int` is kept as its bit pattern and read by `signed32`, and differences
-- of times are integers, as in the C code's arithmetic in `long`. The clock is not negative.
--
-- Bounds and fuel. Only the reading of a file in addprocinfo runs on fuel: a round reads at least
-- one byte, and the fuel is the length of what is left of the file. (In the C code a read that fails
-- leaves feof unset, and the loop goes on without end; this is outside the model.) The digits of a
-- number run on fuel one above the number. All other loops follow a list.
--
-- What is a parameter: inet_ntop, libpcap's answers and deliveries, NetworkManager's devices, GLib's
-- main context and the seconds until its sources are due (GLib rounds the first interval, so that it
-- may be one second longer or shorter than was asked for; a source that is due is called before the
-- next second, as where no callback holds the loop up), whether GObject accepts a value for a
-- property (one out of bounds it refuses), the floating-point operations, what memory holds before
-- it is written or after it is freed (`Undefined`), and /proc, which may be different at each
-- reading and whose files may fail to open; a read of an open file does not fail. A Program,
-- ProcInfo or text that is shared by pointer is a value, since nothing writes to it after it is
-- made. The inode of a row is read again after the table may have freed it: it then is what
-- `Undefined` says. (na-inodeproc.c reads freed memory only for a debug message.) The three
-- assertions on answers of GLib, in on_bus_acquired and na_application_activate, are taken to hold.
--
-- How properties pass from part to part. Owns (Process/Ownership) says that the processes hold
-- distinct connections, all listed and allocated, and so that no freed connection is read; it is
-- kept by each part and gives that calls return. Every (Store/Every) says that each connection in
-- memory has a property; a property that the four operations on connections keep (`IsKept`) is kept
-- by packets and reports alike, where they return. Returns-Yields (Outcome) puts the two together.
-- Tracks (Store/History) compares the connections with the list of all captured packets:
-- Pcap/History keeps it under a packet, Process/History under a report, Process/Accounts reads the
-- figures off it, and Application/Rounds puts the rounds of the main loop together.
--
-- Not modelled: the export of the object on D-Bus and the reply to a method call, which are GLib's
-- and change no state of the program; debug messages; the memory of anything but connections and the
-- inode of a row; and the desktop program in src/ (Vala), which draws what the signal brings.
mod Base
pub mod LocalAddresses
pub mod Packet
pub mod Connection
pub mod Outcome
pub mod Scanf
pub mod Conninode
pub mod Inodeproc
pub mod Store
pub mod Process
pub mod Attribution
pub mod Frame
pub mod Pcap
pub mod Application
pub mod Main
mod Tests
