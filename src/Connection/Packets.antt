-- ===== src/Connection/Packets.antt =====
-- `NAPacketList` of network-analyzer/na-connection.c: the packets of one direction, newest first,
-- those of one second merged into one.
use gnome_usage.Base.{ℕ, ◌+◌, ◌%◌, ◌^◌, Bool, List, [], ◌∷◌, ◌==◌, if◌then◌else◌}
use gnome_usage.Base.Int.{pos, sub_ℕ, leb_ℤ}
use gnome_usage.Packet.{Packet, Timeval, packet_copy}

-- `PERIOD`
abbrev pub period : ℕ
period = 5

abbrev pub PacketList : Type 0
PacketList = List Packet

unfoldable pub packet_list_new : PacketList
packet_list_new = []

unfoldable pub packet_list_add_packet : PacketList → Packet → PacketList
unfolding packet_copy
packet_list_add_packet [] packet = packet_copy packet ∷ []
packet_list_add_packet (first ∷ rest) packet =
    if packet.time.tv_sec == first.time.tv_sec
    then record first { len = (first.len + packet.len) % 2 ^ 32 } ∷ rest
    else packet_copy packet ∷ first ∷ rest

-- `packet->time.tv_sec <= t.tv_sec - PERIOD`, in signed arithmetic.
unfoldable pub is_stale : Packet → Timeval → Bool
is_stale packet t = leb_ℤ (pos packet.time.tv_sec) (sub_ℕ t.tv_sec period)

-- The loop: the total, and the list up to where it is cut.
unfoldable pub sum_packets_loop : ℕ → PacketList → Timeval → ℕ × PacketList
unfolding is_stale
sum_packets_loop total [] t = (total, [])
sum_packets_loop total (packet ∷ rest) t =
    if is_stale packet t
    then (total, [])
    else (let (sum, kept) = sum_packets_loop ((total + packet.len) % 2 ^ 32) rest t in
        (sum, packet ∷ kept))

unfoldable pub packet_list_sum_packets : PacketList → Timeval → ℕ × PacketList
unfolding sum_packets_loop
packet_list_sum_packets packet_list t = sum_packets_loop 0 packet_list t
