-- ===== src/Connection.antt =====
-- network-analyzer/na-connection.h and na-connection.c: packet lists and single connections. The
-- static list of all connections is in Store.
pub mod Packets
pub mod Window
pub mod Totals
use gnome_usage.Base.{ℕ, ◌+◌, ◌%◌, ◌^◌, Bool, true, false, List, if◌then◌else◌}
use gnome_usage.Base.Text.{Text}
use gnome_usage.Packet.{
  Packet, Timeval, InetNtop, packet_is_outgoing, packet_copy, packet_new_inverted,
}
use Packets.{PacketList, packet_list_new, packet_list_add_packet, packet_list_sum_packets}

-- `last_packet_time` is an `int`, kept as its bit pattern.
pub record Connection : Type 0 where
  pub refpacket : Packet
  pub total_sent : ℕ
  pub total_received : ℕ
  pub sent_packets : PacketList
  pub recv_packets : PacketList
  pub last_packet_time : ℕ

module _ (ntop : InetNtop) (local_addresses : List Text) where
  -- The packet comes back with its direction settled. That `connections` gets the new connection
  -- is in Store.
  unfoldable pub connection_new : Packet → Packet × Connection
  unfolding packet_is_outgoing packet_list_new packet_list_add_packet packet_copy
  connection_new packet =
      let (p, out) = packet_is_outgoing ntop local_addresses packet in
      (
        p,
        (if out
            then record {
              total_sent = p.len;
              total_received = 0;
              refpacket = packet_copy p;
              sent_packets = packet_list_add_packet packet_list_new p;
              recv_packets = packet_list_new;
              last_packet_time = p.time.tv_sec % 2 ^ 32;
            }
            else record {
              total_received = p.len;
              total_sent = 0;
              refpacket = packet_new_inverted p;
              recv_packets = packet_list_add_packet packet_list_new p;
              sent_packets = packet_list_new;
              last_packet_time = p.time.tv_sec % 2 ^ 32;
            }),
      )

  unfoldable pub connection_add_packet : Connection → Packet → Packet × Connection
  unfolding packet_is_outgoing packet_list_add_packet
  connection_add_packet connection packet =
      let timed = record connection { last_packet_time = packet.time.tv_sec % 2 ^ 32 } in
      let (p, out) = packet_is_outgoing ntop local_addresses packet in
      (
        p,
        (if out
            then record timed {
              total_sent = (timed.total_sent + p.len) % 2 ^ 32;
              sent_packets = packet_list_add_packet timed.sent_packets p;
            }
            else record timed {
              total_received = (timed.total_received + p.len) % 2 ^ 32;
              recv_packets = packet_list_add_packet timed.recv_packets p;
            }),
      )

unfoldable pub connection_get_last_packet_time : Connection → ℕ
connection_get_last_packet_time connection = connection.last_packet_time

-- The connection with its lists cut, the bytes received and the bytes sent.
unfoldable pub connection_sum_packets : Connection → Timeval → Connection × ℕ × ℕ
unfolding packet_list_sum_packets
connection_sum_packets connection t =
    let (sent, sent_packets) = packet_list_sum_packets connection.sent_packets t in
    let (recv, recv_packets) = packet_list_sum_packets connection.recv_packets t in
    (record connection { sent_packets = sent_packets; recv_packets = recv_packets }, recv, sent)

unfoldable pub connection_get_total_sent : Connection → ℕ
connection_get_total_sent connection = connection.total_sent

unfoldable pub connection_get_total_received : Connection → ℕ
connection_get_total_received connection = connection.total_received

unfoldable pub connection_get_refpacket : Connection → Packet
connection_get_refpacket connection = connection.refpacket
