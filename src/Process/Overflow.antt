-- ===== src/Process/Overflow.antt =====
-- The time of the last packet as na-connection.c keeps it, in an `int`, and what na-process.c makes
-- of it.
use gnome_usage.Base.{◌+◌, ◌^◌, ◌<◌, ◌≤◌, ◌≡◌, ◌||◌, List, leb, arith, inl, inr, Bool-cases}
use gnome_usage.Base.Text.{Text}
use gnome_usage.Packet.{Packet, Timeval, InetNtop, packet_is_outgoing}
use gnome_usage.Connection.{Connection, connection_add_packet, connection_get_last_packet_time}
use gnome_usage.Process.{conn_timeout, is_stalled}

last_packet_time-add_packet :
    (ntop : InetNtop) (locals : List Text) (c : Connection) (p : Packet)
    → p.time.tv_sec < 2 ^ 32
    → (connection_add_packet ntop locals c p).1.last_packet_time ≡ p.time.tv_sec
unfolding connection_add_packet
last_packet_time-add_packet ntop locals c p h =
    elim (Bool-cases (packet_is_outgoing ntop locals p).1) [
      | inl out ↦ rw out (omega (arith, h))
      | inr into ↦ rw into (omega (arith, h))
    ]

-- A connection that has just taken a packet counts as stalled 25 seconds after the packet's second,
-- and not before, if that second is below 2^31; from there up to 2^32 it counts as stalled at once.
-- The time of the question is 25 seconds after the epoch or later.
pub is_stalled-add_packet :
    (ntop : InetNtop) (locals : List Text) (c : Connection) (p : Packet) (t : Timeval)
    → p.time.tv_sec < 2 ^ 32
    → conn_timeout ≤ t.tv_sec
    → is_stalled (connection_add_packet ntop locals c p).1 t
      ≡ (leb (2 ^ 31) p.time.tv_sec || leb (p.time.tv_sec + conn_timeout) t.tv_sec)
unfolding is_stalled connection_get_last_packet_time
is_stalled-add_packet ntop locals c p t h late =
    rw (last_packet_time-add_packet ntop locals c p h) (ground (arith, h, late))
