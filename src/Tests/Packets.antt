-- ===== src/Tests/Packets.antt =====
-- The theorems about packets and packet lists at concrete inputs.
use gnome_usage.Base.{◌%◌, ◌^◌, ◌≡◌, refl, List, [], ◌∷◌, arith, if◌then◌else◌, not}
use gnome_usage.Base.Text.{text_beq}
use gnome_usage.Base.Decimal.{print_nat}
use gnome_usage.LocalAddresses.{is_local_address}
use gnome_usage.Packet.{
  packet_new_inverted, packet_get_hashstring, hash_key, source_string, destination_string,
}
use gnome_usage.Packet.Direction.{get_hashstring-inverted}
use gnome_usage.Connection.Packets.{
  packet_list_new, packet_list_add_packet, packet_list_sum_packets,
}
use gnome_usage.Connection.Window.{Event, add, sum, answers, true_answers, answers-true_answers}
use gnome_usage.Connection.{connection_new}
use gnome_usage.Connection.Totals.{add_all, is_outgoing, bytes, new-totals}
use gnome_usage.Tests.Samples.{ntop, at_second, packet_at, state}

abbrev history : List Event
history =
    add (packet_at 100 60)
    ∷ add (packet_at 100 40)
    ∷ add (packet_at 103 7)
    ∷ sum (at_second 104)
    ∷ sum (at_second 106)
    ∷ add (packet_at 107 1)
    ∷ sum (at_second 107)
    ∷ []

-- The code answers 107, 7 and 8.
answers_test : answers packet_list_new history ≡ 107 ∷ 7 ∷ 8 ∷ []
unfolding answers packet_list_new packet_list_add_packet packet_list_sum_packets
answers_test = refl

answers-true_answers_example : answers packet_list_new history ≡ true_answers [] history
answers-true_answers_example = answers-true_answers history (omega arith)

one_local :
    is_local_address state.local_addresses (source_string ntop (packet_at 100 60))
    ≡ not (is_local_address state.local_addresses (destination_string ntop (packet_at 100 60)))
unfolding is_local_address source_string destination_string print_nat text_beq
one_local = refl

get_hashstring-inverted_example :
    ((packet_get_hashstring ntop state.local_addresses (packet_new_inverted (packet_at 100 60))).1
      ≡ (packet_get_hashstring ntop state.local_addresses (packet_at 100 60)).1)
    × ((packet_get_hashstring ntop state.local_addresses (packet_at 100 60)).1 ≡ (
        if is_local_address state.local_addresses (source_string ntop (packet_at 100 60))
        then hash_key
            (source_string ntop (packet_at 100 60))
            8080
            (destination_string ntop (packet_at 100 60))
            80
        else hash_key
            (destination_string ntop (packet_at 100 60))
            80
            (source_string ntop (packet_at 100 60))
            8080))
get_hashstring-inverted_example =
    get_hashstring-inverted ntop state.local_addresses (packet_at 100 60) refl refl one_local

new-totals_example :
    let c =
      add_all ntop state.local_addresses
        (connection_new ntop state.local_addresses (packet_at 100 60)).1
        (packet_at 101 40 ∷ []) in
    let out = is_outgoing ntop state.local_addresses in
    (c.total_sent % 2 ^ 32
      ≡ bytes ntop state.local_addresses out (packet_at 100 60 ∷ packet_at 101 40 ∷ []) % 2 ^ 32)
    × (c.total_received % 2 ^ 32
        ≡ bytes ntop state.local_addresses
            (λ q. not (out q))
            (packet_at 100 60 ∷ packet_at 101 40 ∷ [])
          % 2 ^ 32)
new-totals_example =
    new-totals ntop state.local_addresses (packet_at 100 60) (packet_at 101 40 ∷ [])
