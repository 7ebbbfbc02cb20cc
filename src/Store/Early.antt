-- ===== src/Store/Early.antt =====
-- The range of the times of na-connection.c, as a property that every connection keeps.
use gnome_usage.Base.{ℕ, ◌+◌, ◌^◌, ◌<◌, arith, inl, inr, Bool-cases}
use gnome_usage.Packet.{InetNtop, packet_is_outgoing}
use gnome_usage.Connection.{connection_new, connection_add_packet, connection_sum_packets}
use gnome_usage.Store.Every.{IsKept}
use gnome_usage.Process.{process_timeout}

-- A time to which PROCESSTIMEOUT can be added within an `int`.
abbrev pub IsEarly : ℕ → Type 0
IsEarly second = second + process_timeout < 2 ^ 31

module _ (ntop : InetNtop) where
  pub IsEarly-IsKept : IsKept ntop (λ p. IsEarly p.time.tv_sec) (λ c. IsEarly c.last_packet_time)
  unfolding connection_sum_packets connection_add_packet connection_new
  IsEarly-IsKept = record {
    made = λ locals p h. elim (Bool-cases (packet_is_outgoing ntop locals p).1) [
      | inl out ↦ rw out (omega arith)
      | inr into ↦ rw into (omega arith)
    ];
    grown = λ locals c p h k. elim (Bool-cases (packet_is_outgoing ntop locals p).1) [
      | inl out ↦ rw out (omega arith)
      | inr into ↦ rw into (omega arith)
    ];
    keyed = λ locals c h. h;
    summed = λ t c h. h;
  }
