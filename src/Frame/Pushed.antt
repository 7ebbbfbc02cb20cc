-- ===== src/Frame/Pushed.antt =====
-- The packet that na-pcap.c makes of a captured frame, as a value.
use gnome_usage.Base.{ℕ, ◌≡◌, arith}
use gnome_usage.Frame.{
  Memory, PktHdr, IpAddress, switch, parse_transport, parse_tcp, parse_udp, parse_ip, parse_ip6,
  parse_ethernet, parse_ppp, parse_linux_cooked, pcap_dispatch_cb,
}

module _ {R S : Type 0} (f : R → S) (push_packet : PktHdr → IpAddress → ℕ → ℕ → R)
    (unchanged : R) where
  -- What is done with the result can as well be done in the callback.
  pub dispatch-ap :
      (linktype : ℕ) (header : PktHdr) (packet : Memory)
      → f (pcap_dispatch_cb push_packet unchanged linktype header packet)
        ≡ pcap_dispatch_cb (λ h a s d. f (push_packet h a s d)) (f unchanged) linktype header packet
  unfolding pcap_dispatch_cb parse_ethernet parse_ppp parse_linux_cooked switch parse_ip parse_ip6
      parse_transport parse_tcp parse_udp
  dispatch-ap linktype header packet = ground arith
