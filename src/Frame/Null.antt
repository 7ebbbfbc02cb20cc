-- ===== src/Frame/Null.antt =====
-- IPv4 frames on a null or loopback link, and what na-pcap.c makes of them.
use gnome_usage.Base.{
  ℕ, ◌+◌, ◌*◌, ◌/◌, ◌%◌, ◌<◌, ◌^◌, ◌≡◌, ◌==◌, ◌||◌, ap, ◌∙◌, ◌∷◌, ◌++◌, arith, if◌then◌else◌,
}
use gnome_usage.Frame.{
  Memory, PktHdr, IpAddress, ip4, ntohs, dlt_null, switch, parse_transport, parse_tcp, parse_udp,
  parse_ip, pcap_dispatch_cb,
}
use gnome_usage.Frame.Bytes.{lay, be16, ip_header, le32_lem}

-- The four bytes of the address family, an IPv4 header without options, and the ports.
abbrev pub null_frame : (protocol src dst s_port d_port : ℕ) → (m n rest : Memory) → Memory
null_frame protocol src dst s_port d_port m n rest =
    lay (m 0 ∷ m 1 ∷ m 2 ∷ m 3 ∷ (ip_header protocol src dst n ++ (be16 s_port ++ be16 d_port)))
      rest

module _ {R : Type 0} (push_packet : PktHdr → IpAddress → ℕ → ℕ → R) (unchanged : R) where
  transport-if :
      (protocol : ℕ) (header : PktHdr) (payload : Memory) (address : IpAddress)
      → parse_transport push_packet unchanged protocol header payload address ≡ (
          if protocol == 6 || protocol == 17
          then push_packet header address (ntohs payload 0) (ntohs payload 2)
          else unchanged)
  unfolding parse_transport switch parse_tcp parse_udp
  transport-if protocol header payload address = ground arith

  -- On a null link an IPv4 packet without options is read four bytes too early. It is taken for a TCP
  -- or UDP packet where the low byte of its identification (byte 5 of its header) is 6 or 17,
  -- whatever its protocol is, and dropped otherwise; its source address is then the destination, the
  -- word with its time to live, protocol and checksum the source, and its destination address the two
  -- ports. The ports that were put into the frame have no effect.
  pub dispatch-null :
      (protocol src dst s_port d_port : ℕ) (header : PktHdr) (m n rest : Memory)
      → src < 2 ^ 32
      → pcap_dispatch_cb push_packet unchanged dlt_null header
          (null_frame protocol src dst s_port d_port m n rest)
        ≡ (if n 5 == 6 || n 5 == 17
            then push_packet header
                (ip4 (n 8 + protocol * 256 + n 10 * 65536 + n 11 * 16777216) src)
                (dst % 256 * 256 + dst / 256 % 256)
                (dst / 65536 % 256 * 256 + dst / 16777216)
            else unchanged)
  unfolding pcap_dispatch_cb parse_ip
  dispatch-null protocol src dst s d header m n rest hs =
      transport-if (n 5) header _ _
      ∙ ap
          (λ a.
            if n 5 == 6 || n 5 == 17
            then push_packet header (ip4 (n 8 + protocol * 256 + n 10 * 65536 + n 11 * 16777216) a)
                (dst % 256 * 256 + dst / 256 % 256) (dst / 65536 % 256 * 256 + dst / 16777216)
            else unchanged)
          (le32_lem src hs)
