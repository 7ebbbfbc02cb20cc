-- ===== src/Frame.antt =====
-- The parsers of network-analyzer/na-pcap.c, from the link layer down to the ports. The captured
-- packet is the memory behind its pointer: the code never looks at `caplen`. Numbers are read as on
-- a little-endian machine. What is done with the ports, `push_packet`, is a parameter here, and
-- `unchanged` stands for a return with nothing done.
pub mod Bytes
pub mod Locality
pub mod Null
pub mod Cases
pub mod Pushed
pub mod Bytes6
use gnome_usage.Base.{ℕ, ◌+◌, ◌*◌, ◌||◌, ◌==◌, if◌then◌else◌}
use gnome_usage.Packet.{In6Addr, Timeval}

-- The bytes from a pointer on.
abbrev pub Memory : Type 0
Memory = ℕ → ℕ

-- `packet + n`
abbrev pub advance : ℕ → Memory → Memory
advance n packet i = packet (n + i)

-- `ntohs` of the two bytes at an offset, and a two-byte and a four-byte field as they stand.
abbrev pub ntohs : Memory → ℕ → ℕ
ntohs packet i = packet i * 256 + packet (i + 1)

abbrev pub u16 : Memory → ℕ → ℕ
u16 packet i = packet i + packet (i + 1) * 256

abbrev pub u32 : Memory → ℕ → ℕ
u32 packet i = packet i + packet (i + 1) * 256 + packet (i + 2) * 65536 + packet (i + 3) * 16777216

abbrev pub in6 : Memory → ℕ → In6Addr
in6 packet i = record {
  w0 = u32 packet i;
  w1 = u32 packet (i + 4);
  w2 = u32 packet (i + 8);
  w3 = u32 packet (i + 12);
}

-- `struct pcap_pkthdr`
pub record PktHdr : Type 0 where
  pub ts : Timeval
  pub caplen : ℕ
  pub len : ℕ

-- `IPAddress`: the family with the two addresses of its union.
pub data IpAddress : Type 0 where
  ip4 : (src dst : ℕ) → IpAddress
  ip6 : (src dst : In6Addr) → IpAddress

-- `TCP_PROTOCOL_NUMBER` and `UDP_PROTOCOL_NUMBER`
abbrev pub tcp_protocol_number : ℕ
tcp_protocol_number = 6

abbrev pub udp_protocol_number : ℕ
udp_protocol_number = 17

-- `DLT_NULL`, `DLT_EN10MB`, `DLT_PPP`, `DLT_RAW` and `DLT_LINUX_SLL`
abbrev pub dlt_null : ℕ
dlt_null = 0

abbrev pub dlt_en10mb : ℕ
dlt_en10mb = 1

abbrev pub dlt_ppp : ℕ
dlt_ppp = 9

abbrev pub dlt_raw : ℕ
dlt_raw = 12

abbrev pub dlt_linux_sll : ℕ
dlt_linux_sll = 113

module _ {R : Type 0} (push_packet : PktHdr → IpAddress → ℕ → ℕ → R) (unchanged : R) where
  -- `switch (value)` with two cases and a default.
  unfoldable pub switch : (value first : ℕ) → R → (second : ℕ) → R → R → R
  switch value first x second y default =
      if value == first then x else if value == second then y else default

  unfoldable pub parse_tcp : PktHdr → Memory → IpAddress → R
  parse_tcp header packet address = push_packet header address (ntohs packet 0) (ntohs packet 2)

  unfoldable pub parse_udp : PktHdr → Memory → IpAddress → R
  parse_udp header packet address = push_packet header address (ntohs packet 0) (ntohs packet 2)

  -- The switch on the protocol number, which `parse_ip` and `parse_ip6` share.
  unfoldable pub parse_transport : ℕ → PktHdr → Memory → IpAddress → R
  parse_transport protocol header payload address =
      switch protocol tcp_protocol_number (parse_tcp header payload address) udp_protocol_number
        (parse_udp header payload address) unchanged

  -- `sizeof (struct ip)` is 20: the header length field is not read.
  unfoldable pub parse_ip : PktHdr → Memory → R
  parse_ip header packet =
      let payload = advance 20 packet in
      let address = ip4 (u32 packet 12) (u32 packet 16) in
      parse_transport (packet 9) header payload address

  unfoldable pub parse_ip6 : PktHdr → Memory → R
  parse_ip6 header packet =
      let payload = advance 40 packet in
      let address = ip6 (in6 packet 8) (in6 packet 24) in
      parse_transport (packet 6) header payload address

  unfoldable pub parse_ethernet : PktHdr → Memory → R
  parse_ethernet header packet =
      let payload = advance 14 packet in
      switch (ntohs packet 12) 0x0800 (parse_ip header payload) 0x86dd (parse_ip6 header payload)
        unchanged

  -- `PPP_PROTOCOL` puts bytes 2 and 3 together.
  unfoldable pub parse_ppp : PktHdr → Memory → R
  parse_ppp header packet =
      let payload = advance 4 packet in
      switch (ntohs packet 2) 0x21 (parse_ip header payload) 0x57 (parse_ip6 header payload)
        unchanged

  -- `sizeof (struct sll_header)` is 16, and `sll_protocol` its last field.
  unfoldable pub parse_linux_cooked : PktHdr → Memory → R
  parse_linux_cooked header packet =
      let payload = advance 16 packet in
      switch (u16 packet 14) 0x0008 (parse_ip header payload) 0xDD86 (parse_ip6 header payload)
        unchanged

  unfoldable pub pcap_dispatch_cb : ℕ → PktHdr → Memory → R
  pcap_dispatch_cb linktype header packet =
      if linktype == dlt_en10mb
      then parse_ethernet header packet
      else if linktype == dlt_ppp
      then parse_ppp header packet
      else if linktype == dlt_linux_sll
      then parse_linux_cooked header packet
      else if linktype == dlt_raw || linktype == dlt_null
      then parse_ip header packet
      else unchanged
