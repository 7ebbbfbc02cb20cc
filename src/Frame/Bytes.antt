-- ===== src/Frame/Bytes.antt =====
-- Frames of bytes, and that na-pcap.c reads back what was put into them.
use gnome_usage.Base.{
  ℕ, zero, suc, ◌+◌, ◌*◌, ◌/◌, ◌%◌, ◌<◌, ◌^◌, ◌≡◌, refl, ◌∙◌, List, [], ◌∷◌, ◌++◌, arith, ◌⊎◌, inl,
  inr,
}
use gnome_usage.Frame.{
  Memory, PktHdr, IpAddress, ip4, u32, ntohs, tcp_protocol_number, udp_protocol_number, dlt_en10mb,
  dlt_ppp, dlt_raw, dlt_linux_sll, switch, parse_transport, parse_tcp, parse_udp, parse_ip,
  parse_ethernet, parse_ppp, parse_linux_cooked, pcap_dispatch_cb,
}

-- Bytes laid down in front of what memory holds.
abbrev pub lay : List ℕ → Memory → Memory
lay [] rest i = rest i
lay (b ∷ bs) rest zero = b
lay (b ∷ bs) rest (suc i) = lay bs rest i

-- A port in network order, and a word as it lies in memory.
abbrev pub be16 : ℕ → List ℕ
be16 n = n / 256 ∷ n % 256 ∷ []

abbrev pub le32 : ℕ → List ℕ
le32 n = n % 256 ∷ n / 256 % 256 ∷ n / 65536 % 256 ∷ n / 16777216 ∷ []

-- Link layers that the program knows, and what it tells them by. DLT_NULL, on which
-- the program reads no frame back, is in Frame/Null.
pub data Link : Type 0 where
  ethernet ppp linux_cooked raw : Link

abbrev pub linktype : Link → ℕ
linktype ethernet = dlt_en10mb
linktype ppp = dlt_ppp
linktype linux_cooked = dlt_linux_sll
linktype raw = dlt_raw

-- A link header with the protocol field for IPv4; all other bytes are those of `m`.
abbrev pub link_header : Link → Memory → List ℕ
link_header ethernet m =
    m 0 ∷ m 1 ∷ m 2 ∷ m 3 ∷ m 4 ∷ m 5 ∷ m 6 ∷ m 7 ∷ m 8 ∷ m 9 ∷ m 10 ∷ m 11 ∷ 0x08 ∷ 0x00 ∷ []
link_header ppp m = m 0 ∷ m 1 ∷ 0x00 ∷ 0x21 ∷ []
link_header linux_cooked m =
    m 0
    ∷ m 1
    ∷ m 2
    ∷ m 3
    ∷ m 4
    ∷ m 5
    ∷ m 6
    ∷ m 7
    ∷ m 8
    ∷ m 9
    ∷ m 10
    ∷ m 11
    ∷ m 12
    ∷ m 13
    ∷ 0x08
    ∷ 0x00
    ∷ []
link_header raw m = []

-- An IPv4 header of 20 bytes, without options; the other bytes are those of `m`.
abbrev pub ip_header : (protocol src dst : ℕ) → Memory → List ℕ
ip_header protocol src dst m =
    m 0
    ∷ m 1
    ∷ m 2
    ∷ m 3
    ∷ m 4
    ∷ m 5
    ∷ m 6
    ∷ m 7
    ∷ m 8
    ∷ protocol
    ∷ m 10
    ∷ m 11
    ∷ (le32 src ++ le32 dst)

abbrev pub frame : Link → (protocol src dst s_port d_port : ℕ) → (m n rest : Memory) → Memory
frame l protocol src dst s_port d_port m n rest =
    lay (link_header l m ++ (ip_header protocol src dst n ++ (be16 s_port ++ be16 d_port))) rest

abbrev pub IsTransport : ℕ → Type 0
IsTransport protocol = (protocol ≡ tcp_protocol_number) ⊎ (protocol ≡ udp_protocol_number)

pub le32_lem : (n : ℕ) → n < 2 ^ 32 → u32 (lay (le32 n) (λ i. 0)) 0 ≡ n
le32_lem n h = omega arith

pub be16_lem : (n : ℕ) → n < 2 ^ 16 → ntohs (lay (be16 n) (λ i. 0)) 0 ≡ n
be16_lem n h = omega arith

module _ {R : Type 0} (push_packet : PktHdr → IpAddress → ℕ → ℕ → R) (unchanged : R) where
  pub transport-push :
      (protocol : ℕ) (header : PktHdr) (payload : Memory) (address : IpAddress)
      → IsTransport protocol
      → parse_transport push_packet unchanged protocol header payload address
        ≡ push_packet header address (ntohs payload 0) (ntohs payload 2)
  unfolding parse_transport switch parse_tcp parse_udp
  transport-push protocol header payload address (inl e) = rw e refl
  transport-push protocol header payload address (inr e) = rw e refl

  -- On Ethernet, PPP, Linux cooked and raw links, a TCP or UDP packet in an IPv4 header without
  -- options is pushed with the addresses and the ports that were put into the frame, whatever its
  -- other bytes are.
  pub dispatch-frame :
      (l : Link) (protocol src dst s_port d_port : ℕ) (header : PktHdr) (m n rest : Memory)
      → IsTransport protocol
      → src < 2 ^ 32
      → dst < 2 ^ 32
      → s_port < 2 ^ 16
      → d_port < 2 ^ 16
      → pcap_dispatch_cb push_packet unchanged
          (linktype l)
          header
          (frame l protocol src dst s_port d_port m n rest)
        ≡ push_packet header (ip4 src dst) s_port d_port
  unfolding pcap_dispatch_cb parse_ethernet parse_ppp parse_linux_cooked switch parse_ip
  dispatch-frame ethernet protocol src dst s d header m n rest t hs hd ks kd =
      transport-push protocol header _ _ t
      ∙ cc (le32_lem src hs, le32_lem dst hd, be16_lem s ks, be16_lem d kd)
  dispatch-frame ppp protocol src dst s d header m n rest t hs hd ks kd =
      transport-push protocol header _ _ t
      ∙ cc (le32_lem src hs, le32_lem dst hd, be16_lem s ks, be16_lem d kd)
  dispatch-frame linux_cooked protocol src dst s d header m n rest t hs hd ks kd =
      transport-push protocol header _ _ t
      ∙ cc (le32_lem src hs, le32_lem dst hd, be16_lem s ks, be16_lem d kd)
  dispatch-frame raw protocol src dst s d header m n rest t hs hd ks kd =
      transport-push protocol header _ _ t
      ∙ cc (le32_lem src hs, le32_lem dst hd, be16_lem s ks, be16_lem d kd)

  -- The four bytes behind the first 20 of an IPv4 packet of TCP or UDP are taken for the ports,
  -- whatever its other bytes are, the header length included: where the header has options, the
  -- first four bytes of the options become the ports.
  pub parse_ip_options :
      (protocol src dst a b c d : ℕ) (options : List ℕ) (header : PktHdr) (n rest : Memory)
      → IsTransport protocol
      → src < 2 ^ 32
      → dst < 2 ^ 32
      → parse_ip push_packet unchanged header
          (lay (ip_header protocol src dst n ++ (a ∷ b ∷ c ∷ d ∷ options)) rest)
        ≡ push_packet header (ip4 src dst) (a * 256 + b) (c * 256 + d)
  unfolding parse_ip
  parse_ip_options protocol src dst a b c d options header n rest t hs hd =
      transport-push protocol header _ _ t ∙ cc (le32_lem src hs, le32_lem dst hd)
