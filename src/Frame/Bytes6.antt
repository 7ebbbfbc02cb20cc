-- ===== src/Frame/Bytes6.antt =====
-- IPv6 frames, and that na-pcap.c reads back what was put into them.
use gnome_usage.Base.{ℕ, ◌<◌, ◌^◌, ◌≡◌, ◌∙◌, List, [], ◌∷◌, ◌++◌}
use gnome_usage.Packet.{In6Addr}
use gnome_usage.Frame.{
  Memory, PktHdr, IpAddress, ip6, in6, switch, parse_ip6, parse_ethernet, parse_ppp,
  parse_linux_cooked, pcap_dispatch_cb, dlt_en10mb, dlt_ppp, dlt_linux_sll,
}
use gnome_usage.Frame.Bytes.{lay, be16, le32, IsTransport, le32_lem, be16_lem, transport-push}

-- The link layers that tell IPv6 from IPv4.
pub data Link6 : Type 0 where
  ethernet6 ppp6 linux_cooked6 : Link6

abbrev pub linktype6 : Link6 → ℕ
linktype6 ethernet6 = dlt_en10mb
linktype6 ppp6 = dlt_ppp
linktype6 linux_cooked6 = dlt_linux_sll

-- A link header with the protocol field for IPv6; all other bytes are those of `m`.
abbrev pub link_header6 : Link6 → Memory → List ℕ
link_header6 ethernet6 m =
    m 0 ∷ m 1 ∷ m 2 ∷ m 3 ∷ m 4 ∷ m 5 ∷ m 6 ∷ m 7 ∷ m 8 ∷ m 9 ∷ m 10 ∷ m 11 ∷ 0x86 ∷ 0xdd ∷ []
link_header6 ppp6 m = m 0 ∷ m 1 ∷ 0x00 ∷ 0x57 ∷ []
link_header6 linux_cooked6 m =
    m 0
    ∷ m 1
    ∷ m 2
    ∷ m 3
    ∷ m 4
    ∷ m 5
    ∷ m 6
    ∷ m 7
    ∷ m 8
    ∷ m 9
    ∷ m 10
    ∷ m 11
    ∷ m 12
    ∷ m 13
    ∷ 0x86
    ∷ 0xdd
    ∷ []

abbrev pub in6_bytes : In6Addr → List ℕ
in6_bytes a = le32 a.w0 ++ (le32 a.w1 ++ (le32 a.w2 ++ le32 a.w3))

-- An IPv6 header without extension headers; the other bytes are those of `m`.
abbrev pub ip6_header : ℕ → (src dst : In6Addr) → Memory → List ℕ
ip6_header protocol src dst m =
    m 0 ∷ m 1 ∷ m 2 ∷ m 3 ∷ m 4 ∷ m 5 ∷ protocol ∷ m 7 ∷ (in6_bytes src ++ in6_bytes dst)

abbrev pub frame6 :
    Link6 → ℕ → (src dst : In6Addr) → (s_port d_port : ℕ) → (m n rest : Memory) → Memory
frame6 l protocol src dst s_port d_port m n rest =
    lay (link_header6 l m ++ (ip6_header protocol src dst n ++ (be16 s_port ++ be16 d_port))) rest

-- Each word fits 32 bits.
abbrev pub IsIn6 : In6Addr → Type 0
IsIn6 a = (a.w0 < 2 ^ 32) × (a.w1 < 2 ^ 32) × (a.w2 < 2 ^ 32) × (a.w3 < 2 ^ 32)

in6_lem : (a : In6Addr) → IsIn6 a → in6 (lay (in6_bytes a) (λ i. 0)) 0 ≡ a
in6_lem a h = cc (le32_lem a.w0 h.0, le32_lem a.w1 h.1, le32_lem a.w2 h.2, le32_lem a.w3 h.3)

module _ {R : Type 0} (push_packet : PktHdr → IpAddress → ℕ → ℕ → R) (unchanged : R) where
  -- On Ethernet, PPP and Linux cooked sockets, a TCP or UDP packet in an IPv6 header without
  -- extension headers is pushed with the addresses and the ports that were put into the frame,
  -- whatever its other bytes are.
  pub dispatch-frame6 :
      (l : Link6) (protocol : ℕ) (src dst : In6Addr) (s_port d_port : ℕ) (header : PktHdr)
      (m n rest : Memory)
      → IsTransport protocol
      → IsIn6 src
      → IsIn6 dst
      → s_port < 2 ^ 16
      → d_port < 2 ^ 16
      → pcap_dispatch_cb push_packet unchanged
          (linktype6 l)
          header
          (frame6 l protocol src dst s_port d_port m n rest)
        ≡ push_packet header (ip6 src dst) s_port d_port
  unfolding pcap_dispatch_cb parse_ethernet parse_ppp parse_linux_cooked switch parse_ip6
  dispatch-frame6 ethernet6 protocol src dst s d header m n rest t hs hd ks kd =
      transport-push push_packet unchanged protocol header _ _ t
      ∙ cc (in6_lem src hs, in6_lem dst hd, be16_lem s ks, be16_lem d kd)
  dispatch-frame6 ppp6 protocol src dst s d header m n rest t hs hd ks kd =
      transport-push push_packet unchanged protocol header _ _ t
      ∙ cc (in6_lem src hs, in6_lem dst hd, be16_lem s ks, be16_lem d kd)
  dispatch-frame6 linux_cooked6 protocol src dst s d header m n rest t hs hd ks kd =
      transport-push push_packet unchanged protocol header _ _ t
      ∙ cc (in6_lem src hs, in6_lem dst hd, be16_lem s ks, be16_lem d kd)
