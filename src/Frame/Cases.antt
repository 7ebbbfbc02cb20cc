-- ===== src/Frame/Cases.antt =====
-- The parsers of na-pcap.c push one packet or do nothing, and the ports and addresses that they push
-- fit their C types.
use gnome_usage.Base.{ℕ, ◌+◌, ◌^◌, ◌<◌, arith, ◌||◌, ◌==◌, inl, inr, Bool-cases}
use gnome_usage.Packet.{In6Addr}
use gnome_usage.Frame.{
  Memory, PktHdr, IpAddress, ip4, ip6, advance, ntohs, u32, in6, dlt_null, dlt_en10mb, dlt_ppp,
  dlt_raw, dlt_linux_sll, switch, parse_transport, parse_tcp, parse_udp, parse_ip, parse_ip6,
  parse_ethernet, parse_ppp, parse_linux_cooked, pcap_dispatch_cb,
}

-- The four words of `struct in6_addr`.
abbrev pub IsIn6Addr : In6Addr → Type 0
IsIn6Addr a = (a.w0 < 2 ^ 32) × (a.w1 < 2 ^ 32) × (a.w2 < 2 ^ 32) × (a.w3 < 2 ^ 32)

-- What is assumed of a captured packet, and what then holds of the addresses and ports behind a
-- header of either version, wherever it starts.
pub record Reads (M : Memory → Type 0) (Good : IpAddress → ℕ → ℕ → Type 0) : Type 0 where
  pub further : (n : ℕ) (packet : Memory) → M packet → M (advance n packet)
  pub behind4 :
      (packet : Memory)
      → M packet
      → Good (ip4 (u32 packet 12) (u32 packet 16)) (ntohs packet 20) (ntohs packet 22)
  pub behind6 :
      (packet : Memory)
      → M packet
      → Good (ip6 (in6 packet 8) (in6 packet 24)) (ntohs packet 40) (ntohs packet 42)

module _ {R : Type 0} (push_packet : PktHdr → IpAddress → ℕ → ℕ → R) (unchanged : R)
    (P : R → Type 0) (M : Memory → Type 0) (Good : IpAddress → ℕ → ℕ → Type 0)
    (reads : Reads M Good) (header : PktHdr)
    (pushed : (a : IpAddress) (s d : ℕ) → Good a s d → P (push_packet header a s d))
    (nothing : P unchanged) where
  switch-cases :
      (v a b : ℕ) (x y d : R) → P x → P y → P d → P (switch push_packet unchanged v a x b y d)
  unfolding switch
  switch-cases v a b x y d p q r = elim (Bool-cases (v == a)) [
    | inl e ↦ rw e p
    | inr e ↦ rw e (elim (Bool-cases (v == b)) [ inl f ↦ rw f q | inr f ↦ rw f r ])
  ]

  transport-cases :
      (protocol : ℕ) (payload : Memory) (address : IpAddress)
      → Good address (ntohs payload 0) (ntohs payload 2)
      → P (parse_transport push_packet unchanged protocol header payload address)
  unfolding parse_transport parse_tcp parse_udp
  transport-cases protocol payload address good =
      switch-cases _ _ _ _ _ _ (pushed _ _ _ good) (pushed _ _ _ good) nothing

  ip-cases : (packet : Memory) → M packet → P (parse_ip push_packet unchanged header packet)
  unfolding parse_ip
  ip-cases packet m = transport-cases _ _ _ (reads.behind4 packet m)

  ip6-cases : (packet : Memory) → M packet → P (parse_ip6 push_packet unchanged header packet)
  unfolding parse_ip6
  ip6-cases packet m = transport-cases _ _ _ (reads.behind6 packet m)

  link-cases :
      (v a b n : ℕ) (packet : Memory)
      → M packet
      → P (
          switch push_packet unchanged v a
            (parse_ip push_packet unchanged header (advance n packet))
            b
            (parse_ip6 push_packet unchanged header (advance n packet))
            unchanged)
  link-cases v a b n packet m =
      let m' = reads.further n packet m in
      switch-cases _ _ _ _ _ _ (ip-cases (advance n packet) m') (ip6-cases (advance n packet) m')
        nothing

  pub dispatch-Good :
      (linktype : ℕ) (packet : Memory)
      → M packet
      → P (pcap_dispatch_cb push_packet unchanged linktype header packet)
  unfolding pcap_dispatch_cb parse_ethernet parse_ppp parse_linux_cooked
  dispatch-Good linktype packet m = elim (Bool-cases (linktype == dlt_en10mb)) [
    | inl e ↦ rw e (link-cases _ _ _ 14 packet m)
    | inr e ↦ rw e (elim (Bool-cases (linktype == dlt_ppp)) [
      | inl f ↦ rw f (link-cases _ _ _ 4 packet m)
      | inr f ↦ rw f (elim (Bool-cases (linktype == dlt_linux_sll)) [
        | inl g ↦ rw g (link-cases _ _ _ 16 packet m)
        | inr g ↦ rw g (elim (Bool-cases (linktype == dlt_raw || linktype == dlt_null)) [
          | inl h ↦ rw h (ip-cases packet m)
          | inr h ↦ rw h nothing
        ])
      ])
    ])
  ]

-- The same where nothing is assumed of the packet.
pub dispatch-cases :
    {R : Type 0} (push_packet : PktHdr → IpAddress → ℕ → ℕ → R) (unchanged : R) (P : R → Type 0)
    (header : PktHdr) (pushed : (a : IpAddress) (s d : ℕ) → P (push_packet header a s d))
    (nothing : P unchanged) (linktype : ℕ) (packet : Memory)
    → P (pcap_dispatch_cb push_packet unchanged linktype header packet)
dispatch-cases push_packet unchanged P header pushed nothing linktype packet =
    dispatch-Good push_packet unchanged P (λ m. Unit {0}) (λ a s d. Unit {0})
      (record { further = λ n p u. tt; behind4 = λ p u. tt; behind6 = λ p u. tt }) header
      (λ a s d u. pushed a s d) nothing linktype packet tt

-- A packet of bytes.
abbrev pub IsBytes : Memory → Type 0
IsBytes packet = (i : ℕ) → packet i < 256

-- The types of `struct in_addr` and `struct in6_addr`.
abbrev pub Fits : IpAddress → Type 0
Fits (ip4 src dst) = (src < 2 ^ 32) × (dst < 2 ^ 32)
Fits (ip6 src dst) = IsIn6Addr src × IsIn6Addr dst

u32_small : (packet : Memory) → IsBytes packet → (i : ℕ) → u32 packet i < 2 ^ 32
u32_small packet b i = omega (arith, b i, b (i + 1), b (i + 2), b (i + 3))

in6-IsIn6Addr : (packet : Memory) → IsBytes packet → (i : ℕ) → IsIn6Addr (in6 packet i)
in6-IsIn6Addr packet b i = (
  u32_small packet b i,
  u32_small packet b (i + 4),
  u32_small packet b (i + 8),
  u32_small packet b (i + 12),
)

ntohs_small : (packet : Memory) → IsBytes packet → (i : ℕ) → ntohs packet i < 2 ^ 16
ntohs_small packet b i = omega (arith, b i, b (i + 1))

pub IsBytes-Reads : Reads IsBytes (λ a s d. Fits a × (s < 2 ^ 16) × (d < 2 ^ 16))
IsBytes-Reads = record {
  further = λ n packet b i. b (n + i);
  behind4 = λ packet b. (
    (u32_small packet b 12, u32_small packet b 16),
    ntohs_small packet b 20,
    ntohs_small packet b 22,
  );
  behind6 = λ packet b. (
    (in6-IsIn6Addr packet b 8, in6-IsIn6Addr packet b 24),
    ntohs_small packet b 40,
    ntohs_small packet b 42,
  );
}
