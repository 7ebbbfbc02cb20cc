-- ===== src/Frame/Locality.antt =====
-- What the parsers of na-pcap.c can do, and how far they read.
use gnome_usage.Base.{ℕ, ◌<◌, ◌≡◌, arith, if◌then◌else◌, ltb, refl, sym, ap, ◌∙◌}
use mathlib.Core.Path.{fun_ext}
use gnome_usage.Frame.{
  Memory, PktHdr, IpAddress, switch, parse_transport, parse_tcp, parse_udp, parse_ip, parse_ip6,
  parse_ethernet, parse_ppp, parse_linux_cooked, pcap_dispatch_cb,
}

-- A packet cut off behind its first 60 bytes.
abbrev first_60 : Memory → Memory
first_60 packet i = if ltb i 60 then packet i else 0

first_60-eq : (p q : Memory) → ((i : ℕ) → i < 60 → p i ≡ q i) → first_60 p ≡ first_60 q
first_60-eq p q h = fun_ext λ i. ground (arith, h i)

module _ {R : Type 0} (push_packet : PktHdr → IpAddress → ℕ → ℕ → R) (unchanged : R) where
  dispatch-first_60 :
      (linktype : ℕ) (header : PktHdr) (p : Memory)
      → pcap_dispatch_cb push_packet unchanged linktype header p
        ≡ pcap_dispatch_cb push_packet unchanged linktype header (first_60 p)
  unfolding pcap_dispatch_cb parse_ethernet parse_ppp parse_linux_cooked switch parse_ip parse_ip6
      parse_transport parse_tcp parse_udp
  dispatch-first_60 linktype header p = refl

  -- Two packets that agree in their first 60 bytes have the same effect, on every link type.
  pub dispatch_local :
      (linktype : ℕ) (header : PktHdr) (p q : Memory)
      → ((i : ℕ) → i < 60 → p i ≡ q i)
      → pcap_dispatch_cb push_packet unchanged linktype header p
        ≡ pcap_dispatch_cb push_packet unchanged linktype header q
  dispatch_local linktype header p q h =
      dispatch-first_60 linktype header p
      ∙ ap (pcap_dispatch_cb push_packet unchanged linktype header) (first_60-eq p q h)
      ∙ sym (dispatch-first_60 linktype header q)
