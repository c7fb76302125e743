-- ===== src/Sniffer/Frame.antt =====
-- Packets as Ethernet, IPv4, TCP and UDP lay them out, told without src/sniffer.c.
use knockd.Prelude.{ℕ, ◌+◌, ◌*◌, ◌/◌, ◌%◌, ◌≤◌, ◌≡◌, ◌≢◌, ◌⊎◌, List, [], ◌∷◌, ◌++◌, length}
use knockd.Sniffer.{arphrd_ether, arphrd_loopback, ipproto_tcp, ipproto_udp}

-- The link-layer header that an interface of some type hands over.
pub data IsLink : ℕ → List ℕ → Type 0 where
  ethernet :
      (hatype : ℕ) (macs : List ℕ)
      → (hatype ≡ arphrd_ether) ⊎ (hatype ≡ arphrd_loopback)
      → length macs ≡ 12
      → IsLink hatype (macs ++ 8 ∷ 0 ∷ [])
  tunnel : (hatype : ℕ) → hatype ≢ arphrd_ether → hatype ≢ arphrd_loopback → IsLink hatype []

-- An IPv4 header with some words of options, the first fragment: the fragment offset is 0.
pub record Ip : Type 0 where
  pub words : ℕ
  pub tos : ℕ
  pub len1 : ℕ
  pub len2 : ℕ
  pub id1 : ℕ
  pub id2 : ℕ
  pub flags : ℕ
  pub ttl : ℕ
  pub sum1 : ℕ
  pub sum2 : ℕ
  pub saddr1 : ℕ
  pub saddr2 : ℕ
  pub saddr3 : ℕ
  pub saddr4 : ℕ
  -- The destination and the options.
  pub others : List ℕ

abbrev pub IpFits : Ip → Type 0
IpFits h = (h.words ≤ 10) × (length h.others ≡ 4 + 4 * h.words)

abbrev pub ip_bytes : Ip → ℕ → List ℕ
ip_bytes h protocol =
    (69 + h.words)
    ∷ h.tos
    ∷ h.len1
    ∷ h.len2
    ∷ h.id1
    ∷ h.id2
    ∷ (32 * h.flags)
    ∷ 0
    ∷ h.ttl
    ∷ protocol
    ∷ h.sum1
    ∷ h.sum2
    ∷ h.saddr1
    ∷ h.saddr2
    ∷ h.saddr3
    ∷ h.saddr4
    ∷ h.others

abbrev pub ip_address : Ip → ℕ
ip_address h = h.saddr1 + 256 * h.saddr2 + 65536 * h.saddr3 + 16777216 * h.saddr4

-- A TCP segment that opens a connection (whatever its other flags are), and a UDP datagram, to a
-- port.
pub data IsProbe (port : ℕ) : ℕ → List ℕ → Type 0 where
  tcp_syn :
      (s1 s2 d1 d2 flags : ℕ) (numbers tail : List ℕ)
      → d1 * 256 + d2 ≡ port
      → flags / 2 % 2 ≡ 1
      → flags / 16 % 2 ≡ 0
      → length numbers ≡ 9
      → 6 ≤ length tail
      → IsProbe port ipproto_tcp (s1 ∷ s2 ∷ d1 ∷ d2 ∷ (numbers ++ flags ∷ tail))
  udp :
      (s1 s2 d1 d2 : ℕ) (tail : List ℕ)
      → d1 * 256 + d2 ≡ port
      → 4 ≤ length tail
      → IsProbe port ipproto_udp (s1 ∷ s2 ∷ d1 ∷ d2 ∷ tail)

-- A frame that carries a probe.
abbrev pub frame : List ℕ → Ip → ℕ → List ℕ → List ℕ
frame link h protocol segment = link ++ (ip_bytes h protocol ++ segment)
