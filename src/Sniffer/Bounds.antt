-- ===== src/Sniffer/Bounds.antt =====
-- Every read of src/sniffer.c stays inside the packet, and what it reports is a knock.
use knockd.Prelude.{
  ℕ, suc, ◌+◌, ◌*◌, ◌/◌, ◌%◌, ◌^◌, ◌≤◌, ◌<◌, ◌≡◌, ◌≢◌, refl, ◌⊎◌, inl, inr, true, not, ◌&&◌, ◌||◌,
  List, [], ◌∷◌, length, get_or, All, ltb, ◌==◌, if◌then◌else◌, Bool-cases, arith,
}
use knockd.Settings.{Settings, knock_port, knock_seq_len}
use knockd.Sniffer.Reads.{
  Reading, accept, Yields, rejects, accepts, Yields-and_then, Yields-if, Yields-guard, Any,
  Yields-byte_at, Yields-half_at, Yields-word_at,
}
use knockd.Sniffer.{
  pkt_buf_size, arphrd_ether, arphrd_loopback, eth_p_ip, packet_outgoing, ipproto_tcp, ipproto_udp,
  SockaddrLl, Received, nothing_yet, failure, packet, Knock, Next, sniffer_ok, sniffer_again,
  sniffer_error, blocked, out_of_bounds, is_knock_port, check_version, find_ip_offset, tcp_port,
  udp_port, l4_port, parse_ip, parse_packet, conclude, next_knock,
}

-- A port is one of the sequence.
abbrev pub IsKnockPort : Settings → ℕ → Type 0
IsKnockPort s port = (i : ℕ) × (i < knock_seq_len s) × (knock_port s i ≡ port)

is_knock_port-true :
    (ps : List ℕ) (port : ℕ)
    → is_knock_port ps port ≡ true
    → (i : ℕ) × (i < length ps) × (get_or ps i 0 ≡ port)
unfolding is_knock_port
is_knock_port-true [] port h = absurd (ground arith)
is_knock_port-true (p ∷ ps) port h = elim (Bool-cases (p == port)) [
  | inl e ↦ (0, omega arith, ground arith)
  | inr e ↦ let r = is_knock_port-true ps port (ground arith) in (suc r.0, omega (arith, r.1), r.2)
]

-- The header fits behind the offset.
abbrev HeaderFits : ℕ → ℕ → Type 0
HeaderFits len ip_off = ip_off + 20 ≤ len

check_version_lem :
    (buf : List ℕ) (len ip_off : ℕ)
    → len ≤ length buf
    → Yields (HeaderFits len) (check_version buf len ip_off)
unfolding check_version
check_version_lem buf len ip_off h = Yields-guard (ltb len (ip_off + 20)) (λ e.
    Yields-and_then (Yields-byte_at buf ip_off (ground arith))
      (λ b p. Yields-guard (not (b / 16 == 4) || ltb (b % 16) 5) (λ f. accepts (ground arith))))

find_ip_offset_lem :
    (buf : List ℕ) (len hatype : ℕ)
    → len ≤ length buf
    → Yields (HeaderFits len) (find_ip_offset buf len hatype)
unfolding find_ip_offset
find_ip_offset_lem buf len hatype h =
    Yields-if (hatype == arphrd_ether || hatype == arphrd_loopback)
      (λ e. Yields-guard (ltb len 14) (λ f.
        Yields-and_then (Yields-half_at buf 12 (ground arith)) (λ proto p.
          Yields-guard (not (proto == eth_p_ip)) (λ g. check_version_lem buf len 14 h))))
      (λ e. check_version_lem buf len 0 h)

tcp_port_lem : (buf : List ℕ) (len l4 : ℕ) → len ≤ length buf → Yields Any (tcp_port buf len l4)
unfolding tcp_port
tcp_port_lem buf len l4 h = Yields-guard (ltb len (l4 + 20)) (λ e.
    Yields-and_then (Yields-byte_at buf (l4 + 13) (ground arith)) (λ flags p.
      Yields-guard (not (flags / 2 % 2 == 1) || not (flags / 16 % 2 == 0))
        (λ f. Yields-half_at buf (l4 + 2) (ground arith))))

udp_port_lem : (buf : List ℕ) (len l4 : ℕ) → len ≤ length buf → Yields Any (udp_port buf len l4)
unfolding udp_port
udp_port_lem buf len l4 h =
    Yields-guard (ltb len (l4 + 8)) (λ e. Yields-half_at buf (l4 + 2) (ground arith))

l4_port_lem :
    (buf : List ℕ) (len l4 protocol : ℕ)
    → len ≤ length buf
    → Yields Any (l4_port buf len l4 protocol)
unfolding l4_port
l4_port_lem buf len l4 protocol h =
    Yields-if (protocol == ipproto_tcp) (λ e. tcp_port_lem buf len l4 h)
      (λ e. Yields-if (protocol == ipproto_udp) (λ f. udp_port_lem buf len l4 h) (λ f. rejects))

abbrev ToKnockPort : Settings → Knock → Type 0
ToKnockPort s k = IsKnockPort s k.dst_port

parse_ip_lem :
    (s : Settings) (buf : List ℕ) (len ip_off : ℕ)
    → len ≤ length buf
    → HeaderFits len ip_off
    → Yields (ToKnockPort s) (parse_ip s buf len ip_off)
unfolding parse_ip
parse_ip_lem s buf len ip_off h fits =
    Yields-and_then (Yields-byte_at buf ip_off (omega arith)) (λ b p.
      Yields-guard (ltb len (ip_off + b % 16 * 4)) (λ e.
        Yields-and_then (Yields-half_at buf (ip_off + 6) (omega arith)) (λ frag q.
          Yields-guard (not (frag % 2 ^ 13 == 0)) (λ f.
            Yields-and_then (Yields-byte_at buf (ip_off + 9) (omega arith)) (λ protocol r.
              Yields-and_then (l4_port_lem buf len (ip_off + b % 16 * 4) protocol h) (λ dport t.
                Yields-guard (not (is_knock_port s.knock_sequence dport)) (λ g.
                  Yields-and_then (Yields-word_at buf (ip_off + 12) (omega arith)) (λ saddr u.
                    accepts (is_knock_port-true s.knock_sequence dport (ground arith))))))))))

-- recvfrom writes the packet, or as much of it as the buffer holds.
abbrev pub Held : ℕ → List ℕ → Type 0
Held pkt_len buf = (if ltb pkt_buf_size pkt_len then pkt_buf_size else pkt_len) ≤ length buf

-- What a reported packet is: not one that this host sends, on the interface that is configured, if
-- one is, and to a port of the sequence.
abbrev pub Knocks : Settings → ℕ → SockaddrLl → Knock → Type 0
Knocks s ifindex sll k =
    (sll.sll_pkttype ≢ packet_outgoing)
    × ((ifindex ≡ 0) ⊎ (sll.sll_ifindex ≡ ifindex))
    × IsKnockPort s k.dst_port

weaken {ℓ} :
    {A : Type ℓ} {P Q : A → Type 0} {r : Reading A}
    → Yields P r
    → ((a : A) → P a → Q a)
    → Yields Q r
weaken rejects h = rejects
weaken (accepts p) h = accepts (h _ p)

-- Whatever bytes a packet has, if recvfrom wrote as many as it says, up to the size of the buffer,
-- then parsing it reads none outside of what it wrote; and a packet that is reported is not one
-- that this host sends, came on the configured interface, if one is, and goes to a port of the
-- sequence.
parse_packet_lem :
    (s : Settings) (ifindex pkt_len : ℕ) (buf : List ℕ) (sll : SockaddrLl)
    → Held pkt_len buf
    → Yields (Knocks s ifindex sll) (parse_packet s ifindex pkt_len buf sll)
unfolding parse_packet
parse_packet_lem s ifindex pkt_len buf sll h =
    let len = if ltb pkt_buf_size pkt_len then pkt_buf_size else pkt_len in
    Yields-guard (sll.sll_pkttype == packet_outgoing) (λ e.
      Yields-guard (not (ifindex == 0) && not (sll.sll_ifindex == ifindex)) (λ f.
        Yields-and_then (find_ip_offset_lem buf len sll.sll_hatype h) (λ off fits.
          weaken (parse_ip_lem s buf len off h fits) (λ k p. (ground arith, ground arith, p)))))

abbrev pub IsHeld : Received → Type 0
IsHeld nothing_yet = Unit
IsHeld failure = Unit
IsHeld (packet pkt_len buf sll) = Held pkt_len buf

-- One of the packets is what the report is about.
abbrev pub IsAmong : Settings → ℕ → Knock → List Received → Type 0
IsAmong s ifindex k [] = ⊥
IsAmong s ifindex k (nothing_yet ∷ rs) = ⊥
IsAmong s ifindex k (failure ∷ rs) = ⊥
IsAmong s ifindex k (packet pkt_len buf sll ∷ rs) =
    (Knocks s ifindex sll k × (parse_packet s ifindex pkt_len buf sll ≡ accept k))
    ⊎ IsAmong s ifindex k rs

-- Nothing was read out of bounds, and what is reported is that of a packet to a knock port.
abbrev pub IsSafe : Settings → ℕ → List Received → Next → Type 0
IsSafe s ifindex rs (sniffer_ok k) = IsAmong s ifindex k rs
IsSafe s ifindex rs sniffer_again = Unit
IsSafe s ifindex rs sniffer_error = Unit
IsSafe s ifindex rs blocked = Unit
IsSafe s ifindex rs out_of_bounds = ⊥

IsSafe-behind :
    (s : Settings) (ifindex pkt_len : ℕ) (buf : List ℕ) (sll : SockaddrLl) (rs : List Received)
    (n : Next)
    → IsSafe s ifindex rs n
    → IsSafe s ifindex (packet pkt_len buf sll ∷ rs) n
IsSafe-behind s ifindex pkt_len buf sll rs (sniffer_ok k) h = inr h
IsSafe-behind s ifindex pkt_len buf sll rs sniffer_again h = tt
IsSafe-behind s ifindex pkt_len buf sll rs sniffer_error h = tt
IsSafe-behind s ifindex pkt_len buf sll rs blocked h = tt
IsSafe-behind s ifindex pkt_len buf sll rs out_of_bounds h = h

conclude-IsSafe :
    (s : Settings) (ifindex pkt_len : ℕ) (buf : List ℕ) (sll : SockaddrLl) (rs : List Received)
    (r : Reading Knock) (rest : Next)
    → parse_packet s ifindex pkt_len buf sll ≡ r
    → Yields (Knocks s ifindex sll) r
    → IsSafe s ifindex rs rest
    → IsSafe s ifindex (packet pkt_len buf sll ∷ rs) (conclude r rest)
unfolding conclude
conclude-IsSafe s ifindex pkt_len buf sll rs _ rest e rejects h =
    IsSafe-behind s ifindex pkt_len buf sll rs rest h
conclude-IsSafe s ifindex pkt_len buf sll rs _ rest e (accepts p) h = inl (p, e)

-- Whatever packets arrive, and whatever bytes they have, if recvfrom wrote as many as it says, up
-- to the size of the buffer, then `sniffer_next_knock` reads nothing outside of what it wrote; and
-- what it reports it parsed from a packet that this host does not send, that came on the configured
-- interface, if one is, and that goes to a port of the sequence.
pub next_knock-IsSafe :
    (s : Settings) (ifindex : ℕ) (rs : List Received)
    → All IsHeld rs
    → IsSafe s ifindex rs (next_knock s ifindex rs)
unfolding next_knock
next_knock-IsSafe s ifindex [] h = tt
next_knock-IsSafe s ifindex (nothing_yet ∷ rs) h = tt
next_knock-IsSafe s ifindex (failure ∷ rs) h = tt
next_knock-IsSafe s ifindex (packet pkt_len buf sll ∷ rs) h =
    conclude-IsSafe s ifindex pkt_len buf sll rs (parse_packet s ifindex pkt_len buf sll)
      (next_knock s ifindex rs) refl (parse_packet_lem s ifindex pkt_len buf sll h.0)
      (next_knock-IsSafe s ifindex rs h.1)
