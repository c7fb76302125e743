-- ===== src/Sniffer/Decode.antt =====
-- src/sniffer.c on well-formed packets.
use knockd.Prelude.{
  ℕ, zero, suc, ◌+◌, ◌*◌, ◌/◌, ◌%◌, ◌≤◌, ◌<◌, ◌≡◌, ◌≢◌, refl, sym, ap, ◌∙◌, ◌⊎◌, true, ◌||◌, List,
  [], ◌∷◌, ◌++◌, length, get_or, All, length-append, ltb, ◌==◌, if◌then◌else◌, arith,
}
use mathlib.Core.List.{append_assoc}
use knockd.Settings.{Settings}
use knockd.Sniffer.Reads.{accept, byte_at, half_at}
use knockd.Sniffer.{
  pkt_buf_size, arphrd_ether, arphrd_loopback, packet_outgoing, SockaddrLl, Received, nothing_yet,
  failure, packet, sniffer_ok, is_knock_port, check_version, find_ip_offset, tcp_port, udp_port,
  l4_port, parse_ip, parse_packet, conclude, next_knock,
}
use knockd.Sniffer.Bounds.{IsKnockPort}
use knockd.Sniffer.Frame.{
  IsLink, ethernet, tunnel, Ip, IpFits, ip_bytes, ip_address, IsProbe, tcp_syn, udp, frame,
}
use knockd.Sniffer.Behind.{
  and_then_is, guard_is, if_is, else_is, byte_behind, half_behind, word_behind,
}

is_knock_port-knock :
    (ps : List ℕ) (i port : ℕ) → i < length ps → get_or ps i 0 ≡ port → is_knock_port ps port ≡ true
unfolding is_knock_port
is_knock_port-knock [] i port h e = absurd (omega arith)
is_knock_port-knock (p ∷ ps) zero port h e = ground arith
is_knock_port-knock (p ∷ ps) (suc i) port h e =
    let r = is_knock_port-knock ps i port (omega arith) e in ground arith

tcp_port_syn :
    (xs : List ℕ) (len s1 s2 d1 d2 flags : ℕ) (numbers tail : List ℕ)
    → len ≡ length (xs ++ s1 ∷ s2 ∷ d1 ∷ d2 ∷ (numbers ++ flags ∷ tail))
    → flags / 2 % 2 ≡ 1
    → flags / 16 % 2 ≡ 0
    → length numbers ≡ 9
    → 6 ≤ length tail
    → tcp_port (xs ++ s1 ∷ s2 ∷ d1 ∷ d2 ∷ (numbers ++ flags ∷ tail)) len (length xs)
      ≡ accept (d1 * 256 + d2)
unfolding tcp_port byte_at
tcp_port_syn xs len s1 s2 d1 d2 flags numbers tail l syn ack n t =
    let segment = s1 ∷ s2 ∷ d1 ∷ d2 ∷ (numbers ++ flags ∷ tail) in
    let lx = length-append xs segment in
    let ln = length-append numbers (flags ∷ tail) in
    let long : length xs + 20 ≤ len = omega arith in
    let flag = byte_behind numbers (flags ∷ tail) 0 9 (accept flags) (omega arith) refl in
    guard_is (ground arith) (
      and_then_is flags _
        (byte_behind xs segment 13 (length xs + 13) (accept flags) refl (
          byte_behind (s1 ∷ s2 ∷ d1 ∷ d2 ∷ []) (numbers ++ flags ∷ tail) 9 13 (accept flags) refl
            flag))
        (guard_is (ground arith) (half_behind xs segment 2 (length xs + 2) d1 d2 refl refl refl)))

udp_port_datagram :
    (xs : List ℕ) (len s1 s2 d1 d2 : ℕ) (tail : List ℕ)
    → len ≡ length (xs ++ s1 ∷ s2 ∷ d1 ∷ d2 ∷ tail)
    → 4 ≤ length tail
    → udp_port (xs ++ s1 ∷ s2 ∷ d1 ∷ d2 ∷ tail) len (length xs) ≡ accept (d1 * 256 + d2)
unfolding udp_port byte_at
udp_port_datagram xs len s1 s2 d1 d2 tail l t =
    let segment = s1 ∷ s2 ∷ d1 ∷ d2 ∷ tail in
    let lx = length-append xs segment in
    let long : length xs + 8 ≤ len = omega arith in
    guard_is (ground arith) (half_behind xs segment 2 (length xs + 2) d1 d2 refl refl refl)

-- Behind any headers, the port of a probe is read.
l4_port-probe :
    (xs : List ℕ) (len port protocol : ℕ) (segment : List ℕ)
    → IsProbe port protocol segment
    → len ≡ length (xs ++ segment)
    → l4_port (xs ++ segment) len (length xs) protocol ≡ accept port
unfolding l4_port
l4_port-probe xs len port _ _ (tcp_syn s1 s2 d1 d2 flags numbers tail e syn ack n t) l =
    tcp_port_syn xs len s1 s2 d1 d2 flags numbers tail l syn ack n t ∙ ap accept e
l4_port-probe xs len port _ _ (udp s1 s2 d1 d2 tail e t) l =
    udp_port_datagram xs len s1 s2 d1 d2 tail l t ∙ ap accept e

l4_port-behind :
    (link header : List ℕ) (len port protocol : ℕ) (segment : List ℕ)
    → IsProbe port protocol segment
    → len ≡ length (link ++ (header ++ segment))
    → l4_port (link ++ (header ++ segment)) len (length link + length header) protocol ≡ accept port
l4_port-behind link header len port protocol segment probe l =
    let q = append_assoc link header segment in
    rw (sym q, sym (length-append link header))
      (l4_port-probe (link ++ header) len port protocol segment probe (rw q l))

parse_ip-frame :
    (s : Settings) (link : List ℕ) (len port protocol : ℕ) (h : Ip) (segment : List ℕ)
    → IpFits h
    → IsProbe port protocol segment
    → IsKnockPort s port
    → len ≡ length (link ++ (ip_bytes h protocol ++ segment))
    → parse_ip s (link ++ (ip_bytes h protocol ++ segment)) len (length link)
      ≡ accept (record { src_ip = ip_address h; dst_port = port })
unfolding parse_ip byte_at
parse_ip-frame s link len port protocol h segment fits probe known l =
    let ip = ip_bytes h protocol ++ segment in
    let n = length link in
    let hdr : (69 + h.words) % 16 * 4 ≡ length (ip_bytes h protocol) =
      omega (arith, fits.0, fits.1) in
    let l1 = length-append link ip in
    let l2 = length-append (ip_bytes h protocol) segment in
    and_then_is (69 + h.words) _
      (byte_behind link ip 0 n (accept (69 + h.words)) (omega arith) refl)
      (guard_is (ground arith) (
        and_then_is (32 * h.flags * 256 + 0) _
          (half_behind link ip 6 (n + 6) (32 * h.flags) 0 refl refl refl)
          (guard_is (ground arith) (
            and_then_is protocol _ (byte_behind link ip 9 (n + 9) (accept protocol) refl refl) (
              and_then_is port _
                (rw hdr
                  (l4_port-behind link (ip_bytes h protocol) len port protocol segment probe l))
                (guard_is
                  (rw (is_knock_port-knock s.knock_sequence known.0 port known.1 known.2) refl)
                  (and_then_is (ip_address h) _
                    (word_behind link ip 12 (n + 12) h.saddr1 h.saddr2 h.saddr3 h.saddr4 refl refl
                      refl refl refl)
                    refl)))))))

check_version-ip :
    (link rest : List ℕ) (len protocol : ℕ) (h : Ip)
    → IpFits h
    → len ≡ length (link ++ (ip_bytes h protocol ++ rest))
    → check_version (link ++ (ip_bytes h protocol ++ rest)) len (length link) ≡ accept (length link)
unfolding check_version byte_at
check_version-ip link rest len protocol h fits l =
    let ip = ip_bytes h protocol ++ rest in
    let l1 = length-append link ip in
    let l2 = length-append (ip_bytes h protocol) rest in
    guard_is (ground arith) (
      and_then_is (69 + h.words) _
        (byte_behind link ip 0 (length link) (accept (69 + h.words)) (omega arith) refl)
        (guard_is (ground arith) refl))

-- The offset is the length of the link-layer header.
find_ip_offset-link :
    (link rest : List ℕ) (hatype len protocol : ℕ) (h : Ip)
    → IsLink hatype link
    → IpFits h
    → len ≡ length (link ++ (ip_bytes h protocol ++ rest))
    → find_ip_offset (link ++ (ip_bytes h protocol ++ rest)) len hatype ≡ accept (length link)
unfolding find_ip_offset byte_at
find_ip_offset-link _ rest hatype len protocol h (ethernet _ macs kind m) fits l =
    let ip = ip_bytes h protocol ++ rest in
    let link = macs ++ 8 ∷ 0 ∷ [] in
    let fourteen : length link ≡ 14 = omega (arith, length-append macs (8 ∷ 0 ∷ [])) in
    let long = length-append link ip in
    let q = append_assoc macs (8 ∷ 0 ∷ []) ip in
    let proto : half_at (link ++ ip) 12 ≡ accept 2048 =
      rw q (half_behind macs (8 ∷ 0 ∷ ip) 0 12 8 0 (omega arith) refl refl) in
    if_is {b = hatype == arphrd_ether || hatype == arphrd_loopback} _ (ground arith) (
      guard_is {b = ltb len 14} (ground arith) (
        and_then_is 2048 _ proto
          (guard_is refl (rw (sym fourteen) (check_version-ip link rest len protocol h fits l)))))
find_ip_offset-link _ rest hatype len protocol h (tunnel _ other₁ other₂) fits l =
    else_is {b = hatype == arphrd_ether || hatype == arphrd_loopback} _ (ground arith)
      (check_version-ip [] rest len protocol h fits l)

-- A packet of the noise that the host sends itself.
abbrev pub IsOutgoing : Received → Type 0
IsOutgoing nothing_yet = ⊥
IsOutgoing failure = ⊥
IsOutgoing (packet pkt_len buf sll) = sll.sll_pkttype ≡ packet_outgoing

next_knock-noise :
    (s : Settings) (ifindex : ℕ) (noise rs : List Received)
    → All IsOutgoing noise
    → next_knock s ifindex (noise ++ rs) ≡ next_knock s ifindex rs
unfolding next_knock parse_packet conclude
next_knock-noise s ifindex [] rs h = refl
next_knock-noise s ifindex (nothing_yet ∷ noise) rs h = absurd h.0
next_knock-noise s ifindex (failure ∷ noise) rs h = absurd h.0
next_knock-noise s ifindex (packet pkt_len buf sll ∷ noise) rs h =
    rw h.0 (next_knock-noise s ifindex noise rs h.1)

-- Where an incoming frame, after any packets that the host itself sends, comes on the configured
-- interface, if one is, carries the link header of that interface's type, an IPv4 header with up
-- to ten words of options and fragment offset 0, and a TCP segment with SYN and without ACK or a
-- UDP datagram to a port of the sequence, and fits the buffer, then `sniffer_next_knock` reports
-- the source address of its IP header and that port.
pub knock_reported :
    (s : Settings) (ifindex port protocol : ℕ) (noise rs : List Received) (link segment : List ℕ)
    (h : Ip) (sll : SockaddrLl)
    → All IsOutgoing noise
    → sll.sll_pkttype ≢ packet_outgoing
    → (ifindex ≡ 0) ⊎ (sll.sll_ifindex ≡ ifindex)
    → IsLink sll.sll_hatype link
    → IpFits h
    → IsProbe port protocol segment
    → IsKnockPort s port
    → length (frame link h protocol segment) ≤ pkt_buf_size
    → next_knock s ifindex (
        noise
        ++ packet (length (frame link h protocol segment)) (frame link h protocol segment) sll ∷ rs)
      ≡ sniffer_ok (record { src_ip = ip_address h; dst_port = port })
unfolding next_knock parse_packet conclude
knock_reported s ifindex port protocol noise rs link segment h sll out inc on lk fits probe known
      small =
    let f = frame link h protocol segment in
    let clamped : (if ltb pkt_buf_size (length f) then pkt_buf_size else length f) ≡ length f =
      ground arith in
    let offset =
      find_ip_offset-link link segment sll.sll_hatype (length f) protocol h lk fits refl in
    let parsed : parse_packet s ifindex (length f) f sll
        ≡ accept (record { src_ip = ip_address h; dst_port = port }) =
      guard_is (ground arith) (
        guard_is (ground arith) (
          and_then_is (length link) _ (rw clamped offset) (
            rw clamped
              (parse_ip-frame s link (length f) port protocol h segment fits probe known refl)))) in
    next_knock-noise s ifindex noise (packet (length f) f sll ∷ rs) out ∙ simp parsed
