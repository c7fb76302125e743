-- ===== src/Sniffer/Tests.antt =====
-- Runs of the packet parser on frames, and the theorems at them.
use knockd.Prelude.{ℕ, ◌≡◌, refl, inl, inr, List, [], ◌∷◌, replicate, arith}
use knockd.Settings.{Settings}
use knockd.Sniffer.{
  SockaddrLl, Received, nothing_yet, packet, sniffer_ok, is_knock_port, check_version,
  find_ip_offset, tcp_port, udp_port, l4_port, parse_ip, parse_packet, conclude, next_knock,
}
use knockd.Sniffer.Reads.{reject, byte_at, half_at, word_at, and_then}
use knockd.Sniffer.Frame.{Ip, frame, ethernet, tcp_syn}
use knockd.Sniffer.Bounds.{IsSafe, next_knock-IsSafe}
use knockd.Sniffer.Decode.{knock_reported}

abbrev three_ports : Settings
three_ports = record {
  knock_sequence = 7000 ∷ 8000 ∷ 9000 ∷ [];
  protected_port = 22;
  access_timeout = 30;
  knock_window = 15;
  max_clients = 64;
}

-- From 10.0.0.5, with one word of options.
abbrev header : Ip
header = record {
  words = 1;
  tos = 0;
  len1 = 0;
  len2 = 44;
  id1 = 1;
  id2 = 2;
  flags = 2;
  ttl = 64;
  sum1 = 17;
  sum2 = 34;
  saddr1 = 10;
  saddr2 = 0;
  saddr3 = 0;
  saddr4 = 5;
  others = 192 ∷ 168 ∷ 0 ∷ 1 ∷ 1 ∷ 1 ∷ 1 ∷ 0 ∷ [];
}

-- To port 8000 = 31 * 256 + 64, the SYN flag set.
abbrev syn : List ℕ
syn = 200 ∷ 10 ∷ 31 ∷ 64 ∷ 0 ∷ 0 ∷ 0 ∷ 7 ∷ 0 ∷ 0 ∷ 0 ∷ 0 ∷ 80 ∷ 2 ∷ 255 ∷ 255 ∷ 1 ∷ 2 ∷ 0 ∷ 0 ∷ []

abbrev ethernet_header : List ℕ
ethernet_header = 1 ∷ 2 ∷ 3 ∷ 4 ∷ 5 ∷ 6 ∷ 7 ∷ 8 ∷ 9 ∷ 10 ∷ 11 ∷ 12 ∷ 8 ∷ 0 ∷ []

abbrev arrives : SockaddrLl
arrives = record { sll_pkttype = 0; sll_ifindex = 3; sll_hatype = 1 }

abbrev leaves : SockaddrLl
leaves = record { sll_pkttype = 4; sll_ifindex = 3; sll_hatype = 1 }

abbrev syn_frame : List ℕ
syn_frame = frame ethernet_header header 6 syn

abbrev traffic : List Received
traffic =
    packet 58 syn_frame leaves
    ∷ packet 40 (replicate 40 69) arrives
    ∷ packet 58 syn_frame arrives
    ∷ []

found :
    next_knock three_ports 3 traffic ≡ sniffer_ok (record { src_ip = 83886090; dst_port = 8000 })
unfolding next_knock conclude parse_packet parse_ip find_ip_offset check_version l4_port tcp_port
    udp_port is_knock_port and_then byte_at half_at word_at
found = refl

-- The same frame is passed over on another interface, and where the packet is a byte short.
passed_over : parse_packet three_ports 2 58 syn_frame arrives ≡ reject
unfolding parse_packet
passed_over = refl

cut_short : parse_packet three_ports 3 57 syn_frame arrives ≡ reject
unfolding parse_packet parse_ip find_ip_offset check_version l4_port tcp_port udp_port and_then
    byte_at half_at
cut_short = refl

next_knock-IsSafe_example : IsSafe three_ports 3 traffic (next_knock three_ports 3 traffic)
next_knock-IsSafe_example =
    next_knock-IsSafe three_ports 3 traffic (omega arith, (omega arith, (omega arith, tt)))

knock_reported_example :
    next_knock three_ports 3
      (packet 58 syn_frame leaves ∷ packet 58 syn_frame arrives ∷ nothing_yet ∷ [])
    ≡ sniffer_ok (record { src_ip = 83886090; dst_port = 8000 })
knock_reported_example =
    knock_reported three_ports 3 8000 6 (packet 58 syn_frame leaves ∷ []) (nothing_yet ∷ [])
      ethernet_header syn header arrives (refl, tt) (omega arith) (inr refl)
      (ethernet 1 (1 ∷ 2 ∷ 3 ∷ 4 ∷ 5 ∷ 6 ∷ 7 ∷ 8 ∷ 9 ∷ 10 ∷ 11 ∷ 12 ∷ []) (inl refl) refl)
      (omega arith, refl)
      (tcp_syn 200 10 31 64 2 (0 ∷ 0 ∷ 0 ∷ 7 ∷ 0 ∷ 0 ∷ 0 ∷ 0 ∷ 80 ∷ [])
        (255 ∷ 255 ∷ 1 ∷ 2 ∷ 0 ∷ 0 ∷ []) refl refl refl refl (omega arith))
      (1, omega arith, refl) (omega arith)
