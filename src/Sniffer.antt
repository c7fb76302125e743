-- ===== src/Sniffer.antt =====
-- The packet capture: src/sniffer.c and include/sniffer.h. A buffer is the list of the bytes that
-- recvfrom wrote. The structs of the network headers are read byte by byte, at the offsets of
-- <net/ethernet.h>, <netinet/ip.h>, <netinet/tcp.h> and <netinet/udp.h>; a read outside the bytes
-- that recvfrom wrote is a result of its own, `outside`.
pub mod Reads
pub mod Bounds
pub mod Frame
pub mod Behind
pub mod Decode
pub mod Socket
mod Tests
use knockd.Prelude.{
  ℕ, ◌+◌, ◌*◌, ◌/◌, ◌%◌, ◌^◌, Bool, false, not, ◌&&◌, ◌||◌, List, [], ◌∷◌, ltb, ◌==◌, if◌then◌else◌,
}
use knockd.Settings.{Settings}
use knockd.Sniffer.Reads.{Reading, outside, reject, accept, byte_at, half_at, word_at, and_then}

abbrev pub pkt_buf_size : ℕ
pkt_buf_size = 65536

abbrev pub arphrd_ether : ℕ
arphrd_ether = 1

abbrev pub arphrd_loopback : ℕ
arphrd_loopback = 772

abbrev pub eth_p_ip : ℕ
eth_p_ip = 2048

abbrev pub packet_outgoing : ℕ
packet_outgoing = 4

abbrev pub ipproto_tcp : ℕ
ipproto_tcp = 6

abbrev pub ipproto_udp : ℕ
ipproto_udp = 17

-- The fields of struct sockaddr_ll that the code reads.
pub record SockaddrLl : Type 0 where
  pub sll_pkttype : ℕ
  pub sll_ifindex : ℕ
  pub sll_hatype : ℕ

-- What recvfrom comes back with: no packet by the timeout or a signal, another failure, or a packet.
pub data Received : Type 0 where
  nothing_yet : Received
  failure : Received
  packet : (pkt_len : ℕ) (buffer : List ℕ) (sll : SockaddrLl) → Received

-- Which of the two headers a knock came with has no effect on the result.
pub record Knock : Type 0 where
  pub src_ip : ℕ
  pub dst_port : ℕ

-- SNIFFER_OK with the two outputs, SNIFFER_AGAIN, SNIFFER_ERROR; `blocked` where recvfrom has not
-- come back, `out_of_bounds` where the code reads outside the packet.
pub data Next : Type 0 where
  sniffer_ok : Knock → Next
  sniffer_again : Next
  sniffer_error : Next
  blocked : Next
  out_of_bounds : Next

unfoldable pub is_knock_port : List ℕ → ℕ → Bool
is_knock_port [] port = false
is_knock_port (p ∷ ps) port = p == port || is_knock_port ps port

-- The check of the version and the header length, at the offset chosen.
unfoldable pub check_version : List ℕ → ℕ → ℕ → Reading ℕ
check_version buf len ip_off =
    if ltb len (ip_off + 20)
    then reject
    else and_then (byte_at buf ip_off)
        (λ b. if not (b / 16 == 4) || ltb (b % 16) 5 then reject else accept ip_off)

unfoldable pub find_ip_offset : List ℕ → ℕ → ℕ → Reading ℕ
find_ip_offset buf len hatype =
    if hatype == arphrd_ether || hatype == arphrd_loopback
    then (if ltb len 14
        then reject
        else and_then (half_at buf 12)
            (λ proto. if not (proto == eth_p_ip) then reject else check_version buf len 14))
    else check_version buf len 0

-- The destination port of a TCP SYN: the flag byte is at 13, SYN is its bit 1 and ACK its bit 4.
unfoldable pub tcp_port : List ℕ → ℕ → ℕ → Reading ℕ
tcp_port buf len l4 =
    if ltb len (l4 + 20)
    then reject
    else and_then (byte_at buf (l4 + 13)) (λ flags.
      if not (flags / 2 % 2 == 1) || not (flags / 16 % 2 == 0)
      then reject
      else half_at buf (l4 + 2))

unfoldable pub udp_port : List ℕ → ℕ → ℕ → Reading ℕ
udp_port buf len l4 = if ltb len (l4 + 8) then reject else half_at buf (l4 + 2)

-- The branch on the protocol of the IP header.
unfoldable pub l4_port : List ℕ → ℕ → ℕ → ℕ → Reading ℕ
l4_port buf len l4 protocol =
    if protocol == ipproto_tcp
    then tcp_port buf len l4
    else if protocol == ipproto_udp
    then udp_port buf len l4
    else reject

-- From the IP header on, at its offset.
unfoldable pub parse_ip : Settings → List ℕ → ℕ → ℕ → Reading Knock
parse_ip s buf len ip_off = and_then (byte_at buf ip_off) (λ b.
    let ip_hdr_len = b % 16 * 4 in
    if ltb len (ip_off + ip_hdr_len)
    then reject
    else and_then (half_at buf (ip_off + 6)) (λ frag_off.
      if not (frag_off % 2 ^ 13 == 0)
      then reject
      else and_then (byte_at buf (ip_off + 9)) (λ protocol.
        and_then (l4_port buf len (ip_off + ip_hdr_len) protocol) (λ dport.
          if not (is_knock_port s.knock_sequence dport)
          then reject
          else and_then (word_at buf (ip_off + 12))
              (λ saddr. accept (record { src_ip = saddr; dst_port = dport }))))))

-- One turn of the loop on a packet: `reject` is `continue`.
unfoldable pub parse_packet : Settings → ℕ → ℕ → List ℕ → SockaddrLl → Reading Knock
parse_packet s ifindex pkt_len buf sll =
    let len = if ltb pkt_buf_size pkt_len then pkt_buf_size else pkt_len in
    if sll.sll_pkttype == packet_outgoing
    then reject
    else if not (ifindex == 0) && not (sll.sll_ifindex == ifindex)
    then reject
    else and_then (find_ip_offset buf len sll.sll_hatype) (parse_ip s buf len)

-- What the loop does with the verdict on a packet; `rest` is its next turns.
unfoldable pub conclude : Reading Knock → Next → Next
conclude outside rest = out_of_bounds
conclude reject rest = rest
conclude (accept k) rest = sniffer_ok k

-- `sniffer_next_knock`, on what recvfrom comes back with call by call.
unfoldable pub next_knock : Settings → ℕ → List Received → Next
next_knock s ifindex [] = blocked
next_knock s ifindex (nothing_yet ∷ rs) = sniffer_again
next_knock s ifindex (failure ∷ rs) = sniffer_error
next_knock s ifindex (packet pkt_len buf sll ∷ rs) =
    conclude (parse_packet s ifindex pkt_len buf sll) (next_knock s ifindex rs)
