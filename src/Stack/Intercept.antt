-- ===== src/Stack/Intercept.antt =====
-- Which packets the dispatcher of internal/stack/intercept_endpoint.go takes from the packet library's
-- stack. A packet has the slices of its two headers, which are empty as long as it is not parsed, and
-- the bytes that follow. The library's methods that read a header are arguments.
use mutiauk.Base.{
  ℕ, ◌+◌, ◌*◌, Bool, true, false, not, ◌&&◌, ◌||◌, Option, none, some, Bytes, Text, bytes, length,
  take, drop, get_or, ltb, leb, ◌==◌, if◌then◌else◌,
}
use mutiauk.Stack.Headers.{
  ipv4_minimum_size, ipv6_minimum_size, udp_minimum_size, icmpv4_minimum_size,
  icmpv6_echo_minimum_size, udp_protocol_number, icmpv4_protocol_number, icmpv6_protocol_number,
}

pub record PacketBuffer : Type 0 where
  pub network_header : Bytes
  pub transport_header : Bytes
  pub contents : Bytes

pub record Readers : Type 0 where
  pub ipv4_protocol : Bytes → ℕ
  pub ipv4_header_length : Bytes → ℕ
  pub ipv4_more : Bytes → Bool
  pub ipv4_fragment_offset : Bytes → ℕ
  pub ipv4_source : Bytes → Bytes
  pub ipv4_destination : Bytes → Bytes
  pub ipv6_next_header : Bytes → ℕ
  pub ipv6_source : Bytes → Bytes
  pub ipv6_destination : Bytes → Bytes
  pub udp_source_port : Bytes → ℕ
  pub udp_destination_port : Bytes → ℕ
  pub icmpv4_type : Bytes → ℕ
  pub icmpv4_ident : Bytes → ℕ
  pub icmpv4_sequence : Bytes → ℕ
  pub icmpv6_type : Bytes → ℕ
  pub icmpv6_min : ℕ

pub data NetworkProtocol : Type 0 where
  ipv4 ipv6 other : NetworkProtocol

-- HandleUDPPacket and HandleICMPPacket.
pub data Call : Type 0 where
  udp_call : (src dst : Bytes) (src_port dst_port : ℕ) (payload : Bytes) → Call
  icmp_call : (src dst : Bytes) (id seq : ℕ) (payload : Bytes) → Call

-- What becomes of a packet: it goes on to the stack, it is dropped as a fragment, it is taken, with a
-- call if there is a handler, or a slice is read out of range.
pub data Delivery : Type 0 where
  passed : Delivery
  dropped : (protocol : Text) (src dst : Bytes) → Delivery
  taken : Option Call → Delivery
  panicked : Delivery

-- A call of a handler that may be nil.
abbrev pub call_if : Bool → Call → Delivery
call_if true c = taken (some c)
call_if false c = taken none

abbrev pub icmpv4_echo : ℕ
icmpv4_echo = 8

abbrev pub icmpv6_echo_request : ℕ
icmpv6_echo_request = 128

-- The 16-bit word at a place.
abbrev pub word_at : ℕ → Bytes → ℕ
word_at i bs = get_or bs i 0 * 256 + get_or bs (i + 1) 0

module _ (r : Readers) (has_udp has_icmp : Bool) where
  unfoldable pub is_fragmented_ipv4 : Bytes → Bool
  is_fragmented_ipv4 hdr = r.ipv4_more hdr || not (r.ipv4_fragment_offset hdr == 0)

  unfoldable pub take_udp : Bytes → Bytes → Bytes → Bytes → Delivery
  take_udp src dst udp payload =
      call_if has_udp
        (udp_call src dst (r.udp_source_port udp) (r.udp_destination_port udp) payload)

  unfoldable pub take_echo4 : Bytes → Bytes → Bytes → Bytes → Delivery
  take_echo4 src dst icmp payload =
      if r.icmpv4_type icmp == icmpv4_echo
      then call_if has_icmp
          (icmp_call src dst (r.icmpv4_ident icmp) (r.icmpv4_sequence icmp) payload)
      else passed

  -- The words at 4 and 6 of the message are read whatever its length is: out of range in a message
  -- below 8 bytes, which the callers pass on only if the library's least size is below 8.
  unfoldable pub take_echo6 : Bytes → Bytes → Bytes → Bytes → Delivery
  take_echo6 src dst icmp payload =
      if r.icmpv6_type icmp == icmpv6_echo_request
      then (if ltb (length icmp) 8
          then panicked
          else call_if has_icmp (icmp_call src dst (word_at 4 icmp) (word_at 6 icmp) payload))
      else passed

  -- The header is not parsed yet.
  unfoldable pub deliver_raw4 : Bytes → Delivery
  unfolding is_fragmented_ipv4 take_udp take_echo4
  deliver_raw4 pkt =
      let probe = take (ipv4_minimum_size + udp_minimum_size) pkt in
      let proto = r.ipv4_protocol probe in
      let hdr_len = r.ipv4_header_length pkt in
      let src = r.ipv4_source pkt in
      let dst = r.ipv4_destination pkt in
      if ltb (length probe) ipv4_minimum_size
      then passed
      else (if not (proto == udp_protocol_number) && not (proto == icmpv4_protocol_number)
          then passed
          else (if is_fragmented_ipv4 probe
              then dropped (if proto == icmpv4_protocol_number then bytes "icmp" else bytes "udp")
                  (r.ipv4_source probe) (r.ipv4_destination probe)
              else (if proto == udp_protocol_number && leb (hdr_len + udp_minimum_size) (length pkt)
                  then take_udp src dst (drop hdr_len pkt) (drop (hdr_len + udp_minimum_size) pkt)
                  else (if proto == icmpv4_protocol_number
                        && leb (hdr_len + icmpv4_minimum_size) (length pkt)
                      then take_echo4 src dst (drop hdr_len pkt)
                          (drop (hdr_len + icmpv4_minimum_size) pkt)
                      else passed))))

  unfoldable pub deliver_parsed4 : PacketBuffer → Delivery
  unfolding is_fragmented_ipv4 take_udp take_echo4
  deliver_parsed4 pkt =
      let hdr = pkt.network_header in
      let proto = r.ipv4_protocol hdr in
      let src = r.ipv4_source hdr in
      let dst = r.ipv4_destination hdr in
      if proto == udp_protocol_number
      then (if is_fragmented_ipv4 hdr
          then dropped (bytes "udp") src dst
          else (if ltb (length pkt.transport_header) udp_minimum_size
              then passed
              else take_udp src dst pkt.transport_header pkt.contents))
      else (if proto == icmpv4_protocol_number
          then (if is_fragmented_ipv4 hdr
              then dropped (bytes "icmp") src dst
              else (if ltb (length pkt.transport_header) icmpv4_minimum_size
                  then passed
                  else take_echo4 src dst pkt.transport_header pkt.contents))
          else passed)

  unfoldable pub deliver_raw6 : Bytes → Delivery
  unfolding take_udp take_echo6
  deliver_raw6 pkt =
      let probe = take (ipv6_minimum_size + udp_minimum_size) pkt in
      let proto = r.ipv6_next_header probe in
      let src = r.ipv6_source pkt in
      let dst = r.ipv6_destination pkt in
      let segment = drop ipv6_minimum_size pkt in
      if ltb (length probe) ipv6_minimum_size
      then passed
      else (if not (proto == udp_protocol_number) && not (proto == icmpv6_protocol_number)
          then passed
          else (if proto == udp_protocol_number
                && leb (ipv6_minimum_size + udp_minimum_size) (length pkt)
              then take_udp src dst segment (drop (ipv6_minimum_size + udp_minimum_size) pkt)
              else (if proto == icmpv6_protocol_number
                    && leb (ipv6_minimum_size + r.icmpv6_min) (length pkt)
                  then take_echo6 src dst segment
                      (drop (ipv6_minimum_size + icmpv6_echo_minimum_size) pkt)
                  else passed)))

  unfoldable pub deliver_parsed6 : PacketBuffer → Delivery
  unfolding take_udp take_echo6
  deliver_parsed6 pkt =
      let hdr = pkt.network_header in
      let proto = r.ipv6_next_header hdr in
      let src = r.ipv6_source hdr in
      let dst = r.ipv6_destination hdr in
      if proto == udp_protocol_number
      then (if ltb (length pkt.transport_header) udp_minimum_size
          then passed
          else take_udp src dst pkt.transport_header pkt.contents)
      else (if proto == icmpv6_protocol_number
          then (if ltb (length pkt.transport_header) r.icmpv6_min
              then passed
              else take_echo6 src dst pkt.transport_header pkt.contents)
          else passed)

  -- DeliverNetworkPacket
  unfoldable pub deliver_network_packet : NetworkProtocol → PacketBuffer → Delivery
  unfolding deliver_raw4 deliver_parsed4 deliver_raw6 deliver_parsed6
  deliver_network_packet other pkt = passed
  deliver_network_packet ipv4 pkt =
      if ltb (length pkt.network_header) ipv4_minimum_size
      then deliver_raw4 pkt.contents
      else deliver_parsed4 pkt
  deliver_network_packet ipv6 pkt =
      if ltb (length pkt.network_header) ipv6_minimum_size
      then deliver_raw6 pkt.contents
      else deliver_parsed6 pkt
