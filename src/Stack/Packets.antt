-- ===== src/Stack/Packets.antt =====
-- The packets that internal/stack/intercept_endpoint.go builds. A slice `pkt[n:]` is a window into the
-- packet: what is written through it is written into the packet.
use mutiauk.Base.{
  ℕ, ◌+◌, ◌-◌, ◌/◌, Bool, not, Option, none, some, Bytes, [], ◌∷◌, ◌++◌, length, take, drop,
  replicate, ltb, if◌then◌else◌, is_some,
}
use mutiauk.Base.Words.{byte, uint16}
use mutiauk.Base.Ip.{to4, to16, or_nil}
use mutiauk.Stack.Checksum.{checksum, complement}
use mutiauk.Stack.Headers.{
  ipv4_minimum_size, ipv6_minimum_size, udp_minimum_size, icmpv4_minimum_size,
  icmpv6_echo_minimum_size, udp_protocol_number, icmpv4_protocol_number, icmpv6_protocol_number,
  Headers,
}

-- What a function does to the slice of a packet from a place on.
abbrev pub from : ℕ → (Bytes → Bytes) → Bytes → Bytes
from n f pkt = take n pkt ++ f (drop n pkt)

-- `copy(dst, src)`
abbrev pub overwrite : Bytes → Bytes → Bytes
overwrite [] src = []
overwrite (d ∷ dst) [] = d ∷ dst
overwrite (d ∷ dst) (s ∷ src) = s ∷ overwrite dst src

-- The four assignments of the identifier and the sequence number of an ICMPv6 echo.
abbrev pub ident_and_sequence : ℕ → ℕ → Bytes
ident_and_sequence id seq = byte (id / 256) ∷ byte id ∷ byte (seq / 256) ∷ byte seq ∷ []

unfoldable pub is_ipv6 : Bytes → Bool
unfolding to4
is_ipv6 ip = not (is_some (to4 ip))

abbrev pub max_error_packet : ℕ
max_error_packet = 1280

-- The part of the original request that an ICMP error carries.
unfoldable pub embedded4 : Bytes → Bytes
embedded4 orig =
    let embed_len = ipv4_minimum_size + 8 in
    take (if ltb (length orig) embed_len then length orig else embed_len) orig

module _ (h : Headers) where
  -- The UDP header, the payload and the checksum, into the slice behind the IP header.
  unfoldable pub write_udp : ℕ → ℕ → Bytes → (ℕ → ℕ) → Bytes → Bytes
  unfolding checksum
  write_udp src_port dst_port payload pseudo udp =
      let udp_len = udp_minimum_size + length payload in
      let encoded =
        h.udp_encode
          (record { src_port = src_port; dst_port = dst_port; udp_length = uint16 udp_len }) udp in
      let filled = from udp_minimum_size (λ dst. overwrite dst payload) encoded in
      h.udp_set_checksum (complement (checksum filled (pseudo (uint16 udp_len)))) filled

  -- An IPv4 header with its checksum.
  unfoldable pub write_ipv4 : ℕ → ℕ → Bytes → Bytes → Bytes → Bytes
  unfolding to4
  write_ipv4 total_len protocol src dst pkt =
      let encoded =
        h.ipv4_encode
          (record {
            total_length = uint16 total_len;
            ttl = 64;
            protocol = protocol;
            src_addr = or_nil (to4 src);
            dst_addr = or_nil (to4 dst);
          })
          pkt in
      h.ipv4_set_checksum (complement (h.ipv4_checksum encoded)) encoded

  unfoldable pub write_ipv6 : ℕ → ℕ → Bytes → Bytes → Bytes → Bytes
  unfolding to16
  write_ipv6 payload_len protocol src dst pkt =
      h.ipv6_encode
        (record {
          payload_length = uint16 payload_len;
          transport_protocol = protocol;
          hop_limit = 64;
          src_addr = or_nil (to16 src);
          dst_addr = or_nil (to16 dst);
        })
        pkt

  unfoldable pub pseudo_ipv4 : Bytes → Bytes → ℕ → ℕ
  unfolding to4
  pseudo_ipv4 src dst n =
      h.pseudo_header_checksum udp_protocol_number (or_nil (to4 src)) (or_nil (to4 dst)) n

  unfoldable pub pseudo_ipv6 : ℕ → Bytes → Bytes → ℕ → ℕ
  unfolding to16
  pseudo_ipv6 protocol src dst n =
      h.pseudo_header_checksum protocol (or_nil (to16 src)) (or_nil (to16 dst)) n

  unfoldable pub build_udpv4_response : Bytes → Bytes → ℕ → ℕ → Bytes → Bytes
  unfolding write_udp write_ipv4 pseudo_ipv4
  build_udpv4_response src dst src_port dst_port payload =
      let total_len = ipv4_minimum_size + (udp_minimum_size + length payload) in
      from ipv4_minimum_size (write_udp src_port dst_port payload (pseudo_ipv4 src dst))
        (write_ipv4 total_len udp_protocol_number src dst (replicate total_len 0))

  unfoldable pub build_udpv6_response : Bytes → Bytes → ℕ → ℕ → Bytes → Bytes
  unfolding write_udp write_ipv6 pseudo_ipv6
  build_udpv6_response src dst src_port dst_port payload =
      let udp_len = udp_minimum_size + length payload in
      from ipv6_minimum_size
        (write_udp src_port dst_port payload (pseudo_ipv6 udp_protocol_number src dst))
        (write_ipv6 udp_len udp_protocol_number src dst (replicate (ipv6_minimum_size + udp_len) 0))

  unfoldable pub build_udp_response : Bytes → Bytes → ℕ → ℕ → Bytes → Bytes
  unfolding is_ipv6 build_udpv4_response build_udpv6_response
  build_udp_response src dst src_port dst_port payload =
      if is_ipv6 src
      then build_udpv6_response src dst src_port dst_port payload
      else build_udpv4_response src dst src_port dst_port payload

  -- An ICMP echo, into the slice behind the IPv4 header.
  unfoldable pub write_echo4 : ℕ → ℕ → ℕ → Bytes → Bytes → Bytes
  unfolding checksum
  write_echo4 type id seq payload icmp =
      let numbered =
        h.set_sequence seq (h.set_ident id (h.icmpv4.set_code 0 (h.icmpv4.set_type type icmp))) in
      let filled = from icmpv4_minimum_size (λ dst. overwrite dst payload) numbered in
      h.icmpv4.set_icmp_checksum (complement (checksum filled 0)) filled

  unfoldable pub write_echo6 : ℕ → ℕ → ℕ → Bytes → (ℕ → ℕ) → Bytes → Bytes
  unfolding checksum
  write_echo6 type id seq payload pseudo icmp =
      let icmp_len = icmpv6_echo_minimum_size + length payload in
      let typed = h.icmpv6.set_code 0 (h.icmpv6.set_type type icmp) in
      let numbered = from 4 (λ dst. overwrite dst (ident_and_sequence id seq)) typed in
      let filled = from icmpv6_echo_minimum_size (λ dst. overwrite dst payload) numbered in
      h.icmpv6.set_icmp_checksum (complement (checksum filled (pseudo (uint16 icmp_len)))) filled

  -- An echo request (8, 128) or reply (0, 129) with its IP header.
  unfoldable pub echo_packet4 : ℕ → Bytes → Bytes → ℕ → ℕ → Bytes → Bytes
  unfolding write_echo4 write_ipv4
  echo_packet4 type src dst id seq payload =
      let total_len = ipv4_minimum_size + (icmpv4_minimum_size + length payload) in
      from ipv4_minimum_size (write_echo4 type id seq payload)
        (write_ipv4 total_len icmpv4_protocol_number src dst (replicate total_len 0))

  unfoldable pub echo_packet6 : ℕ → Bytes → Bytes → ℕ → ℕ → Bytes → Bytes
  unfolding write_echo6 write_ipv6 pseudo_ipv6
  echo_packet6 type src dst id seq payload =
      let icmp_len = icmpv6_echo_minimum_size + length payload in
      from ipv6_minimum_size
        (write_echo6 type id seq payload (pseudo_ipv6 icmpv6_protocol_number src dst))
        (write_ipv6 icmp_len icmpv6_protocol_number src dst
          (replicate (ipv6_minimum_size + icmp_len) 0))

  unfoldable pub build_icmp_echo_reply : Bytes → Bytes → ℕ → ℕ → Bytes → Bytes
  unfolding is_ipv6 echo_packet4 echo_packet6
  build_icmp_echo_reply src dst id seq payload =
      if is_ipv6 src
      then echo_packet6 129 src dst id seq payload
      else echo_packet4 0 src dst id seq payload

  unfoldable pub embedded6 : Bytes → Bytes
  embedded6 orig =
      let max = max_error_packet - (ipv6_minimum_size + h.icmpv6_minimum_size) in
      if ltb max (length orig) then take max orig else orig

  -- A Destination Unreachable message, into the slice behind the IP header.
  unfoldable pub write_unreachable4 : ℕ → Bytes → Bytes → Bytes
  unfolding checksum
  write_unreachable4 code embed icmp =
      let typed = h.icmpv4.set_code code (h.icmpv4.set_type 3 icmp) in
      let filled = from icmpv4_minimum_size (λ to. overwrite to embed) typed in
      h.icmpv4.set_icmp_checksum (complement (checksum filled 0)) filled

  unfoldable pub write_unreachable6 : ℕ → Bytes → (ℕ → ℕ) → Bytes → Bytes
  unfolding checksum
  write_unreachable6 code embed pseudo icmp =
      let icmp_len = h.icmpv6_minimum_size + length embed in
      let typed = h.icmpv6.set_code code (h.icmpv6.set_type 1 icmp) in
      let filled = from h.icmpv6_minimum_size (λ to. overwrite to embed) typed in
      h.icmpv6.set_icmp_checksum (complement (checksum filled (pseudo (uint16 icmp_len)))) filled

  unfoldable pub build_icmpv4_dest_unreachable : Bytes → Bytes → ℕ → ℕ → Bytes → ℕ → Bytes
  unfolding echo_packet4 embedded4 write_ipv4 write_unreachable4
  build_icmpv4_dest_unreachable src dst id seq payload code =
      let embed = embedded4 (echo_packet4 8 src dst id seq payload) in
      let total_len = ipv4_minimum_size + (icmpv4_minimum_size + length embed) in
      from ipv4_minimum_size (write_unreachable4 code embed)
        (write_ipv4 total_len icmpv4_protocol_number dst src (replicate total_len 0))

  unfoldable pub build_icmpv6_dest_unreachable : Bytes → Bytes → ℕ → ℕ → Bytes → ℕ → Bytes
  unfolding echo_packet6 embedded6 write_ipv6 pseudo_ipv6 write_unreachable6
  build_icmpv6_dest_unreachable src dst id seq payload code =
      let embed = embedded6 (echo_packet6 128 src dst id seq payload) in
      let icmp_len = h.icmpv6_minimum_size + length embed in
      from ipv6_minimum_size
        (write_unreachable6 code embed (pseudo_ipv6 icmpv6_protocol_number dst src))
        (write_ipv6 icmp_len icmpv6_protocol_number dst src
          (replicate (ipv6_minimum_size + icmp_len) 0))

  unfoldable pub build_icmp_dest_unreachable : Bytes → Bytes → ℕ → ℕ → Bytes → ℕ → ℕ → Bytes
  unfolding is_ipv6 build_icmpv4_dest_unreachable build_icmpv6_dest_unreachable
  build_icmp_dest_unreachable src dst id seq payload v4_code v6_code =
      if is_ipv6 src
      then build_icmpv6_dest_unreachable src dst id seq payload v6_code
      else build_icmpv4_dest_unreachable src dst id seq payload v4_code

  -- `none` is an error without ICMP codes.
  unfoldable pub build_icmp_unreachable_for_error :
      Bytes → Bytes → ℕ → ℕ → Bytes → Option (ℕ × ℕ) → Bytes
  unfolding build_icmp_dest_unreachable
  build_icmp_unreachable_for_error src dst id seq payload none = []
  build_icmp_unreachable_for_error src dst id seq payload (some (v4_code, v6_code)) =
      build_icmp_dest_unreachable src dst id seq payload v4_code v6_code
