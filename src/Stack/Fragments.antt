-- ===== src/Stack/Fragments.antt =====
-- What DeliverNetworkPacket does with IPv4 fragments (internal/stack/intercept_endpoint.go).
use mutiauk.Base.{
  ℕ, ◌≤◌, ◌≡◌, Bool, true, false, Bytes, bytes, inl, inr, Bool-cases, length, take, ltb, ◌==◌,
  if◌then◌else◌, arith,
}
use mutiauk.Stack.Headers.{udp_protocol_number, icmpv4_protocol_number}
use mutiauk.Stack.Intercept.{
  PacketBuffer, Readers, NetworkProtocol, Delivery, passed, dropped, is_fragmented_ipv4,
  deliver_raw4, deliver_parsed4, deliver_network_packet,
}

-- The header that is looked at: the parsed one, or the start of an unparsed packet.
abbrev pub seen_header : PacketBuffer → Bytes
seen_header pkt =
    if ltb (length pkt.network_header) 20 then take 28 pkt.contents else pkt.network_header

module _ (r : Readers) (has_udp has_icmp : Bool) where
  abbrev pub fragment_fate : ℕ → Bytes → Delivery
  fragment_fate proto hdr =
      if proto == udp_protocol_number
      then dropped (bytes "udp") (r.ipv4_source hdr) (r.ipv4_destination hdr)
      else (if proto == icmpv4_protocol_number
          then dropped (bytes "icmp") (r.ipv4_source hdr) (r.ipv4_destination hdr)
          else passed)

  raw_fragment :
      (pkt : Bytes)
      → 20 ≤ length (take 28 pkt)
      → is_fragmented_ipv4 r has_udp has_icmp (take 28 pkt) ≡ true
      → deliver_raw4 r has_udp has_icmp pkt
        ≡ fragment_fate (r.ipv4_protocol (take 28 pkt)) (take 28 pkt)
  unfolding deliver_raw4
  raw_fragment pkt h e =
      let long : ltb (length (take 28 pkt)) 20 ≡ false = ground arith in
      rw long (rw e (ground arith))

  parsed_fragment :
      (pkt : PacketBuffer)
      → is_fragmented_ipv4 r has_udp has_icmp pkt.network_header ≡ true
      → deliver_parsed4 r has_udp has_icmp pkt
        ≡ fragment_fate (r.ipv4_protocol pkt.network_header) pkt.network_header
  unfolding deliver_parsed4
  parsed_fragment pkt e = rw e (ground arith)

  -- An IPv4 fragment with a whole header, parsed or not, reaches no handler: if its protocol is UDP or
  -- ICMP it is dropped, under that protocol's name and with its addresses, and otherwise it goes on to
  -- the stack.
  pub deliver_fragment :
      (pkt : PacketBuffer)
      → 20 ≤ length (seen_header pkt)
      → is_fragmented_ipv4 r has_udp has_icmp (seen_header pkt) ≡ true
      → deliver_network_packet r has_udp has_icmp NetworkProtocol.ipv4 pkt
        ≡ fragment_fate (r.ipv4_protocol (seen_header pkt)) (seen_header pkt)
  unfolding deliver_network_packet
  deliver_fragment pkt h e = elim (Bool-cases (ltb (length pkt.network_header) 20)) [
    | inl b ↦ rw b (raw_fragment pkt.contents (rw b at h) (rw b at e))
    | inr b ↦ rw b (parsed_fragment pkt (rw b at e))
  ]
