-- ===== src/Stack/Agreement6.antt =====
-- The branches of handleIPv6Packet for parsed and for unparsed packets
-- (internal/stack/intercept_endpoint.go).
use mutiauk.Base.{
  ℕ, ◌+◌, ◌≤◌, ◌≡◌, ◌≢◌, refl, sym, ap, ◌∙◌, Bool, true, false, not, ◌&&◌, Bytes, [], ◌++◌, length,
  take, drop, ltb, leb, ◌==◌, if◌then◌else◌, arith, length-append, drop_append, get_or-take,
  Bool-cases, inl, inr,
}
use mutiauk.Stack.Headers.{udp_protocol_number, icmpv6_protocol_number}
use mutiauk.Stack.Intercept.{
  Readers, NetworkProtocol, Delivery, passed, panicked, Call, call_if, take_udp, take_echo6,
  deliver_raw6, deliver_parsed6, deliver_network_packet, icmpv6_echo_request,
}
use mutiauk.Stack.Agreement.{
  Reads, ReadersDocumented, length-take, drop-append_add, Reads-prefix, take_udp_reads,
}

-- What the library documents of its methods that read an IPv6 header or an ICMPv6 message.
pub record Readers6Documented (r : Readers) : Type 0 where
  pub next_header-Reads : Reads 40 r.ipv6_next_header
  pub source-Reads : Reads 40 r.ipv6_source
  pub destination-Reads : Reads 40 r.ipv6_destination
  pub type-Reads : Reads 8 r.icmpv6_type
  pub min_is_8 : r.icmpv6_min ≡ 8

module _ (r : Readers) (doc : ReadersDocumented r) (doc6 : Readers6Documented r)
    (has_udp has_icmp : Bool) where
  take_echo6_reads :
      (src dst segment payload : Bytes)
      → 8 ≤ length segment
      → take_echo6 r has_udp has_icmp src dst (take 8 segment) payload
        ≡ take_echo6 r has_udp has_icmp src dst segment payload
  unfolding take_echo6
  take_echo6_reads src dst segment payload h =
      let whole : ltb (length segment) 8 ≡ false = ground arith in
      let part : ltb (length (take 8 segment)) 8 ≡ false = ground (arith, length-take 8 segment) in
      rw (doc6.type-Reads segment h) (
        rw whole (
          rw part (
            rw (get_or-take 8 4 segment 0 (omega arith)) (
              rw (get_or-take 8 5 segment 0 (omega arith)) (
                rw (get_or-take 8 6 segment 0 (omega arith))
                  (rw (get_or-take 8 7 segment 0 (omega arith)) refl))))))

  -- What is done with a header and the bytes behind it.
  abbrev decided6 : ℕ → Bytes → Bytes → Bytes → Delivery
  decided6 proto src dst segment =
      if not (proto == udp_protocol_number) && not (proto == icmpv6_protocol_number)
      then passed
      else (if proto == udp_protocol_number && leb 8 (length segment)
          then take_udp r has_udp has_icmp src dst segment (drop 8 segment)
          else (if proto == icmpv6_protocol_number && leb 8 (length segment)
              then take_echo6 r has_udp has_icmp src dst segment (drop 8 segment)
              else passed))

  call_if_within : (b : Bool) (c : Call) → call_if b c ≢ panicked
  call_if_within true c e = cc
  call_if_within false c e = cc

  take_udp_within :
      (src dst segment payload : Bytes)
      → take_udp r has_udp has_icmp src dst segment payload ≢ panicked
  unfolding take_udp
  take_udp_within src dst segment payload = call_if_within has_udp _

  take_echo6_within :
      (src dst segment payload : Bytes)
      → 8 ≤ length segment
      → take_echo6 r has_udp has_icmp src dst segment payload ≢ panicked
  unfolding take_echo6
  take_echo6_within src dst segment payload h =
      let whole : ltb (length segment) 8 ≡ false = ground arith in
      elim (Bool-cases (r.icmpv6_type segment == icmpv6_echo_request)) [
        | inl e ↦ rw e (rw whole (call_if_within has_icmp _))
        | inr e ↦ rw e (λ q. cc)
      ]

  decided6_within :
      (proto : ℕ) (src dst segment : Bytes) → decided6 proto src dst segment ≢ panicked
  decided6_within proto src dst segment = ground (
    arith,
    take_udp_within src dst segment (drop 8 segment),
    take_echo6_within src dst segment (drop 8 segment),
  )

  deliver_raw6_append :
      (hdr segment : Bytes)
      → length hdr ≡ 40
      → deliver_raw6 r has_udp has_icmp (hdr ++ segment)
        ≡ decided6 (r.ipv6_next_header hdr) (r.ipv6_source hdr) (r.ipv6_destination hdr) segment
  unfolding deliver_raw6
  deliver_raw6_append hdr segment h =
      let long : ltb (length (take 48 (hdr ++ segment))) 40 ≡ false =
        ground (arith, length-take 48 (hdr ++ segment), length-append hdr segment) in
      let fits : leb 48 (length (hdr ++ segment)) ≡ leb 8 (length segment) =
        ground (arith, length-append hdr segment) in
      let le : 40 ≤ length hdr = omega arith in
      let proto =
        Reads-prefix 40 48 _ r.ipv6_next_header hdr segment doc6.next_header-Reads (omega arith)
          le in
      let src = Reads-prefix 40 48 _ r.ipv6_source hdr segment doc6.source-Reads (omega arith) le in
      let dst =
        Reads-prefix 40 48 _ r.ipv6_destination hdr segment doc6.destination-Reads (omega arith)
          le in
      let behind : drop 40 (hdr ++ segment) ≡ segment =
        ap (λ n. drop n (hdr ++ segment)) (sym h) ∙ drop_append hdr segment in
      let size : 48 ≡ length hdr + 8 = omega arith in
      let later : drop 48 (hdr ++ segment) ≡ drop 8 segment =
        ap (λ n. drop n (hdr ++ segment)) size ∙ drop-append_add hdr segment 8 in
      rw doc6.min_is_8
        (rw long (rw fits (rw proto.1 (rw src.0 (rw dst.0 (rw behind (rw later refl)))))))

  deliver_parsed6_split :
      (hdr segment : Bytes)
      → deliver_parsed6 r has_udp has_icmp (record {
        network_header = hdr;
        transport_header = take 8 segment;
        contents = drop 8 segment;
      })
        ≡ decided6 (r.ipv6_next_header hdr) (r.ipv6_source hdr) (r.ipv6_destination hdr) segment
  unfolding deliver_parsed6
  deliver_parsed6_split hdr segment =
      let src = r.ipv6_source hdr in
      let dst = r.ipv6_destination hdr in
      rw doc6.min_is_8 (
        ground (
          arith,
          length-take 8 segment,
          take_udp_reads r doc has_udp has_icmp src dst segment (drop 8 segment),
          take_echo6_reads src dst segment (drop 8 segment),
        ))

  -- An IPv6 packet without extension headers is treated the same whether its headers are parsed or
  -- not, and no byte of an echo request is read out of range, if the library's methods read the fixed
  -- part of a header and its least size of an ICMPv6 message is 8: the parsed packet has the IP header
  -- of 40 bytes, the first 8 bytes behind it as transport header, and the rest.
  pub deliver_ipv6_agree :
      (hdr segment : Bytes)
      → length hdr ≡ 40
      → let raw =
          deliver_network_packet r has_udp has_icmp NetworkProtocol.ipv6
            (record { network_header = []; transport_header = []; contents = hdr ++ segment }) in
        (raw
          ≡ deliver_network_packet r has_udp has_icmp NetworkProtocol.ipv6 (record {
            network_header = hdr;
            transport_header = take 8 segment;
            contents = drop 8 segment;
          }))
        × (raw ≢ panicked)
  unfolding deliver_network_packet
  deliver_ipv6_agree hdr segment h =
      let parsed : ltb (length hdr) 40 ≡ false = ground arith in
      let raw = deliver_raw6_append hdr segment h in
      (
        rw parsed (raw ∙ sym (deliver_parsed6_split hdr segment)),
        rw raw (
            decided6_within (r.ipv6_next_header hdr) (r.ipv6_source hdr) (r.ipv6_destination hdr)
              segment),
      )
