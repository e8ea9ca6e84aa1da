-- ===== src/Stack/Agreement.antt =====
-- The branches of DeliverNetworkPacket for parsed and for unparsed packets, and the fragments
-- (internal/stack/intercept_endpoint.go).
use mutiauk.Base.{
  ℕ, suc, zero, ◌+◌, ◌≤◌, ◌≡◌, refl, sym, ap, ◌∙◌, Bool, false, not, ◌&&◌, Bytes, [], ◌∷◌, ◌++◌,
  bytes, length, take, drop, ltb, leb, ◌==◌, if◌then◌else◌, arith, length-append, drop_append,
}
use mutiauk.Stack.Headers.{udp_protocol_number, icmpv4_protocol_number}
use mutiauk.Stack.Intercept.{
  Readers, NetworkProtocol, Delivery, passed, dropped, is_fragmented_ipv4, take_udp, take_echo4,
  deliver_raw4, deliver_parsed4, deliver_network_packet,
}

-- A method that reads the first n bytes of its slice only.
abbrev pub Reads : {A : Type 0} → ℕ → (Bytes → A) → Type 0
Reads n f = (xs : Bytes) → n ≤ length xs → f (take n xs) ≡ f xs

-- What the library documents of its methods that read a header.
pub record ReadersDocumented (r : Readers) : Type 0 where
  pub protocol-Reads : Reads 20 r.ipv4_protocol
  pub header_length-Reads : Reads 20 r.ipv4_header_length
  pub more-Reads : Reads 20 r.ipv4_more
  pub fragment_offset-Reads : Reads 20 r.ipv4_fragment_offset
  pub source-Reads : Reads 20 r.ipv4_source
  pub destination-Reads : Reads 20 r.ipv4_destination
  pub source_port-Reads : Reads 8 r.udp_source_port
  pub destination_port-Reads : Reads 8 r.udp_destination_port
  pub type-Reads : Reads 8 r.icmpv4_type
  pub ident-Reads : Reads 8 r.icmpv4_ident
  pub sequence-Reads : Reads 8 r.icmpv4_sequence

pub length-take :
    (n : ℕ) (xs : Bytes) → length (take n xs) ≡ (if ltb (length xs) n then length xs else n)
length-take zero xs = ground arith
length-take (suc n) [] = ground arith
length-take (suc n) (x ∷ xs) = ground (arith, length-take n xs)

take-take : (n m : ℕ) (xs : Bytes) → n ≤ m → take n (take m xs) ≡ take n xs
take-take zero m xs h = refl
take-take (suc n) zero xs h = absurd (omega arith)
take-take (suc n) (suc m) [] h = refl
take-take (suc n) (suc m) (x ∷ xs) h = ap (◌∷◌ x) (take-take n m xs (omega arith))

take-append_le : (n : ℕ) (xs ys : Bytes) → n ≤ length xs → take n (xs ++ ys) ≡ take n xs
take-append_le zero xs ys h = refl
take-append_le (suc n) [] ys h = absurd (omega arith)
take-append_le (suc n) (x ∷ xs) ys h = ap (◌∷◌ x) (take-append_le n xs ys (omega arith))

pub drop-append_add : (xs ys : Bytes) (k : ℕ) → drop (length xs + k) (xs ++ ys) ≡ drop k ys
drop-append_add [] ys k = ap (λ n. drop n ys) (omega arith)
drop-append_add (x ∷ xs) ys k =
    let e : suc (length xs) + k ≡ suc (length xs + k) = omega arith in
    ap (λ n. drop n (x ∷ (xs ++ ys))) e ∙ drop-append_add xs ys k

-- A header method sees the same in a header, in a packet that begins with it, and in a prefix.
pub Reads-prefix :
    (n m : ℕ) (A : Type 0) (f : Bytes → A) (hdr rest : Bytes)
    → Reads n f
    → n ≤ m
    → n ≤ length hdr
    → (f (hdr ++ rest) ≡ f hdr) × (f (take m (hdr ++ rest)) ≡ f hdr)
Reads-prefix n m A f hdr rest reads le h =
    let long : n ≤ length (hdr ++ rest) = omega (arith, length-append hdr rest) in
    let whole =
      sym (reads (hdr ++ rest) long) ∙ (ap f (take-append_le n hdr rest h) ∙ reads hdr h) in
    let probe = take m (hdr ++ rest) in
    (
      whole,
      sym (reads probe (ground (arith, length-take m (hdr ++ rest))))
          ∙ (ap f (take-take n m (hdr ++ rest) le) ∙ (reads (hdr ++ rest) long ∙ whole)),
    )

Reads-append :
    (A : Type 0) (f : Bytes → A) (hdr rest : Bytes)
    → Reads 20 f
    → 20 ≤ length hdr
    → (f (hdr ++ rest) ≡ f hdr) × (f (take 28 (hdr ++ rest)) ≡ f hdr)
Reads-append A f hdr rest reads h = Reads-prefix 20 28 A f hdr rest reads (omega arith) h

module _ (r : Readers) (doc : ReadersDocumented r) (has_udp has_icmp : Bool) where
  pub take_udp_reads :
      (src dst segment payload : Bytes)
      → 8 ≤ length segment
      → take_udp r has_udp has_icmp src dst (take 8 segment) payload
        ≡ take_udp r has_udp has_icmp src dst segment payload
  unfolding take_udp
  take_udp_reads src dst segment payload h =
      rw (doc.source_port-Reads segment h) (rw (doc.destination_port-Reads segment h) refl)

  take_echo4_reads :
      (src dst segment payload : Bytes)
      → 8 ≤ length segment
      → take_echo4 r has_udp has_icmp src dst (take 8 segment) payload
        ≡ take_echo4 r has_udp has_icmp src dst segment payload
  unfolding take_echo4
  take_echo4_reads src dst segment payload h =
      rw (doc.type-Reads segment h)
        (rw (doc.ident-Reads segment h) (rw (doc.sequence-Reads segment h) refl))

  is_fragmented_append :
      (hdr rest : Bytes)
      → 20 ≤ length hdr
      → is_fragmented_ipv4 r has_udp has_icmp (take 28 (hdr ++ rest))
        ≡ is_fragmented_ipv4 r has_udp has_icmp hdr
  unfolding is_fragmented_ipv4
  is_fragmented_append hdr rest h =
      rw (Reads-append _ r.ipv4_more hdr rest doc.more-Reads h).1
        (rw (Reads-append _ r.ipv4_fragment_offset hdr rest doc.fragment_offset-Reads h).1 refl)

  -- What is done with a header and the bytes behind it.
  abbrev decided4 : ℕ → Bool → Bytes → Bytes → Bytes → Delivery
  decided4 proto fragmented src dst segment =
      if not (proto == udp_protocol_number) && not (proto == icmpv4_protocol_number)
      then passed
      else (if fragmented
          then dropped (if proto == icmpv4_protocol_number then bytes "icmp" else bytes "udp") src
              dst
          else (if proto == udp_protocol_number && leb 8 (length segment)
              then take_udp r has_udp has_icmp src dst segment (drop 8 segment)
              else (if proto == icmpv4_protocol_number && leb 8 (length segment)
                  then take_echo4 r has_udp has_icmp src dst segment (drop 8 segment)
                  else passed)))

  deliver_raw4_append :
      (hdr segment : Bytes)
      → 20 ≤ length hdr
      → r.ipv4_header_length hdr ≡ length hdr
      → deliver_raw4 r has_udp has_icmp (hdr ++ segment)
        ≡ decided4
            (r.ipv4_protocol hdr)
            (is_fragmented_ipv4 r has_udp has_icmp hdr)
            (r.ipv4_source hdr)
            (r.ipv4_destination hdr)
            segment
  unfolding deliver_raw4
  deliver_raw4_append hdr segment h hl =
      let long : ltb (length (take 28 (hdr ++ segment))) 20 ≡ false =
        ground (arith, length-take 28 (hdr ++ segment), length-append hdr segment) in
      let fits : leb (length hdr + 8) (length (hdr ++ segment)) ≡ leb 8 (length segment) =
        ground (arith, length-append hdr segment) in
      let proto = Reads-append _ r.ipv4_protocol hdr segment doc.protocol-Reads h in
      let src = Reads-append _ r.ipv4_source hdr segment doc.source-Reads h in
      let dst = Reads-append _ r.ipv4_destination hdr segment doc.destination-Reads h in
      let size =
        (Reads-append _ r.ipv4_header_length hdr segment doc.header_length-Reads h).0 ∙ hl in
      rw long (
        rw proto.1 (
          rw size (
            rw fits (
              rw src.0 (
                rw src.1 (
                  rw dst.0 (
                    rw dst.1 (
                      rw (is_fragmented_append hdr segment h) (
                        rw (drop_append hdr segment)
                          (rw (drop-append_add hdr segment 8) refl))))))))))

  deliver_parsed4_split :
      (hdr segment : Bytes)
      → deliver_parsed4 r has_udp has_icmp (record {
        network_header = hdr;
        transport_header = take 8 segment;
        contents = drop 8 segment;
      })
        ≡ decided4
            (r.ipv4_protocol hdr)
            (is_fragmented_ipv4 r has_udp has_icmp hdr)
            (r.ipv4_source hdr)
            (r.ipv4_destination hdr)
            segment
  unfolding deliver_parsed4
  deliver_parsed4_split hdr segment =
      let src = r.ipv4_source hdr in
      let dst = r.ipv4_destination hdr in
      ground (
        arith,
        length-take 8 segment,
        take_udp_reads src dst segment (drop 8 segment),
        take_echo4_reads src dst segment (drop 8 segment),
      )

  -- An IPv4 packet whose header has 20 bytes or more and gives its own length is treated the same
  -- whether its headers are parsed or not: the parsed one has the IP header, the first 8 bytes behind
  -- it as transport header, and the rest.
  pub deliver_ipv4_agree :
      (hdr segment : Bytes)
      → 20 ≤ length hdr
      → r.ipv4_header_length hdr ≡ length hdr
      → deliver_network_packet r has_udp has_icmp NetworkProtocol.ipv4
          (record { network_header = []; transport_header = []; contents = hdr ++ segment })
        ≡ deliver_network_packet r has_udp has_icmp NetworkProtocol.ipv4 (record {
          network_header = hdr;
          transport_header = take 8 segment;
          contents = drop 8 segment;
        })
  unfolding deliver_network_packet
  deliver_ipv4_agree hdr segment h hl =
      let parsed : ltb (length hdr) 20 ≡ false = ground arith in
      rw parsed (deliver_raw4_append hdr segment h hl ∙ sym (deliver_parsed4_split hdr segment))
