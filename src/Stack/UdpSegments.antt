-- ===== src/Stack/UdpSegments.antt =====
-- The UDP responses of internal/stack/intercept_endpoint.go as their receiver reads them.
use mutiauk.Base.{
  ℕ, ◌+◌, ◌<◌, ◌≡◌, refl, sym, ap, ◌∙◌, Bytes, ◌++◌, length, take, drop, length-take_le,
  length-drop, take-append-drop, arith, if◌then◌else◌, Bool, true, false,
}
use mutiauk.Base.Words.{put_uint16, uint16}
use mutiauk.Stack.Checksum.{checksum, complement}
use mutiauk.Stack.ChecksumExact.{length-put_uint16}
use mutiauk.Stack.Headers.{
  ipv4_minimum_size, ipv6_minimum_size, udp_minimum_size, udp_protocol_number, Headers, UdpFields,
  Documented, WritesWithin,
}
use mutiauk.Stack.Packets.{
  from, overwrite, is_ipv6, write_udp, write_ipv4, write_ipv6, pseudo_ipv4, pseudo_ipv6,
}
use mutiauk.Stack.Windows.{overwrite_all}

abbrev pub udp_front : ℕ → ℕ → ℕ → Bytes
udp_front src_port dst_port n = put_uint16 src_port ++ put_uint16 dst_port ++ put_uint16 n

length-udp_front : (a b n : ℕ) → length (udp_front a b n) ≡ 6
unfolding put_uint16
length-udp_front a b n = refl

udp_front_small : (a b n : ℕ) → n < 65536 → udp_front a b (uint16 n) ≡ udp_front a b n
udp_front_small a b n l = ap (udp_front a b) (omega arith)

module _ (h : Headers) (doc : Documented h) where
  -- The checksum that a segment gets.
  abbrev pub segment_sum : ℕ → ℕ → Bytes → (ℕ → ℕ) → ℕ
  segment_sum src_port dst_port payload pseudo =
      let n = uint16 (udp_minimum_size + length payload) in
      checksum (udp_front src_port dst_port n ++ put_uint16 0 ++ payload) (pseudo n)

  filled_exact :
      (src_port dst_port n : ℕ) (payload udp : Bytes)
      → length udp ≡ udp_minimum_size + length payload
      → from udp_minimum_size
          (λ dst. overwrite dst payload)
          (h.udp_encode (record { src_port = src_port; dst_port = dst_port; udp_length = n }) udp)
        ≡ udp_front src_port dst_port n ++ put_uint16 0 ++ payload
  unfolding put_uint16
  filled_exact src_port dst_port n payload udp e =
      let f : UdpFields = record { src_port = src_port; dst_port = dst_port; udp_length = n } in
      let all = take-append-drop udp_minimum_size udp in
      let written =
        doc.udp_encode-writes f (take udp_minimum_size udp) (drop udp_minimum_size udp)
          (length-take_le udp_minimum_size udp (omega arith)) in
      rw (ap (h.udp_encode f) (sym all) ∙ written) (
        ap (λ t. udp_front src_port dst_port n ++ put_uint16 0 ++ t)
          (overwrite_all (drop udp_minimum_size udp) payload
            (omega (arith, length-drop udp_minimum_size udp))))

  pub write_udp_exact :
      (src_port dst_port : ℕ) (payload : Bytes) (pseudo : ℕ → ℕ) (udp : Bytes)
      → length udp ≡ udp_minimum_size + length payload
      → write_udp h src_port dst_port payload pseudo udp
        ≡ udp_front src_port dst_port (uint16 (udp_minimum_size + length payload))
          ++ put_uint16 (complement (segment_sum src_port dst_port payload pseudo))
          ++ payload
  unfolding write_udp
  write_udp_exact src_port dst_port payload pseudo udp e =
      let n = uint16 (udp_minimum_size + length payload) in
      ap (λ t. h.udp_set_checksum (complement (checksum t (pseudo n))) t)
        (filled_exact src_port dst_port n payload udp e)
      ∙ doc.udp_set_checksum-writes (complement (segment_sum src_port dst_port payload pseudo))
          (udp_front src_port dst_port n) (put_uint16 0) payload
          (length-udp_front src_port dst_port n) (length-put_uint16 0)

  -- What a receiver finds in a segment: the ports, its length, the payload, and a checksum that
  -- comes out as 65535 together with the addresses.
  abbrev pub Segment : ℕ → ℕ → Bytes → ℕ → Bytes → Type 0
  Segment src_port dst_port payload pseudo s =
      (take 6 s ≡ udp_front src_port dst_port (udp_minimum_size + length payload))
      × (drop udp_minimum_size s ≡ payload)
      × (checksum s pseudo ≡ 65535)

  abbrev pub ip_size : Bool → ℕ
  ip_size true = ipv6_minimum_size
  ip_size false = ipv4_minimum_size

  -- The sum over the addresses and the length, for the version of the response.
  abbrev pub pseudo_sum : Bytes → Bytes → ℕ → ℕ
  pseudo_sum src dst n =
      if is_ipv6 src then pseudo_ipv6 h udp_protocol_number src dst n else pseudo_ipv4 h src dst n

  pub write_ipv4-within :
      (total protocol : ℕ) (src dst : Bytes)
      → WritesWithin ipv4_minimum_size (write_ipv4 h total protocol src dst)
  unfolding write_ipv4
  write_ipv4-within total protocol src dst buf l =
      let a = doc.ipv4_encode-within _ buf l in
      let b = doc.ipv4_set_checksum-within _ _ (omega (arith, a.0)) in
      (b.0 ∙ a.0, b.1 ∙ a.1, λ bytes. b.2 (a.2 bytes))

  pub write_ipv6-within :
      (n protocol : ℕ) (src dst : Bytes)
      → WritesWithin ipv6_minimum_size (write_ipv6 h n protocol src dst)
  unfolding write_ipv6
  write_ipv6-within n protocol src dst buf l = doc.ipv6_encode-within _ buf l

  -- A packet with an IP header of n bytes and a segment behind it.
  abbrev pub Response : ℕ → ℕ → ℕ → Bytes → ℕ → Bytes → Type 0
  Response n src_port dst_port payload pseudo r =
      (length r ≡ n + (udp_minimum_size + length payload))
      × Segment src_port dst_port payload pseudo (drop n r)
