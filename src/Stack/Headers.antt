-- ===== src/Stack/Headers.antt =====
-- What internal/stack/intercept_endpoint.go uses of the packet library (gvisor.dev/gvisor) to write
-- headers: methods that write into the slice that they are given. The methods are arguments of the
-- model, and `Documented` is what the library documents of them: the layouts of the RFCs.
use mutiauk.Base.{ℕ, ◌≤◌, ◌<◌, ◌≡◌, Bytes, ◌∷◌, ◌++◌, length, drop, All}
use mutiauk.Base.Words.{put_uint16, IsByte}

-- The sizes and numbers of the protocols.
abbrev pub ipv4_minimum_size : ℕ
ipv4_minimum_size = 20

abbrev pub ipv6_minimum_size : ℕ
ipv6_minimum_size = 40

abbrev pub udp_minimum_size : ℕ
udp_minimum_size = 8

abbrev pub icmpv4_minimum_size : ℕ
icmpv4_minimum_size = 8

abbrev pub icmpv6_echo_minimum_size : ℕ
icmpv6_echo_minimum_size = 8

abbrev pub udp_protocol_number : ℕ
udp_protocol_number = 17

abbrev pub icmpv4_protocol_number : ℕ
icmpv4_protocol_number = 1

abbrev pub icmpv6_protocol_number : ℕ
icmpv6_protocol_number = 58

pub record Ipv4Fields : Type 0 where
  pub total_length : ℕ
  pub ttl : ℕ
  pub protocol : ℕ
  pub src_addr : Bytes
  pub dst_addr : Bytes

pub record Ipv6Fields : Type 0 where
  pub payload_length : ℕ
  pub transport_protocol : ℕ
  pub hop_limit : ℕ
  pub src_addr : Bytes
  pub dst_addr : Bytes

pub record UdpFields : Type 0 where
  pub src_port : ℕ
  pub dst_port : ℕ
  pub udp_length : ℕ

pub record IcmpSetters : Type 0 where
  pub set_type : ℕ → Bytes → Bytes
  pub set_code : ℕ → Bytes → Bytes
  pub set_icmp_checksum : ℕ → Bytes → Bytes

pub record Headers : Type 0 where
  pub ipv4_encode : Ipv4Fields → Bytes → Bytes
  pub ipv4_checksum : Bytes → ℕ
  pub ipv4_set_checksum : ℕ → Bytes → Bytes
  pub ipv6_encode : Ipv6Fields → Bytes → Bytes
  pub udp_encode : UdpFields → Bytes → Bytes
  pub udp_set_checksum : ℕ → Bytes → Bytes
  pub icmpv4 : IcmpSetters
  pub icmpv6 : IcmpSetters
  pub set_ident : ℕ → Bytes → Bytes
  pub set_sequence : ℕ → Bytes → Bytes
  pub pseudo_header_checksum : ℕ → Bytes → Bytes → ℕ → ℕ
  pub icmpv6_minimum_size : ℕ

-- A method that writes into the first n bytes of its slice and nowhere else.
abbrev pub WritesWithin : ℕ → (Bytes → Bytes) → Type 0
WritesWithin n f =
    (buf : Bytes)
    → n ≤ length buf
    → (length (f buf) ≡ length buf)
      × (drop n (f buf) ≡ drop n buf)
      × (All IsByte buf → All IsByte (f buf))

-- A method that writes a 16-bit field.
abbrev pub WritesField : ℕ → (ℕ → Bytes → Bytes) → Type 0
WritesField n f =
    (v : ℕ) (xs old rest : Bytes)
    → length xs ≡ n
    → length old ≡ 2
    → f v (xs ++ old ++ rest) ≡ xs ++ put_uint16 v ++ rest

pub record IcmpDocumented (s : IcmpSetters) : Type 0 where
  pub set_type-writes : (t a : ℕ) (rest : Bytes) → s.set_type t (a ∷ rest) ≡ t ∷ rest
  pub set_code-writes : (c a b : ℕ) (rest : Bytes) → s.set_code c (a ∷ b ∷ rest) ≡ a ∷ c ∷ rest
  pub set_icmp_checksum-writes : WritesField 2 s.set_icmp_checksum

pub record Documented (h : Headers) : Type 0 where
  pub ipv4_encode-within : (f : Ipv4Fields) → WritesWithin ipv4_minimum_size (h.ipv4_encode f)
  pub ipv4_set_checksum-within : (n : ℕ) → WritesWithin ipv4_minimum_size (h.ipv4_set_checksum n)
  pub ipv6_encode-within : (f : Ipv6Fields) → WritesWithin ipv6_minimum_size (h.ipv6_encode f)
  pub udp_encode-writes :
      (f : UdpFields) (old rest : Bytes)
      → length old ≡ udp_minimum_size
      → h.udp_encode f (old ++ rest)
        ≡ (put_uint16 f.src_port ++ put_uint16 f.dst_port ++ put_uint16 f.udp_length)
          ++ put_uint16 0
          ++ rest
  pub udp_set_checksum-writes : WritesField 6 h.udp_set_checksum
  pub icmpv4-documented : IcmpDocumented h.icmpv4
  pub icmpv6-documented : IcmpDocumented h.icmpv6
  pub set_ident-writes : WritesField 4 h.set_ident
  pub set_sequence-writes : WritesField 6 h.set_sequence
  pub pseudo_header_checksum-lt :
      (p : ℕ) (a b : Bytes) (n : ℕ) → h.pseudo_header_checksum p a b n < 65536
