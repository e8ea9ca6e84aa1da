-- ===== src/Stack/Unreachable.antt =====
-- The ICMP Destination Unreachable packets of internal/stack/intercept_endpoint.go.
use mutiauk.Base.{
  ℕ, ◌+◌, ◌-◌, Bytes, ◌++◌, length, take, replicate, Bool, true, false, if◌then◌else◌,
}
use mutiauk.Stack.Headers.{icmpv6_protocol_number, Headers, Documented}
use mutiauk.Stack.Packets.{pseudo_ipv6, echo_packet4, echo_packet6}
use mutiauk.Stack.UdpSegments.{ip_size}
use mutiauk.Stack.IcmpMessages.{Packet}

module _ (h : Headers) (doc : Documented h) where
  -- What the error to a sender carries of the request: the bytes behind the code and the checksum.
  abbrev pub error_body : ℕ → Bool → Bytes → Bytes → ℕ → ℕ → Bytes → Bytes
  error_body j true src dst id seq payload =
      replicate j 0 ++ take (1236 - j) (echo_packet6 h 128 src dst id seq payload)
  error_body j false src dst id seq payload =
      replicate 4 0 ++ take 28 (echo_packet4 h 8 src dst id seq payload)

  abbrev pub error_sum : Bool → Bytes → Bytes → ℕ → ℕ
  error_sum true src dst n = pseudo_ipv6 h icmpv6_protocol_number dst src n
  error_sum false src dst n = 0

  abbrev pub ErrorPacket : Bool → ℕ → Bytes → Bytes → ℕ → ℕ → ℕ → Bytes → Bytes → Type 0
  ErrorPacket b j src dst id seq code payload r =
      let body = error_body j b src dst id seq payload in
      Packet h doc (ip_size h doc b) (if b then 1 else 3) code body
        (error_sum b src dst (4 + length body)) r
