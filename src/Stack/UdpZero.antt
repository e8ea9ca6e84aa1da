-- ===== src/Stack/UdpZero.antt =====
-- UDP over IPv6 (buildUDPv6Response of internal/stack/intercept_endpoint.go) when the sum comes out
-- as 65535.
use mutiauk.Base.{ℕ, ◌+◌, ◌≡◌, refl, ap, ◌∙◌, Bytes, [], ◌∷◌, ◌++◌, length, take, drop, replicate}
use mutiauk.Base.Words.{put_uint16}
use mutiauk.Stack.Checksum.{complement}
use mutiauk.Stack.Headers.{
  ipv6_minimum_size, udp_minimum_size, udp_protocol_number, Headers, Documented,
}
use mutiauk.Stack.Packets.{write_udp, write_ipv6, pseudo_ipv6, build_udpv6_response}
use mutiauk.Stack.Windows.{from-within}
use mutiauk.Stack.UdpSegments.{udp_front, segment_sum, write_udp_exact, write_ipv6-within}

field_of :
    (a b n c : ℕ) (payload : Bytes)
    → take 2 (drop 6 (udp_front a b n ++ put_uint16 c ++ payload)) ≡ put_uint16 c
unfolding put_uint16
field_of a b n c payload = refl

-- An IPv6 UDP response whose segment sums to 65535 before it has a checksum gets the checksum zero,
-- which IPv6 reserves for a missing one.
pub build_udpv6_response-zero :
    (h : Headers) (doc : Documented h) (src dst : Bytes) (src_port dst_port : ℕ) (payload : Bytes)
    → segment_sum h doc src_port dst_port payload (pseudo_ipv6 h udp_protocol_number src dst)
      ≡ 65535
    → take 2
        (drop 6 (drop ipv6_minimum_size (build_udpv6_response h src dst src_port dst_port payload)))
      ≡ 0 ∷ 0 ∷ []
unfolding build_udpv6_response put_uint16
build_udpv6_response-zero h doc src dst src_port dst_port payload e =
    let m = udp_minimum_size + length payload in
    let pseudo = pseudo_ipv6 h udp_protocol_number src dst in
    let header = write_ipv6 h m udp_protocol_number src dst in
    let parts =
      from-within ipv6_minimum_size m header (write_udp h src_port dst_port payload pseudo)
        (write_ipv6-within h doc m udp_protocol_number src dst) in
    let slice = drop ipv6_minimum_size (header (replicate (ipv6_minimum_size + m) 0)) in
    ap (λ s. take 2 (drop 6 s))
      (parts.1 ∙ write_udp_exact h doc src_port dst_port payload pseudo slice parts.0)
    ∙ ap (λ c. put_uint16 (complement c)) e
