-- ===== src/Stack/InterceptSamples.antt =====
-- Readers of headers by their layout, and the theorems about delivery at concrete inputs.
use mutiauk.Base.{
  zero, ◌≢◌, ℕ, suc, ◌+◌, ◌*◌, ◌/◌, ◌%◌, ◌≤◌, ◌<◌, ◌≡◌, refl, ap, true, ◌==◌, Bytes, [], ◌∷◌, ◌++◌,
  bytes, length, take, drop, replicate, get_or, get_or-take, arith,
}
use mutiauk.Stack.Intercept.{
  PacketBuffer, Delivery, Readers, NetworkProtocol, is_fragmented_ipv4, deliver_network_packet,
}
use mutiauk.Stack.Agreement.{Reads, ReadersDocumented, deliver_ipv4_agree}
use mutiauk.Stack.Agreement6.{Readers6Documented, deliver_ipv6_agree}
use mutiauk.Stack.Fragments.{seen_header, fragment_fate, deliver_fragment}

abbrev ping : Bytes
ping = bytes "ping!"

-- Methods that read a header by its layout.
abbrev byte_at : ℕ → Bytes → ℕ
byte_at i bs = get_or bs i 0

abbrev four_at : ℕ → Bytes → Bytes
four_at i bs = byte_at i bs ∷ byte_at (i + 1) bs ∷ byte_at (i + 2) bs ∷ byte_at (i + 3) bs ∷ []

abbrev two_at : ℕ → Bytes → ℕ
two_at i bs = byte_at i bs * 256 + byte_at (i + 1) bs

abbrev readers : Readers
readers = record {
  ipv4_protocol = byte_at 9;
  ipv4_header_length = λ bs. byte_at 0 bs % 16 * 4;
  ipv4_more = λ bs. byte_at 6 bs / 32 % 2 == 1;
  ipv4_fragment_offset = λ bs. two_at 6 bs % 8192;
  ipv4_source = four_at 12;
  ipv4_destination = four_at 16;
  ipv6_next_header = byte_at 6;
  ipv6_source = λ bs. take 16 (drop 8 bs);
  ipv6_destination = λ bs. take 16 (drop 24 bs);
  udp_source_port = two_at 0;
  udp_destination_port = two_at 2;
  icmpv4_type = byte_at 0;
  icmpv4_ident = two_at 4;
  icmpv4_sequence = two_at 6;
  icmpv6_type = byte_at 0;
  icmpv6_min = 8;
}

byte_at-Reads : (n i : ℕ) → i < n → Reads n (byte_at i)
byte_at-Reads n i l xs h = get_or-take n i xs 0 l

two_at-Reads : (n i : ℕ) → i + 1 < n → Reads n (two_at i)
two_at-Reads n i l xs h =
    rw (get_or-take n i xs 0 (omega arith)) (rw (get_or-take n (i + 1) xs 0 l) refl)

four_at-Reads : (n i : ℕ) → i + 3 < n → Reads n (four_at i)
four_at-Reads n i l xs h = rw (get_or-take n i xs 0 (omega arith)) (
    rw (get_or-take n (i + 1) xs 0 (omega arith))
      (rw (get_or-take n (i + 2) xs 0 (omega arith)) (rw (get_or-take n (i + 3) xs 0 l) refl)))

readers-documented : ReadersDocumented readers
readers-documented = record {
  protocol-Reads = byte_at-Reads 20 9 (omega arith);
  header_length-Reads = λ xs h. ap (λ b. b % 16 * 4) (byte_at-Reads 20 0 (omega arith) xs h);
  more-Reads = λ xs h. ap (λ b. b / 32 % 2 == 1) (byte_at-Reads 20 6 (omega arith) xs h);
  fragment_offset-Reads = λ xs h. ap (λ w. w % 8192) (two_at-Reads 20 6 (omega arith) xs h);
  source-Reads = four_at-Reads 20 12 (omega arith);
  destination-Reads = four_at-Reads 20 16 (omega arith);
  source_port-Reads = two_at-Reads 8 0 (omega arith);
  destination_port-Reads = two_at-Reads 8 2 (omega arith);
  type-Reads = byte_at-Reads 8 0 (omega arith);
  ident-Reads = two_at-Reads 8 4 (omega arith);
  sequence-Reads = two_at-Reads 8 6 (omega arith);
}

-- IPv4 headers of UDP packets: a whole datagram, and a fragment.
abbrev udp_header : ℕ → Bytes
udp_header flags =
    69 ∷ 0 ∷ 0 ∷ 33 ∷ 0 ∷ 0 ∷ flags ∷ 0 ∷ 64 ∷ 17 ∷ 0 ∷ 0 ∷ 10 ∷ 0 ∷ 0 ∷ 1 ∷ 1 ∷ 1 ∷ 1 ∷ 1 ∷ []

abbrev datagram : Bytes
datagram = 0 ∷ 53 ∷ 15 ∷ 160 ∷ 0 ∷ 13 ∷ 0 ∷ 0 ∷ ping

deliver_ipv4_agree_example :
    deliver_network_packet readers true true NetworkProtocol.ipv4
      (record { network_header = []; transport_header = []; contents = udp_header 0 ++ datagram })
    ≡ deliver_network_packet readers true true NetworkProtocol.ipv4 (record {
      network_header = udp_header 0;
      transport_header = take 8 datagram;
      contents = drop 8 datagram;
    })
deliver_ipv4_agree_example =
    deliver_ipv4_agree readers readers-documented true true (udp_header 0) datagram (omega arith)
      refl

abbrev fragment : PacketBuffer
fragment = record {
  network_header = [];
  transport_header = [];
  contents = udp_header 32 ++ datagram;
}

deliver_fragment_example :
    deliver_network_packet readers true true NetworkProtocol.ipv4 fragment
    ≡ fragment_fate readers true true (byte_at 9 (seen_header fragment)) (seen_header fragment)
unfolding is_fragmented_ipv4
deliver_fragment_example = deliver_fragment readers true true fragment (omega arith) refl

-- A window within a prefix is that of the whole.
take-window :
    (i k n : ℕ) (xs : Bytes) → i + k ≤ n → take k (drop i (take n xs)) ≡ take k (drop i xs)
take-window zero zero n xs h = refl
take-window zero (suc k) zero xs h = absurd (omega arith)
take-window zero (suc k) (suc n) [] h = refl
take-window zero (suc k) (suc n) (x ∷ xs) h = ap (◌∷◌ x) (take-window zero k n xs (omega arith))
take-window (suc i) k zero xs h = absurd (omega arith)
take-window (suc i) k (suc n) [] h = refl
take-window (suc i) k (suc n) (x ∷ xs) h = take-window i k n xs (omega arith)

window-Reads :
    (i : ℕ) (xs : Bytes)
    → 40 ≤ length xs
    → i + 16 ≤ 40
    → take 16 (drop i (take 40 xs)) ≡ take 16 (drop i xs)
window-Reads i xs h l = take-window i 16 40 xs l

readers6-documented : Readers6Documented readers
readers6-documented = record {
  next_header-Reads = byte_at-Reads 40 6 (omega arith);
  source-Reads = λ xs h. window-Reads 8 xs h (omega arith);
  destination-Reads = λ xs h. window-Reads 24 xs h (omega arith);
  type-Reads = byte_at-Reads 8 0 (omega arith);
  min_is_8 = refl;
}

-- An ICMPv6 echo request of 9 bytes behind its header.
abbrev header6 : Bytes
header6 = 96 ∷ 0 ∷ 0 ∷ 0 ∷ 0 ∷ 9 ∷ 58 ∷ 64 ∷ replicate 32 0

abbrev echo6 : Bytes
echo6 = 128 ∷ 0 ∷ 0 ∷ 0 ∷ 0 ∷ 1 ∷ 0 ∷ 2 ∷ 77 ∷ []

deliver_ipv6_agree_example :
    let raw =
      deliver_network_packet readers true true NetworkProtocol.ipv6
        (record { network_header = []; transport_header = []; contents = header6 ++ echo6 }) in
    (raw
      ≡ deliver_network_packet readers true true NetworkProtocol.ipv6 (record {
        network_header = header6;
        transport_header = take 8 echo6;
        contents = drop 8 echo6;
      }))
    × (raw ≢ Delivery.panicked)
deliver_ipv6_agree_example =
    deliver_ipv6_agree readers readers-documented readers6-documented true true header6 echo6 refl
