-- ===== src/Stack/Samples.antt =====
-- Headers of a simple packet library, and the theorems about packets at concrete inputs.
use mutiauk.Base.{
  ℕ, suc, ◌+◌, ◌%◌, ◌<◌, ◌≡◌, refl, sym, ap, ◌∙◌, Bytes, [], ◌∷◌, ◌++◌, bytes, take, drop,
  replicate, take_append, drop_append, append_assoc, arith,
}
use mutiauk.Base.Words.{put_uint16}
use mutiauk.Base.Ip.{to16}
use mutiauk.Stack.Checksum.{checksum, complement, sum_words, fold_carries}
use mutiauk.Stack.ChecksumExact.{ones_complement, word_sum, checksum_exact, checksum_verifies}
use mutiauk.Stack.Headers.{
  ipv6_minimum_size, udp_protocol_number, IcmpSetters, Headers, WritesWithin, WritesField,
  IcmpDocumented, Documented,
}
use mutiauk.Stack.Packets.{pseudo_ipv6, build_udpv6_response}
use mutiauk.Stack.UdpSegments.{segment_sum}
use mutiauk.Stack.UdpZero.{build_udpv6_response-zero}
use mutiauk.Stack.Agreement.{drop-append_add}

-- Writers of one byte and of a 16-bit field.
abbrev set_first : ℕ → Bytes → Bytes
set_first v [] = []
set_first v (b ∷ bs) = v ∷ bs

abbrev set_second : ℕ → Bytes → Bytes
set_second v [] = []
set_second v (b ∷ bs) = b ∷ set_first v bs

abbrev set_field : ℕ → ℕ → Bytes → Bytes
set_field n v buf = take n buf ++ put_uint16 v ++ drop (n + 2) buf

set_field-writes : (n : ℕ) → WritesField n (set_field n)
set_field-writes n v xs old rest e e' =
    let behind : drop (n + 2) (xs ++ (old ++ rest)) ≡ rest =
      ap (λ k. drop (k + 2) (xs ++ (old ++ rest))) (sym e)
      ∙ drop-append_add xs (old ++ rest) 2
      ∙ ap (λ k. drop k (old ++ rest)) (sym e')
      ∙ drop_append old rest in
    let front : take n (xs ++ (old ++ rest)) ≡ xs =
      ap (λ k. take k (xs ++ (old ++ rest))) (sym e) ∙ take_append xs (old ++ rest) in
    rw (append_assoc xs old rest) (rw front (rw behind refl))

set_first-within : (v n : ℕ) → v < 256 → WritesWithin (suc n) (set_first v)
set_first-within v n l [] h = absurd (omega arith)
set_first-within v n l (b ∷ bs) h = (refl, refl, λ all. (l, all.1))

abbrev setters : IcmpSetters
setters = record { set_type = set_first; set_code = set_second; set_icmp_checksum = set_field 2 }

setters-documented : IcmpDocumented setters
setters-documented = record {
  set_type-writes = λ t a rest. refl;
  set_code-writes = λ c a b rest. refl;
  set_icmp_checksum-writes = set_field-writes 2;
}

abbrev headers : Headers
headers = record {
  ipv4_encode = λ f. set_first 69;
  ipv4_checksum = λ buf. checksum (take 20 buf) 0;
  ipv4_set_checksum = λ n. set_first 69;
  ipv6_encode = λ f. set_first 96;
  udp_encode = λ f buf.
      (put_uint16 f.src_port ++ put_uint16 f.dst_port ++ put_uint16 f.udp_length)
      ++ put_uint16 0
      ++ drop 8 buf;
  udp_set_checksum = set_field 6;
  icmpv4 = setters;
  icmpv6 = setters;
  set_ident = set_field 4;
  set_sequence = set_field 6;
  pseudo_header_checksum = λ p a b n. checksum (a ++ b) n % 65536;
  icmpv6_minimum_size = 8;
}

headers-documented : Documented headers
headers-documented = record {
  ipv4_encode-within = λ f. set_first-within 69 19 (omega arith);
  ipv4_set_checksum-within = λ n. set_first-within 69 19 (omega arith);
  ipv6_encode-within = λ f. set_first-within 96 39 (omega arith);
  udp_encode-writes = λ f old rest e.
      ap
        (λ t.
          (put_uint16 f.src_port ++ put_uint16 f.dst_port ++ put_uint16 f.udp_length)
          ++ put_uint16 0
          ++ t)
        (ap (λ k. drop k (old ++ rest)) (sym e) ∙ drop_append old rest);
  udp_set_checksum-writes = set_field-writes 6;
  icmpv4-documented = setters-documented;
  icmpv6-documented = setters-documented;
  set_ident-writes = set_field-writes 4;
  set_sequence-writes = set_field-writes 6;
  pseudo_header_checksum-lt = λ p a b n. omega arith;
}

abbrev here : Bytes
here = 10 ∷ 0 ∷ 0 ∷ 1 ∷ []

abbrev there : Bytes
there = 1 ∷ 1 ∷ 1 ∷ 1 ∷ []

abbrev here6 : Bytes
here6 = replicate 15 0 ++ 1 ∷ []

abbrev ping : Bytes
ping = bytes "ping!"

checksum_exact_example :
    (checksum ping 7 ≡ ones_complement (7 + word_sum ping))
    × (fold_carries (suc (suc 3)) (sum_words 7 ping) ≡ checksum ping 7)
checksum_exact_example = checksum_exact ping 7 3 (omega arith) (omega arith) (omega arith)

checksum_verifies_example :
    checksum
      (there ++ put_uint16 (complement (checksum (there ++ put_uint16 0 ++ ping) 7)) ++ ping)
      7
    ≡ 65535
checksum_verifies_example =
    checksum_verifies 2 there ping 7 refl (omega arith) (omega arith) (omega arith) (omega arith)

-- The ports make up for the rest of the sum.
quiet : Bytes
quiet = replicate 16 0

zero_sum :
    segment_sum headers headers-documented 65519 0 []
      (pseudo_ipv6 headers udp_protocol_number quiet quiet)
    ≡ 65535
unfolding quiet checksum sum_words fold_carries pseudo_ipv6 to16 put_uint16
zero_sum = refl

build_udpv6_response-zero_example :
    take 2 (drop 6 (drop ipv6_minimum_size (build_udpv6_response headers quiet quiet 65519 0 [])))
    ≡ 0 ∷ 0 ∷ []
build_udpv6_response-zero_example =
    build_udpv6_response-zero headers headers-documented quiet quiet 65519 0 [] zero_sum
