-- ===== src/Stack/IcmpMessages.antt =====
-- The ICMP messages of internal/stack/intercept_endpoint.go as their receiver reads them.
use mutiauk.Base.{
  ℕ, suc, zero, ◌+◌, ◌≤◌, ◌<◌, ◌≡◌, refl, sym, ap, ◌∙◌, Bytes, [], ◌∷◌, ◌++◌, length, take, drop,
  replicate, arith, All,
}
use mathlib.Core.Path.{subst}
use mutiauk.Base.Words.{put_uint16, IsByte, uint16}
use mutiauk.Stack.Checksum.{checksum, complement}
use mutiauk.Stack.ChecksumExact.{
  checksum_verifies, put_uint16-IsByte, length-put_uint16, All-append,
}
use mutiauk.Stack.Headers.{
  ipv4_minimum_size, ipv6_minimum_size, icmpv4_minimum_size, icmpv6_echo_minimum_size,
  icmpv4_protocol_number, icmpv6_protocol_number, Headers, Documented, WritesWithin, IcmpSetters,
  IcmpDocumented,
}
use mutiauk.Stack.Packets.{
  from, overwrite, ident_and_sequence, write_echo4, write_echo6, pseudo_ipv6, echo_packet4,
  echo_packet6,
}
use mutiauk.Stack.Windows.{overwrite_all, overwrite_nothing, from-zeros, length-replicate}
use mutiauk.Stack.UdpSegments.{write_ipv4-within, write_ipv6-within}

-- A message of a type and a code with a body, whose checksum comes out as 65535 together with the
-- sum of the addresses.
abbrev pub Message : ℕ → ℕ → Bytes → ℕ → Bytes → Type 0
Message type code body pseudo r =
    (take 2 r ≡ type ∷ code ∷ [])
    × (drop 4 r ≡ body)
    × (checksum r pseudo ≡ 65535)
    × (length r ≡ 4 + length body)
    × All IsByte r

-- A message without its checksum.
abbrev pub unsealed : ℕ → ℕ → Bytes → Bytes
unsealed type code body = (type ∷ code ∷ []) ++ put_uint16 0 ++ body

pub head-field :
    (type code c : ℕ) (body : Bytes)
    → (take 2 ((type ∷ code ∷ []) ++ put_uint16 c ++ body) ≡ type ∷ code ∷ [])
      × (drop 4 ((type ∷ code ∷ []) ++ put_uint16 c ++ body) ≡ body)
      × (length ((type ∷ code ∷ []) ++ put_uint16 c ++ body) ≡ 4 + length body)
unfolding put_uint16
head-field type code c body = (refl, refl, omega arith)

-- The checksum makes a message of a header with a zero checksum and a body.
pub sealed-Message :
    (s : IcmpSetters) (doc : IcmpDocumented s) (type code pseudo : ℕ) (body filled : Bytes)
    → filled ≡ unsealed type code body
    → type < 256
    → code < 256
    → All IsByte body
    → length body ≤ 131066
    → pseudo < 65536
    → Message type code body pseudo
        (s.set_icmp_checksum (complement (checksum filled pseudo)) filled)
sealed-Message s doc type code pseudo body filled e ht hc hb hl hp =
    let front = type ∷ code ∷ [] in
    let c = complement (checksum (front ++ put_uint16 0 ++ body) pseudo) in
    let fields = head-field type code c body in
    let bytes : All IsByte front = omega arith in
    rw e (
      rw (doc.set_icmp_checksum-writes c front (put_uint16 0) body refl (length-put_uint16 0)) (
        fields.0,
        fields.1,
        checksum_verifies 1 front body pseudo refl bytes hb hp (omega arith),
        fields.2,
        All-append IsByte (front ++ put_uint16 c) body
            (All-append IsByte front (put_uint16 c) bytes (put_uint16-IsByte c)) hb,
      ))

pub replicate_add : (n m : ℕ) → replicate (n + m) zero ≡ replicate n zero ++ replicate m zero
replicate_add zero m = ap (λ k. replicate k zero) (omega arith)
replicate_add (suc n) m =
    let e : suc n + m ≡ suc (n + m) = omega arith in
    ap (λ k. replicate k zero) e ∙ ap (◌∷◌ zero) (replicate_add n m)

-- The body of an echo.
abbrev pub echo_body : ℕ → ℕ → Bytes → Bytes
echo_body id seq payload = put_uint16 id ++ put_uint16 seq ++ payload

echo_body-IsByte :
    (id seq : ℕ) (payload : Bytes) → All IsByte payload → All IsByte (echo_body id seq payload)
echo_body-IsByte id seq payload h =
    All-append IsByte (put_uint16 id ++ put_uint16 seq) payload
      (All-append IsByte (put_uint16 id) (put_uint16 seq) (put_uint16-IsByte id)
        (put_uint16-IsByte seq))
      h

pub length-echo_body :
    (id seq : ℕ) (payload : Bytes) → length (echo_body id seq payload) ≡ 4 + length payload
unfolding put_uint16
length-echo_body id seq payload = omega arith

module _ (h : Headers) (doc : Documented h) where
  write_echo4_filled :
      (type id seq : ℕ) (payload : Bytes)
      → from icmpv4_minimum_size
          (λ dst. overwrite dst payload)
          (h.set_sequence seq (
            h.set_ident id (
              h.icmpv4.set_code 0
                (h.icmpv4.set_type type (replicate (icmpv4_minimum_size + length payload) 0)))))
        ≡ unsealed type 0 (echo_body id seq payload)
  unfolding put_uint16
  write_echo4_filled type id seq payload =
      let z = replicate (length payload) 0 in
      let d = doc.icmpv4-documented in
      let zeros = replicate_add icmpv4_minimum_size (length payload) in
      let typed =
        ap (h.icmpv4.set_type type) zeros ∙ d.set_type-writes type 0 (replicate 7 0 ++ z) in
      let coded =
        ap (h.icmpv4.set_code 0) typed ∙ d.set_code-writes 0 type 0 (replicate 6 0 ++ z) in
      let identified =
        ap (h.set_ident id) coded
        ∙ doc.set_ident-writes id (type ∷ 0 ∷ 0 ∷ 0 ∷ []) (0 ∷ 0 ∷ []) (0 ∷ 0 ∷ z) refl refl in
      let numbered =
        ap (h.set_sequence seq) identified
        ∙ doc.set_sequence-writes seq ((type ∷ 0 ∷ 0 ∷ 0 ∷ []) ++ put_uint16 id) (0 ∷ 0 ∷ []) z refl
            refl in
      ap (from icmpv4_minimum_size (λ dst. overwrite dst payload)) numbered
      ∙ ap (λ t. unsealed type 0 (echo_body id seq t))
          (overwrite_all z payload (sym (length-replicate (length payload))))

  write_echo6_filled :
      (type id seq : ℕ) (payload : Bytes)
      → from icmpv6_echo_minimum_size
          (λ dst. overwrite dst payload)
          (from 4
            (λ dst. overwrite dst (ident_and_sequence id seq))
            (h.icmpv6.set_code 0
              (h.icmpv6.set_type type (replicate (icmpv6_echo_minimum_size + length payload) 0))))
        ≡ unsealed type 0 (echo_body id seq payload)
  unfolding put_uint16
  write_echo6_filled type id seq payload =
      let z = replicate (length payload) 0 in
      let d = doc.icmpv6-documented in
      let zeros = replicate_add icmpv6_echo_minimum_size (length payload) in
      let typed =
        ap (h.icmpv6.set_type type) zeros ∙ d.set_type-writes type 0 (replicate 7 0 ++ z) in
      let coded =
        ap (h.icmpv6.set_code 0) typed ∙ d.set_code-writes 0 type 0 (replicate 6 0 ++ z) in
      ap
        (λ t.
          from icmpv6_echo_minimum_size (λ dst. overwrite dst payload)
            (from 4 (λ dst. overwrite dst (ident_and_sequence id seq)) t))
        coded
      ∙ ap (λ t. unsealed type 0 (echo_body id seq (overwrite t payload))) (overwrite_nothing z)
      ∙ ap (λ t. unsealed type 0 (echo_body id seq t))
          (overwrite_all z payload (sym (length-replicate (length payload))))

  -- A packet with an IP header of n bytes and a message behind it.
  abbrev pub Packet : ℕ → ℕ → ℕ → Bytes → ℕ → Bytes → Type 0
  Packet n type code body pseudo r =
      (length r ≡ n + (4 + length body)) × Message type code body pseudo (drop n r) × All IsByte r

  -- A message that is written behind a header into a fresh packet.
  pub from-Packet :
      (n m type code pseudo : ℕ) (body : Bytes) (header f : Bytes → Bytes)
      → WritesWithin n header
      → Message type code body pseudo (f (replicate m 0))
      → Packet n type code body pseudo (from n f (header (replicate (n + m) 0)))
  from-Packet n m type code pseudo body header f w good =
      let parts = from-zeros n m header f w in
      (parts.1 ∙ ap (λ k. n + k) good.3, rw parts.0 good, parts.2 good.4)

  pub echo_packet4-Packet :
      (type id seq : ℕ) (src dst payload : Bytes)
      → type < 256
      → 8 + length payload < 65536
      → All IsByte payload
      → Packet ipv4_minimum_size type 0
          (echo_body id seq payload)
          0
          (echo_packet4 h type src dst id seq payload)
  unfolding echo_packet4 write_echo4
  echo_packet4-Packet type id seq src dst payload ht hl hb =
      from-Packet ipv4_minimum_size (icmpv4_minimum_size + length payload) type 0 0
        (echo_body id seq payload) _ (write_echo4 h type id seq payload)
        (write_ipv4-within h doc _ icmpv4_protocol_number src dst)
        (sealed-Message h.icmpv4 doc.icmpv4-documented type 0 0 (echo_body id seq payload) _
          (write_echo4_filled type id seq payload) ht (omega arith)
          (echo_body-IsByte id seq payload hb) (omega (arith, length-echo_body id seq payload))
          (omega arith))

  pub echo_packet6-Packet :
      (type id seq : ℕ) (src dst payload : Bytes)
      → type < 256
      → 8 + length payload < 65536
      → All IsByte payload
      → Packet ipv6_minimum_size type 0
          (echo_body id seq payload)
          (pseudo_ipv6 h icmpv6_protocol_number src dst (8 + length payload))
          (echo_packet6 h type src dst id seq payload)
  unfolding echo_packet6 write_echo6 pseudo_ipv6
  echo_packet6-Packet type id seq src dst payload ht hl hb =
      let n = icmpv6_echo_minimum_size + length payload in
      let sum = pseudo_ipv6 h icmpv6_protocol_number src dst in
      let small : uint16 n ≡ n = omega arith in
      subst
        (λ k.
          Packet ipv6_minimum_size type 0 (echo_body id seq payload) (sum k)
            (echo_packet6 h type src dst id seq payload))
        small
        (from-Packet ipv6_minimum_size n type 0 (sum (uint16 n)) (echo_body id seq payload) _
          (write_echo6 h type id seq payload sum)
          (write_ipv6-within h doc n icmpv6_protocol_number src dst)
          (sealed-Message h.icmpv6 doc.icmpv6-documented type 0 (sum (uint16 n))
            (echo_body id seq payload) _ (write_echo6_filled type id seq payload) ht (omega arith)
            (echo_body-IsByte id seq payload hb) (omega (arith, length-echo_body id seq payload))
            (doc.pseudo_header_checksum-lt _ _ _ _)))
