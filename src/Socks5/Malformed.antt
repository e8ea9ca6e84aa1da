-- ===== src/Socks5/Malformed.antt =====
-- Addresses that are cut short, too long, or of no known type (internal/socks5/protocol.go).
use mutiauk.Base.{
  ◌⊎◌, inl, inr, ℕ, zero, suc, ◌+◌, ◌≤◌, ◌<◌, ◌≡◌, ◌≢◌, refl, ap, Option, none, some, [], ◌∷◌, ◌++◌,
  Bytes, Text, length, take, drop, arith, length-append, length-take-le,
}
use mathlib.Core.List.{append_assoc, append-nil}
use mutiauk.Base.Conn.{Result, ok, err}
use mutiauk.Base.Ip.{to4}
use mutiauk.Base.Words.{byte, put_uint16, read_uint16}
use mutiauk.Socks5.Address.{
  addr_type_ipv4, addr_type_domain, addr_type_ipv6, Address, UdpAddr, AddrError, ipv4_too_short,
  ipv6_too_short, marshal_binary, read_ip, read_domain, read_address, from_ip,
  new_address_from_udp_addr,
}
use mutiauk.Socks5.AddressCodec.{WireAddress, address, wire, read_address-wire}

-- What ReadAddress takes is there: it never claims more bytes than it was given, and at least 4.
pub read_address_bounds :
    (bs : Bytes) (a : Address) (n : ℕ) → read_address bs ≡ ok (a, n) → (n ≤ length bs) × (4 ≤ n)
unfolding read_address read_ip read_domain
read_address_bounds [] a n h = cc
read_address_bounds (t ∷ []) a n h = ground arith
read_address_bounds (t ∷ l ∷ body) a n h = ground arith

take-append-le : (n : ℕ) (xs ys : Bytes) → n ≤ length xs → take n (xs ++ ys) ≡ take n xs
take-append-le zero xs ys h = refl
take-append-le (suc n) [] ys h = absurd (omega arith)
take-append-le (suc n) (x ∷ xs) ys h = ap (◌∷◌ x) (take-append-le n xs ys (omega arith))

-- A word read at n is within the first n + 2 bytes.
word_at-append :
    (n : ℕ) (xs ys : Bytes)
    → n + 2 ≤ length xs
    → read_uint16 (drop n (xs ++ ys)) ≡ read_uint16 (drop n xs)
unfolding read_uint16
word_at-append zero [] ys h = absurd (omega arith)
word_at-append zero (x ∷ []) ys h = absurd (omega arith)
word_at-append zero (x ∷ y ∷ xs) ys h = refl
word_at-append (suc n) [] ys h = absurd (omega arith)
word_at-append (suc n) (x ∷ xs) ys h = word_at-append n xs ys (omega arith)

read_ip-more :
    (t n : ℕ) (e : AddrError) (bs more : Bytes) (a : Address) (m : ℕ)
    → read_ip t n e bs ≡ ok (a, m)
    → read_ip t n e (bs ++ more) ≡ ok (a, m)
unfolding read_ip
read_ip-more t n e bs more a m h =
    ground (arith, length-append bs more, take-append-le n bs more, word_at-append n bs more)

read_domain-more :
    (bs more : Bytes) (a : Address) (m : ℕ)
    → read_domain bs ≡ ok (a, m)
    → read_domain (bs ++ more) ≡ ok (a, m)
unfolding read_domain
read_domain-more [] more a m h = cc
read_domain-more (l ∷ bs) more a m h =
    ground (arith, length-append bs more, take-append-le l bs more, word_at-append l bs more)

-- Bytes behind an address do not change how it is read.
read_address-more :
    (bs more : Bytes) (a : Address) (m : ℕ)
    → read_address bs ≡ ok (a, m)
    → read_address (bs ++ more) ≡ ok (a, m)
unfolding read_address
read_address-more [] more a m h = cc
read_address-more (t ∷ bs) more a m h = ground (
  arith,
  read_ip-more t 4 ipv4_too_short bs more a m,
  read_ip-more t 16 ipv6_too_short bs more a m,
  read_domain-more bs more a m,
)

Result-cases {ℓ} :
    {E : Type 0} {A : Type ℓ} (r : Result E A) → ((e : E) × (r ≡ err e)) ⊎ ((x : A) × (r ≡ ok x))
Result-cases (err e) = inl (e, refl)
Result-cases (ok x) = inr (x, refl)

-- ReadAddress refuses every proper prefix of the RFC 1928 encoding of an IPv4 address of 4 bytes, an
-- IPv6 address of 16 bytes or a domain of under 256 bytes, with a 16-bit port.
pub read_address_truncated :
    (w : WireAddress) (front back : Bytes) (x : ℕ)
    → wire w ≡ front ++ x ∷ back
    → (e : AddrError) × (read_address front ≡ err e)
read_address_truncated w front back x h = elim (Result-cases (read_address front)) [
  | inl r ↦ r
  | inr ((a, n), r) ↦ absurd (
      ground (
        arith,
        whole,
        read_address-more front (x ∷ back) a n r,
        read_address_bounds front a n r,
        ap length h,
        length-append front (x ∷ back),
      ))
]
  where
    whole : read_address (wire w) ≡ ok (address w, length (wire w))
    whole = rw append-nil at (read_address-wire w [])

long_domain_misread :
    (name : Text) (port n : ℕ) (rest : Bytes)
    → 256 ≤ length name
    → read_domain (byte (length name) ∷ (name ++ (put_uint16 port ++ rest)))
      ≢ ok (record { addr_type = addr_type_domain; ip = []; domain = name; port = port }, n)
unfolding read_domain
long_domain_misread name port n rest h e =
    ground (arith, length-take-le (byte (length name)) (name ++ (put_uint16 port ++ rest)))

abbrev pub domain_address : Text → ℕ → Address
domain_address name port = record {
  addr_type = addr_type_domain;
  ip = [];
  domain = name;
  port = port;
}

-- A domain of 256 bytes or more is encoded without an error, and is never read back: its length
-- byte is the length modulo 256.
pub long_domain_lost :
    (name : Text) (port : ℕ)
    → 256 ≤ length name
    → (bs : Bytes) × (marshal_binary (domain_address name port) ≡ ok bs)
      × ((rest : Bytes) (n : ℕ) → read_address (bs ++ rest) ≢ ok (domain_address name port, n))
unfolding marshal_binary read_address
long_domain_lost name port h = (
  addr_type_domain ∷ byte (length name) ∷ (name ++ put_uint16 port),
  refl,
  λ rest n e. long_domain_misread name port n rest h (rw append_assoc at e),
)

from_ip_cases :
    (a : UdpAddr) (o : Option Bytes)
    → (((from_ip a o).addr_type ≡ addr_type_ipv4) × (o ≡ some (from_ip a o).ip))
      ⊎ (((from_ip a o).addr_type ≡ addr_type_ipv6) × (o ≡ none) × ((from_ip a o).ip ≡ a.ip))
unfolding from_ip
from_ip_cases a none = inr (refl, refl, refl)
from_ip_cases a (some ip) = inl (refl, refl)

-- The source address of a UDP socket always has the type of its IP: four bytes with IPv4, and if
-- not, the bytes of the socket's own IP, which is no IPv4 address in either form.
pub new_address_typed :
    (a : UdpAddr)
    → 0 < length a.ip
    → (((new_address_from_udp_addr (some a)).addr_type ≡ addr_type_ipv4)
        × (to4 a.ip ≡ some (new_address_from_udp_addr (some a)).ip))
      ⊎ (((new_address_from_udp_addr (some a)).addr_type ≡ addr_type_ipv6)
          × (to4 a.ip ≡ none)
          × ((new_address_from_udp_addr (some a)).ip ≡ a.ip))
unfolding new_address_from_udp_addr
new_address_typed a h = ground (arith, from_ip_cases a (to4 a.ip))
