-- ===== src/Socks5/Address.antt =====
-- SOCKS5 addresses and their encoding (internal/socks5/protocol.go).
use mutiauk.Base.{
  ℕ, ◌+◌, Option, none, some, [], ◌∷◌, ◌++◌, ltb, ◌==◌, if◌then◌else◌, Bytes, Text, length, take,
  drop,
}
use mutiauk.Base.Conn.{Result, ok, err}
use mutiauk.Base.Ip.{to4, to16, or_nil, copy_to}
use mutiauk.Base.Words.{byte, uint16, put_uint16, read_uint16}

abbrev pub version : ℕ
version = 0x05

abbrev pub addr_type_ipv4 : ℕ
addr_type_ipv4 = 0x01

abbrev pub addr_type_domain : ℕ
addr_type_domain = 0x03

abbrev pub addr_type_ipv6 : ℕ
addr_type_ipv6 = 0x04

pub record Address : Type 0 where
  pub addr_type : ℕ
  pub ip : Bytes
  pub domain : Text
  pub port : ℕ

-- A net.UDPAddr; its port is an int.
pub record UdpAddr : Type 0 where
  pub ip : Bytes
  pub port : ℕ

-- net.IPv4zero, which Go stores in 16 bytes.
abbrev pub ipv4_zero : Bytes
ipv4_zero = 0 ∷ 0 ∷ 0 ∷ 0 ∷ 0 ∷ 0 ∷ 0 ∷ 0 ∷ 0 ∷ 0 ∷ 255 ∷ 255 ∷ 0 ∷ 0 ∷ 0 ∷ 0 ∷ []

unfoldable pub from_ip : UdpAddr → Option Bytes → Address
from_ip a (some ip4) = record {
  addr_type = addr_type_ipv4;
  ip = ip4;
  domain = [];
  port = uint16 a.port;
}
from_ip a none = record { addr_type = addr_type_ipv6; ip = a.ip; domain = []; port = uint16 a.port }

-- NewAddressFromUDPAddr. A nil address is `none`, a nil IP the empty one.
unfoldable pub new_address_from_udp_addr : Option UdpAddr → Address
new_address_from_udp_addr none = record {
  addr_type = addr_type_ipv4;
  ip = ipv4_zero;
  domain = [];
  port = 0;
}
new_address_from_udp_addr (some a) =
    if length a.ip == 0
    then record { addr_type = addr_type_ipv4; ip = ipv4_zero; domain = []; port = 0 }
    else from_ip a (to4 a.ip)

pub data AddrError : Type 0 where
  too_short ipv4_too_short ipv6_too_short no_domain_length domain_too_short : AddrError
  unknown_type : ℕ → AddrError

-- Address.MarshalBinary. The length byte of a domain is `byte(len(a.Domain))`.
unfoldable pub marshal_binary : Address → Result AddrError Bytes
unfolding to4 to16 copy_to put_uint16
marshal_binary a =
    if a.addr_type == addr_type_ipv4
    then ok (addr_type_ipv4 ∷ (copy_to 4 (or_nil (to4 a.ip)) ++ put_uint16 a.port))
    else (if a.addr_type == addr_type_ipv6
        then ok (addr_type_ipv6 ∷ (copy_to 16 (or_nil (to16 a.ip)) ++ put_uint16 a.port))
        else (if a.addr_type == addr_type_domain
            then ok (addr_type_domain ∷ byte (length a.domain) ∷ (a.domain ++ put_uint16 a.port))
            else err (unknown_type a.addr_type)))

-- The three cases of ReadAddress, on the slice behind the type byte; the checks on the length are
-- those of the source, less the type byte.
unfoldable pub read_ip : ℕ → ℕ → AddrError → Bytes → Result AddrError (Address × ℕ)
unfolding read_uint16
read_ip t n e body =
    if ltb (length body) (n + 2)
    then err e
    else ok (
      record { addr_type = t; ip = take n body; domain = []; port = read_uint16 (drop n body) },
      1 + n + 2,
    )

unfoldable pub read_domain : Bytes → Result AddrError (Address × ℕ)
unfolding read_uint16
read_domain [] = err no_domain_length
read_domain (domain_len ∷ body) =
    if ltb (length body) (domain_len + 2)
    then err domain_too_short
    else ok (
      record {
        addr_type = addr_type_domain;
        ip = [];
        domain = take domain_len body;
        port = read_uint16 (drop domain_len body);
      },
      4 + domain_len,
    )

-- ReadAddress: the address, and how many bytes it took.
unfoldable pub read_address : Bytes → Result AddrError (Address × ℕ)
read_address [] = err too_short
read_address (t ∷ body) =
    if t == addr_type_ipv4
    then read_ip t 4 ipv4_too_short body
    else (if t == addr_type_ipv6
        then read_ip t 16 ipv6_too_short body
        else (if t == addr_type_domain then read_domain body else err (unknown_type t)))
