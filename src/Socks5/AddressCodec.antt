-- ===== src/Socks5/AddressCodec.antt =====
-- MarshalBinary and ReadAddress against one another (internal/socks5/protocol.go).
use mutiauk.Base.{
  ℕ, ◌+◌, ◌<◌, ◌≡◌, refl, [], ◌∷◌, ◌++◌, Bytes, Text, length, take, drop, arith, length-append,
  take_append, drop_append,
}
use mathlib.Core.List.{append_assoc}
use mutiauk.Base.Conn.{ok}
use mutiauk.Base.Ip.{copy_to_all, to4_of_four, to16_of_sixteen}
use mutiauk.Base.Words.{put_uint16, read_uint16, read-put_uint16}
use mutiauk.Socks5.Address.{
  addr_type_ipv4, addr_type_domain, addr_type_ipv6, Address, AddrError, ipv4_too_short,
  ipv6_too_short, marshal_binary, read_ip, read_domain, read_address,
}

-- The addresses of RFC 1928, with their bounds.
pub data WireAddress : Type 0 where
  ipv4 : (ip : Bytes) (port : ℕ) → length ip ≡ 4 → port < 65536 → WireAddress
  ipv6 : (ip : Bytes) (port : ℕ) → length ip ≡ 16 → port < 65536 → WireAddress
  domain : (name : Text) (port : ℕ) → length name < 256 → port < 65536 → WireAddress

abbrev pub address : WireAddress → Address
address (ipv4 ip port _ _) = record {
  addr_type = addr_type_ipv4;
  ip = ip;
  domain = [];
  port = port;
}
address (ipv6 ip port _ _) = record {
  addr_type = addr_type_ipv6;
  ip = ip;
  domain = [];
  port = port;
}
address (domain name port _ _) = record {
  addr_type = addr_type_domain;
  ip = [];
  domain = name;
  port = port;
}

-- The layout of RFC 1928: ATYP, the address, the port in network order.
abbrev pub wire : WireAddress → Bytes
wire (ipv4 ip port _ _) = addr_type_ipv4 ∷ (ip ++ put_uint16 port)
wire (ipv6 ip port _ _) = addr_type_ipv6 ∷ (ip ++ put_uint16 port)
wire (domain name port _ _) = addr_type_domain ∷ length name ∷ (name ++ put_uint16 port)

-- MarshalBinary writes the layout of RFC 1928.
pub marshal_binary-wire : (w : WireAddress) → marshal_binary (address w) ≡ ok (wire w)
unfolding marshal_binary
marshal_binary-wire (ipv4 ip port h p) = rw (to4_of_four ip h, copy_to_all 4 ip h)
marshal_binary-wire (ipv6 ip port h p) = rw (to16_of_sixteen ip h, copy_to_all 16 ip h)
marshal_binary-wire (domain name port h p) = ground arith

pub port-back :
    (port : ℕ) (rest : Bytes) → port < 65536 → read_uint16 (put_uint16 port ++ rest) ≡ port
port-back port rest h = omega (arith, read-put_uint16 port rest)

pub length-put_uint16 : (port : ℕ) → length (put_uint16 port) ≡ 2
unfolding put_uint16
length-put_uint16 port = refl

-- The bytes behind the type byte, split at the port.
pub body_split :
    (bs rest : Bytes) (port : ℕ)
    → (length (bs ++ (put_uint16 port ++ rest)) ≡ length bs + 2 + length rest)
      × (take (length bs) (bs ++ (put_uint16 port ++ rest)) ≡ bs)
      × (drop (length bs) (bs ++ (put_uint16 port ++ rest)) ≡ put_uint16 port ++ rest)
body_split bs rest port = (
  omega (
    arith,
    length-append bs (put_uint16 port ++ rest),
    length-append (put_uint16 port) rest,
    length-put_uint16 port,
  ),
  take_append bs _,
  drop_append bs _,
)

read_ip-append :
    (t n port : ℕ) (e : AddrError) (ip rest : Bytes)
    → length ip ≡ n
    → port < 65536
    → read_ip t n e (ip ++ (put_uint16 port ++ rest))
      ≡ ok (record { addr_type = t; ip = ip; domain = []; port = port }, 1 + n + 2)
unfolding read_ip
read_ip-append t n port e ip rest h p =
    ground (arith, body_split ip rest port, port-back port rest p)

read_domain-append :
    (port : ℕ) (name : Text) (rest : Bytes)
    → port < 65536
    → read_domain (length name ∷ (name ++ (put_uint16 port ++ rest)))
      ≡ ok (
        record { addr_type = addr_type_domain; ip = []; domain = name; port = port },
        4 + length name,
      )
unfolding read_domain
read_domain-append port name rest p =
    ground (arith, body_split name rest port, port-back port rest p)

-- ReadAddress reads the layout of RFC 1928 back, whatever follows it, and says how long it was.
pub read_address-wire :
    (w : WireAddress) (rest : Bytes)
    → read_address (wire w ++ rest) ≡ ok (address w, length (wire w))
unfolding read_address
read_address-wire (ipv4 ip port h p) rest = rw append_assoc (
    ground (
      arith,
      read_ip-append addr_type_ipv4 4 port ipv4_too_short ip rest h p,
      length-append ip (put_uint16 port),
      length-put_uint16 port,
    ))
read_address-wire (ipv6 ip port h p) rest = rw append_assoc (
    ground (
      arith,
      read_ip-append addr_type_ipv6 16 port ipv6_too_short ip rest h p,
      length-append ip (put_uint16 port),
      length-put_uint16 port,
    ))
read_address-wire (domain name port h p) rest = rw append_assoc (
    ground (
      arith,
      read_domain-append port name rest p,
      length-append name (put_uint16 port),
      length-put_uint16 port,
    ))

-- For an IPv4 address of 4 bytes, an IPv6 address of 16 bytes or a domain of under 256 bytes, with a
-- 16-bit port, ReadAddress gives back the address that MarshalBinary encoded, whatever follows it,
-- and takes exactly the bytes that MarshalBinary wrote.
pub read_address-marshal_binary :
    (w : WireAddress) (bs rest : Bytes)
    → marshal_binary (address w) ≡ ok bs
    → read_address (bs ++ rest) ≡ ok (address w, length bs)
read_address-marshal_binary w bs rest h =
    ground (arith, marshal_binary-wire w, read_address-wire w rest)
