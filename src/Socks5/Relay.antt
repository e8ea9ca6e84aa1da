-- ===== src/Socks5/Relay.antt =====
-- UDP datagrams and ICMP echoes through the proxy (UDPRelay and ICMPRelay of client.go).
use mutiauk.Base.{
  ℕ, suc, ◌+◌, ◌≤◌, ◌<◌, ◌≡◌, refl, [], ◌∷◌, ◌++◌, Bytes, length, drop, arith, drop_append,
  length-drop,
}
use mutiauk.Base.Conn.{Conn, Result, ok, err, read_full, read_full-append}
use mutiauk.Base.Words.{put_uint16, read_uint16}
use mutiauk.Socks5.Address.{Address, AddrError, read_address}
use mutiauk.Socks5.AddressCodec.{
  WireAddress, address, wire, port-back, marshal_binary-wire, read_address-wire,
}
use mutiauk.Socks5.Malformed.{read_address_bounds}
use mutiauk.Socks5.Client.{
  echo_failed, udp_send, strip_source, udp_receive, echo_frame, receive_echo,
}

-- A datagram that one client sends is what another receives, the payload and the target as the
-- source address, if the target is an IPv4 address of 4 bytes, an IPv6 address of 16 bytes or a
-- domain of under 256 bytes, with a 16-bit port.
pub udp_receive-udp_send :
    (w : WireAddress) (payload packet : Bytes)
    → udp_send payload (address w) ≡ ok packet
    → udp_receive packet ≡ ok (payload, address w)
unfolding udp_send udp_receive
udp_receive-udp_send w payload packet h = ground (
  arith,
  marshal_binary-wire w,
  read_address-wire w payload,
  read_address_bounds (wire w ++ payload) (address w) (length (wire w)),
  drop_append (wire w) payload,
)

strip_source_shorter :
    (body payload : Bytes) (a : Address) (r : Result AddrError (Address × ℕ))
    → read_address body ≡ r
    → strip_source body r ≡ ok (payload, a)
    → length payload + 4 ≤ length body
unfolding strip_source
strip_source_shorter body payload a (err e) h s = cc
strip_source_shorter body payload a (ok (b, n)) h s =
    ground (arith, read_address_bounds body b n h, length-drop n body)

-- What Receive leaves is at least seven bytes shorter than what it was given.
pub udp_receive_shorter :
    (packet payload : Bytes) (a : Address)
    → udp_receive packet ≡ ok (payload, a)
    → length payload + 7 ≤ length packet
unfolding udp_receive
udp_receive_shorter packet payload a h = ground (
  arith,
  strip_source_shorter (drop 3 packet) payload a (read_address (drop 3 packet)) refl,
  length-drop 3 packet,
)

abbrev echo_header : ℕ → ℕ → ℕ → Bytes
echo_header id seq n = put_uint16 id ++ (put_uint16 seq ++ put_uint16 n)

seq-back : (id seq n : ℕ) → seq < 65536 → read_uint16 (drop 2 (echo_header id seq n)) ≡ seq
unfolding put_uint16
seq-back id seq n h = port-back seq (put_uint16 n) h

len-back : (id seq n : ℕ) → n < 65536 → read_uint16 (drop 4 (echo_header id seq n)) ≡ n
unfolding put_uint16
len-back id seq n h = port-back n [] h

read_echo_header :
    (id seq : ℕ) (payload rest : Bytes) (c : Conn)
    → c.input ≡ echo_frame id seq payload ++ rest
    → read_full echo_failed 6 c
      ≡ (ok (echo_header id seq (length payload)), record c { input = payload ++ rest })
unfolding echo_frame
read_echo_header id seq payload rest c h =
    read_full-append echo_failed 6 (echo_header id seq (length payload)) (payload ++ rest) c refl h

-- An echo frame that is read back gives its payload and sequence number, and leaves what follows.
pub receive_echo-echo_frame :
    (id seq : ℕ) (payload rest : Bytes) (c : Conn)
    → seq < 65536
    → length payload < 65536
    → c.input ≡ echo_frame id seq payload ++ rest
    → receive_echo c ≡ (ok (payload, seq), record c { input = rest })
unfolding receive_echo
receive_echo-echo_frame id seq [] rest c hs hp hi = ground (
  arith,
  read_echo_header id seq [] rest c hi,
  seq-back id seq 0 hs,
  len-back id seq 0 (omega arith),
)
receive_echo-echo_frame id seq (x ∷ xs) rest c hs hp hi = ground (
  arith,
  read_echo_header id seq (x ∷ xs) rest c hi,
  seq-back id seq (suc (length xs)) hs,
  len-back id seq (suc (length xs)) hp,
  read_full-append echo_failed (suc (length xs)) (x ∷ xs) rest (record c { input = x ∷ xs ++ rest })
      refl refl,
)
