-- ===== src/Socks5/Samples.antt =====
-- Runs of the client's dialogue, and the theorems at concrete inputs.
use mutiauk.Base.{ℕ, ◌≡◌, ◌≢◌, refl, [], ◌∷◌, ◌++◌, Bytes, bytes, arith, replicate}
use mutiauk.Base.Conn.{Conn, ok, err}
use mutiauk.Socks5.Address.{AddrError, marshal_binary, read_address}
use mutiauk.Socks5.AddressCodec.{WireAddress, ipv4, domain, address, read_address-marshal_binary}
use mutiauk.Socks5.Malformed.{read_address_truncated, long_domain_lost, domain_address}
use mutiauk.Socks5.Client.{user_pass_auth, handshake, udp_send, udp_receive}
use mutiauk.Socks5.Handshake.{Reveals, handshake-Reveals}
use mutiauk.Socks5.Relay.{udp_receive-udp_send}

abbrev web : WireAddress
web = domain (bytes "a.mesh") 443 (omega arith) (omega arith)

abbrev web_bytes : Bytes
web_bytes = 3 ∷ 6 ∷ (bytes "a.mesh" ++ 1 ∷ 187 ∷ [])

web_marshals : marshal_binary (address web) ≡ ok web_bytes
unfolding marshal_binary
web_marshals = refl

read_address-marshal_binary_example : read_address (web_bytes ++ 9 ∷ []) ≡ ok (address web, 10)
read_address-marshal_binary_example =
    read_address-marshal_binary web web_bytes (9 ∷ []) web_marshals

abbrev loopback : WireAddress
loopback = ipv4 (127 ∷ 0 ∷ 0 ∷ 1 ∷ []) 80 refl (omega arith)

read_address_truncated_example :
    (e : AddrError) × (read_address (1 ∷ 127 ∷ 0 ∷ 0 ∷ 1 ∷ 0 ∷ []) ≡ err e)
unfolding marshal_binary
read_address_truncated_example =
    read_address_truncated loopback (1 ∷ 127 ∷ 0 ∷ 0 ∷ 1 ∷ 0 ∷ []) [] 80 refl

long_domain_lost_example :
    (bs : Bytes) × (marshal_binary (domain_address (replicate 300 b'a') 80) ≡ ok bs)
    × ((rest : Bytes) (n : ℕ)
        → read_address (bs ++ rest) ≢ ok (domain_address (replicate 300 b'a') 80, n))
long_domain_lost_example = long_domain_lost (replicate 300 b'a') 80 (omega arith)

abbrev server : Conn
server = record { input = 5 ∷ 2 ∷ 1 ∷ 0 ∷ 7 ∷ []; output = []; writes_left = 2 }

handshake-Reveals_example :
    Reveals server
      (bytes "ops")
      (bytes "pw")
      (handshake (user_pass_auth (bytes "ops") (bytes "pw")) server).1.output
handshake-Reveals_example = handshake-Reveals server (bytes "ops") (bytes "pw")

web_sent : udp_send (1 ∷ 2 ∷ []) (address web) ≡ ok (0 ∷ 0 ∷ 0 ∷ (web_bytes ++ 1 ∷ 2 ∷ []))
unfolding udp_send marshal_binary
web_sent = refl

udp_receive-udp_send_example :
    udp_receive (0 ∷ 0 ∷ 0 ∷ (web_bytes ++ 1 ∷ 2 ∷ [])) ≡ ok (1 ∷ 2 ∷ [], address web)
udp_receive-udp_send_example = udp_receive-udp_send web (1 ∷ 2 ∷ []) _ web_sent

abbrev echoes : Conn
echoes = record { input = 0 ∷ 1 ∷ 0 ∷ 7 ∷ 0 ∷ 2 ∷ 10 ∷ 11 ∷ 99 ∷ []; output = []; writes_left = 0 }
