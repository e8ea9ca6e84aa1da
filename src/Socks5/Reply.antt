-- ===== src/Socks5/Reply.antt =====
-- The reply of the proxy, and the request that it answers.
use mutiauk.Base.{
  ℕ, ◌+◌, ◌<◌, ◌≡◌, ◌≢◌, refl, ap, ◌∙◌, [], ◌∷◌, ◌++◌, Bytes, length, arith, take_append,
  drop_append, length-append,
}
use mathlib.Core.List.{append_assoc, append-nil}
use mutiauk.Base.Conn.{Conn, ok, err, read_full, read_full-append}
use mutiauk.Base.Words.{put_uint16, read_uint16}
use mutiauk.Socks5.Address.{version, addr_type_ipv4, addr_type_ipv6, addr_type_domain}
use mutiauk.Socks5.AddressCodec.{
  length-put_uint16, WireAddress, ipv4, ipv6, domain, address, wire, port-back,
}
use mutiauk.Socks5.Client.{
  ClientError, refused, read_header_failed, read_ip_failed, read_length_failed, read_domain_failed,
  read_reply_ip, read_reply_domain, read_reply,
}

-- The address part of a reply, read off a connection.
read_body :
    (c : Conn) (bs rest : Bytes) (port : ℕ) (e : ClientError)
    → c.input ≡ bs ++ (put_uint16 port ++ rest)
    → read_full e (length bs + 2) c ≡ (ok (bs ++ put_uint16 port), record c { input = rest })
read_body c bs rest port e h =
    read_full-append e (length bs + 2) (bs ++ put_uint16 port) rest c
      (omega (arith, length-append bs (put_uint16 port), length-put_uint16 port))
      (h ∙ rw append_assoc)

port-last : (port : ℕ) → port < 65536 → read_uint16 (put_uint16 port) ≡ port
port-last port h = rw append-nil at (port-back port [] h)

read_reply_ip_lem :
    (c : Conn) (t n port : ℕ) (ip rest : Bytes)
    → length ip ≡ n
    → port < 65536
    → c.input ≡ ip ++ (put_uint16 port ++ rest)
    → read_reply_ip t n c ≡ (
      ok (record { addr_type = t; ip = ip; domain = []; port = port }),
      record c { input = rest },
    )
unfolding read_reply_ip
read_reply_ip_lem c t n port ip rest hn hp hi = ground (
  arith,
  read_body c ip rest port read_ip_failed hi,
  take_append ip (put_uint16 port),
  drop_append ip (put_uint16 port),
  port-last port hp,
)

read_reply_domain_lem :
    (c : Conn) (port : ℕ) (name rest : Bytes)
    → port < 65536
    → c.input ≡ length name ∷ (name ++ (put_uint16 port ++ rest))
    → read_reply_domain c ≡ (
      ok (record { addr_type = addr_type_domain; ip = []; domain = name; port = port }),
      record c { input = rest },
    )
unfolding read_reply_domain
read_reply_domain_lem c port name rest hp hi = ground (
  arith,
  read_full-append read_length_failed 1 (length name ∷ []) (name ++ (put_uint16 port ++ rest)) c
      refl hi,
  read_body (record c { input = name ++ (put_uint16 port ++ rest) }) name rest port
      read_domain_failed refl,
  take_append name (put_uint16 port),
  drop_append name (put_uint16 port),
  port-last port hp,
)

-- A reply that reports success is read to its end and no further: the client gets the bound
-- address, and what the proxy sends behind it stays on the connection.
pub read_reply-wire :
    (w : WireAddress) (c : Conn) (rsv : ℕ) (rest : Bytes)
    → c.input ≡ version ∷ 0 ∷ rsv ∷ (wire w ++ rest)
    → read_reply c ≡ (ok (address w), record c { input = rest })
unfolding read_reply
read_reply-wire (ipv4 ip port h p) c rsv rest hi = ground (
  arith,
  read_full-append read_header_failed 4 (version ∷ 0 ∷ rsv ∷ addr_type_ipv4 ∷ [])
      ((ip ++ put_uint16 port) ++ rest) c refl hi,
  read_reply_ip_lem (record c { input = (ip ++ put_uint16 port) ++ rest }) addr_type_ipv4 4 port ip
      rest h p (append_assoc ip (put_uint16 port) rest),
)
read_reply-wire (ipv6 ip port h p) c rsv rest hi = ground (
  arith,
  read_full-append read_header_failed 4 (version ∷ 0 ∷ rsv ∷ addr_type_ipv6 ∷ [])
      ((ip ++ put_uint16 port) ++ rest) c refl hi,
  read_reply_ip_lem (record c { input = (ip ++ put_uint16 port) ++ rest }) addr_type_ipv6 16 port ip
      rest h p (append_assoc ip (put_uint16 port) rest),
)
read_reply-wire (domain name port h p) c rsv rest hi = ground (
  arith,
  read_full-append read_header_failed 4 (version ∷ 0 ∷ rsv ∷ addr_type_domain ∷ [])
      (length name ∷ (name ++ put_uint16 port) ++ rest) c refl hi,
  read_reply_domain_lem (record c { input = length name ∷ (name ++ put_uint16 port) ++ rest }) port
      name rest p (ap (◌∷◌ (length name)) (append_assoc name (put_uint16 port) rest)),
)

-- A reply with another code is an error that carries the code.
pub read_reply_refused :
    (c : Conn) (code rsv t : ℕ) (rest : Bytes)
    → code ≢ 0
    → c.input ≡ version ∷ code ∷ rsv ∷ t ∷ rest
    → read_reply c ≡ (err (refused code), record c { input = rest })
unfolding read_reply read_full
read_reply_refused c code rsv t rest h hi = ground arith
