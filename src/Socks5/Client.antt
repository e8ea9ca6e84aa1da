-- ===== src/Socks5/Client.antt =====
-- The client's dialogue with the proxy (internal/socks5/client.go and auth.go), over a connection.
-- Deadlines, dialling and the wrapping of error texts are left out; an error names its place.
use mutiauk.Base.{
  ℕ, ◌+◌, ◌||◌, ◌&&◌, not, [], ◌∷◌, ◌++◌, ltb, ◌==◌, if◌then◌else◌, Bytes, Text, length, get_or,
  take, drop,
}
use mutiauk.Base.Conn.{Result, ok, err, Io, ◌>>=◌, ◌>>◌, return, throw, write, read_full}
use mutiauk.Base.Words.{byte, put_uint16, read_uint16}
use mutiauk.Socks5.Address.{
  version, addr_type_ipv4, addr_type_domain, addr_type_ipv6, Address, AddrError, marshal_binary,
  read_address,
}

abbrev pub auth_none : ℕ
auth_none = 0x00

abbrev pub auth_password : ℕ
auth_password = 0x02

abbrev pub auth_no_accept : ℕ
auth_no_accept = 0xFF

abbrev pub reply_succeeded : ℕ
reply_succeeded = 0x00

pub data Authenticator : Type 0 where
  no_auth : Authenticator
  user_pass_auth : (username password : Text) → Authenticator

pub data ClientError : Type 0 where
  credentials_too_long send_auth_failed read_auth_failed : ClientError
  auth_failed : (status : ℕ) → ClientError
  send_methods_failed read_method_failed no_acceptable_method : ClientError
  bad_version bad_method : ℕ → ClientError
  bad_address : AddrError → ClientError
  send_request_failed read_header_failed read_ip_failed read_length_failed read_domain_failed :
      ClientError
  bad_reply_version unknown_addr_type : ℕ → ClientError
  refused : (code : ℕ) → ClientError
  echo_failed : ClientError

-- NewAuthenticator.
unfoldable pub new_authenticator : Text → Text → Authenticator
new_authenticator username password =
    if length username == 0 && length password == 0
    then no_auth
    else user_pass_auth username password

unfoldable pub method : Authenticator → ℕ
method no_auth = auth_none
method (user_pass_auth _ _) = auth_password

-- The request of RFC 1929.
unfoldable pub auth_request : Text → Text → Bytes
auth_request username password =
    0x01 ∷ byte (length username) ∷ (username ++ byte (length password) ∷ password)

unfoldable pub authenticate : Authenticator → Io ClientError (Unit {0})
unfolding auth_request write read_full
authenticate no_auth = return tt
authenticate (user_pass_auth username password) =
    if ltb 255 (length username) || ltb 255 (length password)
    then throw credentials_too_long
    else (do
      write send_auth_failed (auth_request username password)
      resp ← read_full read_auth_failed 2
      if get_or resp 1 0 == 0x00 then return tt else throw (auth_failed (get_or resp 1 0)))

-- Client.handshake.
unfoldable pub handshake : Authenticator → Io ClientError (Unit {0})
unfolding method write read_full
handshake auth = do
  write send_methods_failed (version ∷ 1 ∷ method auth ∷ [])
  resp ← read_full read_method_failed 2
  if not (get_or resp 0 0 == version)
      then throw (bad_version (get_or resp 0 0))
      else (if get_or resp 1 0 == auth_no_accept
          then throw no_acceptable_method
          else (if not (get_or resp 1 0 == method auth)
              then throw (bad_method (get_or resp 1 0))
              else authenticate auth))

-- The three cases of the reply's address, on the bytes that follow its header.
unfoldable pub read_reply_ip : ℕ → ℕ → Io ClientError Address
read_reply_ip t n = do
  buf ← read_full read_ip_failed (n + 2)
  return (record { addr_type = t; ip = take n buf; domain = []; port = read_uint16 (drop n buf) })

unfoldable pub read_reply_domain : Io ClientError Address
read_reply_domain = do
  len_buf ← read_full read_length_failed 1
  let n = get_or len_buf 0 0
  buf ← read_full read_domain_failed (n + 2)
  return (record {
    addr_type = addr_type_domain;
    ip = [];
    domain = take n buf;
    port = read_uint16 (drop n buf);
  })

-- Client.readReply.
unfoldable pub read_reply : Io ClientError Address
read_reply = do
  header ← read_full read_header_failed 4
  if not (get_or header 0 0 == version)
      then throw (bad_reply_version (get_or header 0 0))
      else (if not (get_or header 1 0 == reply_succeeded)
          then throw (refused (get_or header 1 0))
          else (if get_or header 3 0 == addr_type_ipv4
              then read_reply_ip addr_type_ipv4 4
              else (if get_or header 3 0 == addr_type_ipv6
                  then read_reply_ip addr_type_ipv6 16
                  else (if get_or header 3 0 == addr_type_domain
                      then read_reply_domain
                      else throw (unknown_addr_type (get_or header 3 0))))))

-- Client.sendRequest, behind the encoding of the address.
unfoldable pub send_encoded : ℕ → Result AddrError Bytes → Io ClientError Address
unfolding write
send_encoded cmd (err e) = throw (bad_address e)
send_encoded cmd (ok addr_bytes) = do
  write send_request_failed (version ∷ cmd ∷ 0x00 ∷ addr_bytes)
  read_reply

unfoldable pub send_request : ℕ → Address → Io ClientError Address
unfolding send_encoded
send_request cmd addr = send_encoded cmd (marshal_binary addr)

-- UDPRelay.Send: the datagram for the relay, behind the encoding of the target.
unfoldable pub relay_packet : Bytes → Result AddrError Bytes → Result AddrError Bytes
relay_packet payload (err e) = err e
relay_packet payload (ok addr_bytes) = ok (0 ∷ 0 ∷ 0 ∷ (addr_bytes ++ payload))

unfoldable pub udp_send : Bytes → Address → Result AddrError Bytes
unfolding relay_packet
udp_send payload target = relay_packet payload (marshal_binary target)

pub data ReceiveError : Type 0 where
  packet_too_short fragmented : ReceiveError
  bad_source : AddrError → ReceiveError

-- UDPRelay.Receive, on the datagram read: the payload that it leaves at the start of the buffer,
-- and the source address.
unfoldable pub strip_source :
    Bytes → Result AddrError (Address × ℕ) → Result ReceiveError (Bytes × Address)
strip_source body (err e) = err (bad_source e)
strip_source body (ok (addr, consumed)) = ok (drop consumed body, addr)

unfoldable pub udp_receive : Bytes → Result ReceiveError (Bytes × Address)
unfolding strip_source
udp_receive packet =
    if ltb (length packet) 4
    then err packet_too_short
    else (if not (get_or packet 2 0 == 0)
        then err fragmented
        else strip_source (drop 3 packet) (read_address (drop 3 packet)))

-- ICMPRelay.SendEcho and ReceiveEcho.
unfoldable pub echo_frame : ℕ → ℕ → Bytes → Bytes
unfolding put_uint16
echo_frame id seq payload =
    put_uint16 id ++ (put_uint16 seq ++ (put_uint16 (length payload) ++ payload))

unfoldable pub send_echo : ℕ → ℕ → Bytes → Io ClientError (Unit {0})
unfolding echo_frame write
send_echo id seq payload = write echo_failed (echo_frame id seq payload)

unfoldable pub receive_echo : Io ClientError (Bytes × ℕ)
receive_echo = do
  header ← read_full echo_failed 6
  let seq = read_uint16 (drop 2 header)
  let payload_len = read_uint16 (drop 4 header)
  if ltb 0 payload_len
      then (do payload ← read_full echo_failed payload_len; return (payload, seq))
      else return ([], seq)
