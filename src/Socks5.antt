-- ===== src/Socks5.antt =====
-- internal/socks5: addresses and relay packets (protocol.go, client.go), and the client's side of
-- the handshake, the requests and the replies (client.go, auth.go).
pub mod Address
pub mod AddressCodec
pub mod Malformed
pub mod Client
pub mod Handshake
pub mod Reply
pub mod Relay
mod Samples
