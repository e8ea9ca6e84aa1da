-- ===== src/Stack.antt =====
-- internal/stack/intercept_endpoint.go: which packets are taken from the packet library's stack, and
-- the packets that are built as answers.
pub mod Checksum
pub mod ChecksumExact
pub mod Headers
pub mod Packets
pub mod Windows
pub mod UdpSegments
pub mod UdpZero
pub mod IcmpMessages
pub mod Unreachable
pub mod Intercept
pub mod Agreement
pub mod Agreement6
pub mod Fragments
mod Samples
mod InterceptSamples
