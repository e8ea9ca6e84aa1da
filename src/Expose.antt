-- ===== src/Expose.antt =====
-- internal/expose: frames (protocol.go), the message transport (transport.go), streams (stream.go),
-- the session that multiplexes them (session.go) and the manager of the forwards (expose.go).
pub mod Frame
pub mod FrameCodec
pub mod Stream
pub mod Session
pub mod Dispatch
pub mod Bookkeeping
pub mod Invariant
pub mod Run
pub mod Opening
pub mod Buffers
pub mod Chunks
mod ManagerSamples
mod Samples
pub mod Manager
pub mod Synced
pub mod Reloads
pub mod Agent
