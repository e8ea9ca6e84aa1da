-- ===== src/Dns.antt =====
-- internal/dns/server.go: the resolver for the names of the mesh.
pub mod Names
pub mod Suffixes
pub mod SafeBytes
pub mod Server
mod Placed
mod SameName
pub mod Answers
mod Samples
