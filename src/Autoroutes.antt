-- ===== src/Autoroutes.antt =====
-- internal/autoroutes: the routes that the agent's dashboard offers (filter.go), their conflicts and
-- their merge with the configured ones (resolver.go), and path lookup (snapshot.go).
pub mod Rules
pub mod Order
pub mod Resolved
pub mod Merged
pub mod Longest
mod Samples
