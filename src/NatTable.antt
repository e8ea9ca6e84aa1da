-- ===== src/NatTable.antt =====
-- internal/nat: the table of forwarded connections and its collector. `Entry` and `Table` hold the
-- definitions, the other modules what they satisfy.
pub mod Entry
pub mod Table
pub mod Invariant
pub mod Lookups
pub mod Collect
pub mod Counts
pub mod Handles
mod Samples
