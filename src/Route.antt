-- ===== src/Route.antt =====
-- internal/route: routes on the tunnel interface. The table of the kernel (kernel_linux.go), the saved
-- state (state.go), plans (plan.go), the manager (manager.go) and conflicts (conflict.go).
pub mod Types
pub mod Kernel
pub mod Store
pub mod Plan
pub mod Manager
pub mod DiffExact
pub mod ApplyExact
pub mod NoLink
pub mod Converge
pub mod Persisted
pub mod Conflicts
pub mod Overlaps
mod ConflictSamples
mod Samples
