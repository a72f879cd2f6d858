-- ===== src/Types.antt =====
-- pkg/types/types.go: the desired state of a node, and what the agent reports of it.
mod Spec
mod Status
pub use Spec.*
pub use Status.*
