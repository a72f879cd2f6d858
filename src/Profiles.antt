-- ===== src/Profiles.antt =====
-- pkg/profile/merger.go: profiles, and how they are merged into the desired state of a node.
pub mod Indexed
pub mod Spec
mod Tests
