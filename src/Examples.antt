-- ===== src/Examples.antt =====
-- Concrete stores, and the properties of the code applied to them.
pub mod Counts
pub mod Edits
pub mod Moves
pub mod Queries
pub mod Stores
pub mod Buffers
pub mod Declarations
pub mod Handlers
pub mod Threads
pub mod Texts
pub mod Contexts
pub mod Events
pub mod Namespaces
pub mod Joined
