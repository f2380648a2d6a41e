-- ===== src/Dom/Links/Chains.antt =====
-- Doubly linked chains of siblings, and the child list of a node.
mod Nodes
mod Linking
mod Without
mod Joins
pub use Nodes.*
pub use Linking.*
pub use Without.*
pub use Joins.*
