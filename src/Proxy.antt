-- ===== src/Proxy.antt =====
-- Proxy nodes and their reference counts, perl-libxml-mm.c, as built without thread support.
pub mod Count
pub mod Node
pub mod Sv
pub mod Owner
pub mod Counting
pub mod LastReference
pub mod Lifetime
pub mod Unwrapping
pub mod Context
pub mod ContextFreed
