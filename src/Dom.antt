-- ===== src/Dom.antt =====
-- The DOM layer, dom.c.
pub mod NsDef
pub mod Reconcile
pub mod Links
pub mod Hierarchy
pub mod Edit
pub mod Values
pub mod Traverse
