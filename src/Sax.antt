-- ===== src/Sax.antt =====
-- The SAX layer, perl-libxml-sax.c.
pub mod Buffer
pub mod Values
pub mod NsStack
pub mod Context
pub mod Attributes
pub mod Characters
pub mod Errors
pub mod Events
pub mod State
pub mod Flush
pub mod Order
pub mod Narrow
pub mod Balance
pub mod Run
pub mod Closed
