-- ===== src/Registry.antt =====
-- The registry of proxies, for a Perl with interpreter threads (perl-libxml-mm.c).
pub mod Name
pub mod Table
pub mod Local
pub mod Entries
pub mod Counts
pub mod Threaded
pub mod Restored
