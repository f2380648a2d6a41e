-- ===== src/Strings.antt =====
-- Strings between Perl and libxml2, and their encodings (perl-libxml-mm.c).
pub mod Scalar
pub mod Convert
pub mod Node
pub mod NoNul
pub mod OverRead
pub mod RoundTrip
