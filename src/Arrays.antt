-- ===== src/Arrays.antt =====
-- Arrays of strings between Perl and C (Av_CharPtrPtr.c).
pub mod CharPtrPtr
pub mod Copied
