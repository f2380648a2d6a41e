-- ===== src/Store/Blocks.antt =====
-- Which pointers may be followed after a block was handed out or taken back.
use perl_xml_lib_xml.Common.{
  ◌≡◌, Bool, true, false, arith, ◌==◌, if◌then◌else◌, ==_refl, ==_iff, Bool-cases, inl, inr,
}
use perl_xml_lib_xml.Store.{Ptr, null, update, valid}

pub valid-other :
    (live : Ptr → Bool) (f q : Ptr)
    → (q == f) ≡ false
    → valid live q ≡ true
    → valid (λ r. if r == f then true else live r) q ≡ true
unfolding valid
valid-other live f q ne v = rw (ne) v

pub valid-of_fresh :
    (live : Ptr → Bool) (f : Ptr)
    → (f == null) ≡ false
    → valid (λ r. if r == f then true else live r) f ≡ true
unfolding valid
valid-of_fresh live f ne = rw (ne, ==_refl f)

pub apart_of_live :
    (live : Ptr → Bool) (f q : Ptr) → live f ≡ false → valid live q ≡ true → (q == f) ≡ false
unfolding valid
apart_of_live live f q dead v = elim (Bool-cases (q == f)) [
  | inl e ↦ let same : live q ≡ false = rw ((==_iff q f).0 e) dead in absurd (ground arith)
  | inr e ↦ e
]

pub valid-freed :
    (live : Ptr → Bool) (x q : Ptr)
    → (q == x) ≡ false
    → valid live q ≡ true
    → valid (update live x false) q ≡ true
unfolding valid
valid-freed live x q ne v = rw ne v
