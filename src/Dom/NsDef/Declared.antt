-- ===== src/Dom/NsDef/Declared.antt =====
-- The namespace declarations of an element as a list (dom.c: domAddNsDef, domRemoveNsDef).
use perl_xml_lib_xml.Common.{
  ℕ, zero, suc, ◌<◌, ◌≡◌, refl, true, false, List, [], ◌∷◌, arith, ◌==◌, if◌then◌else◌, length, mem,
  ==_refl, ==_iff, Bool-cases, inl, inr,
}
use perl_xml_lib_xml.Store.{Ptr, null, Store, update, valid}
use perl_xml_lib_xml.Store.Outcome.{done}
use perl_xml_lib_xml.Store.Returns.{Returns}
use perl_xml_lib_xml.Dom.Links.Chains.{valid-ne_null, mem-ne_sym}
use perl_xml_lib_xml.Dom.NsDef.{find_ns, dom_add_ns_def}

-- From `p` the declarations `xs` follow one another.
abbrev pub NsList : Store → Ptr → List Ptr → Type 0
NsList h p [] = p ≡ null
NsList h p (x ∷ r) = (p ≡ x) × (valid h.ns_live x ≡ true) × NsList h (h.ns_next x) r

-- The store `h` with the links of declarations as in `g`.
abbrev pub with_ns_links : Store → Store → Store
with_ns_links h g = record h { ns_next = g.ns_next; ns_def = g.ns_def }

-- From `h` to `g`, the declarations outside of `xs` keep their successors.
pub record SameNs (xs : List Ptr) (h g : Store) : Type 0 where
  pub ns_next : (q : Ptr) → mem q xs ≡ false → g.ns_next q ≡ h.ns_next q
  pub ns_live : g.ns_live ≡ h.ns_live
  pub ns_def : g.ns_def ≡ h.ns_def
  pub live : g.live ≡ h.live
  pub others : g ≡ with_ns_links h g

pub find_ns-mem :
    (k : ℕ) (h : Store) (p ns : Ptr) (xs : List Ptr)
    → NsList h p xs
    → length xs < k
    → find_ns k p ns h ≡ done (if mem ns xs then ns else null) h
unfolding find_ns
find_ns-mem zero h p ns xs is fuel = elim fuel [ ]
find_ns-mem (suc k) h p ns [] is fuel = rw is
find_ns-mem (suc k) h p ns (x ∷ r) (px, vx, ir) fuel = elim (Bool-cases (x == ns)) [
  | inl e ↦ rw (px, valid-ne_null h.ns_live x vx, e, (==_iff x ns).0 e, ==_refl ns) refl
  | inr e ↦
      let e' : (ns == x) ≡ false = ground arith in
      rw
        (
          px,
          valid-ne_null h.ns_live x vx,
          e,
          vx,
          find_ns-mem k h (h.ns_next x) ns r ir (omega arith),
          e',
        )
        refl
]

pub NsList-frame :
    (h g : Store) (zs : List Ptr) (p : Ptr) (xs : List Ptr)
    → ((q : Ptr) → mem q zs ≡ false → g.ns_next q ≡ h.ns_next q)
    → g.ns_live ≡ h.ns_live
    → ((a : Ptr) → mem a xs ≡ true → mem a zs ≡ false)
    → NsList h p xs
    → NsList g p xs
NsList-frame h g zs p [] same e out is = is
NsList-frame h g zs p (x ∷ r) same e out (px, vx, ir) = (
  px,
  rw e vx,
  rw (same x (out x (ground arith)))
      (NsList-frame h g zs (h.ns_next x) r same e (λ a i. out a (ground arith)) ir),
)

-- The store with `ns` in front of the declarations of `tree`.
abbrev pub declared : Store → Ptr → Ptr → Store
declared h tree ns = record h {
  ns_next = update h.ns_next ns (h.ns_def tree);
  ns_def = update h.ns_def tree ns;
}

pub dom_add_ns_def-new :
    (fuel : ℕ) (h : Store) (tree ns : Ptr) (xs : List Ptr)
    → NsList h (h.ns_def tree) xs
    → valid h.live tree ≡ true
    → valid h.ns_live ns ≡ true
    → mem ns xs ≡ false
    → length xs < fuel
    → (dom_add_ns_def fuel tree ns h ≡ done tt (declared h tree ns))
      × NsList (declared h tree ns) ((declared h tree ns).ns_def tree) (ns ∷ xs)
unfolding dom_add_ns_def
dom_add_ns_def-new fuel h tree ns xs is vt vn o enough = (
  rw (vt, find_ns-mem fuel h (h.ns_def tree) ns xs is enough, o, vn, vt) refl,
  rw (==_refl tree) (
    refl,
    vn,
    rw (==_refl ns) (
        NsList-frame h (declared h tree ns) (ns ∷ []) (h.ns_def tree) xs (λ q out. ground arith)
          refl (λ a i. ground (arith, mem-ne_sym a ns xs o i)) is),
  ),
)

-- Let `xs` be the declarations of the element `tree`, and the fuel more than their number. domAddNsDef
-- returns, and the declarations of `tree` are `xs` if `ns` is among them, or else `ns` and `xs`.
pub dom_add_ns_def-NsList :
    (fuel : ℕ) (h : Store) (tree ns : Ptr) (xs : List Ptr)
    → NsList h (h.ns_def tree) xs
    → valid h.live tree ≡ true
    → valid h.ns_live ns ≡ true
    → length xs < fuel
    → Returns
        (dom_add_ns_def fuel tree ns h)
        (λ _ g. NsList g (g.ns_def tree) (if mem ns xs then xs else ns ∷ xs))
unfolding dom_add_ns_def
dom_add_ns_def-NsList fuel h tree ns xs is vt vn enough = elim (Bool-cases (mem ns xs)) [
  | inl i ↦
      rw (vt, find_ns-mem fuel h (h.ns_def tree) ns xs is enough, i, valid-ne_null h.ns_live ns vn)
        is
  | inr o ↦ let new = dom_add_ns_def-new fuel h tree ns xs is vt vn o enough in rw (new.0, o) new.1
]
