-- ===== src/Dom/Links/Frames.antt =====
-- What stays when the links of some nodes change.
use perl_xml_lib_xml.Common.{
  ◌≡◌, ◌∙◌, false, List, [], ◌∷◌, arith, ◌==◌, All_mem, mem, Bool-cases, inl, inr,
}
use perl_xml_lib_xml.Store.{Ptr, null, Store}
use perl_xml_lib_xml.Dom.Links.Chains.{Linked, IsChildList, SameElsewhere, NoneIn, All-mono}

pub SameElsewhere-mono :
    (ps zs ps' zs' : List Ptr) {h g : Store}
    → SameElsewhere ps zs h g
    → ((q : Ptr) → mem q ps' ≡ false → mem q ps ≡ false)
    → ((q : Ptr) → mem q zs' ≡ false → mem q zs ≡ false)
    → SameElsewhere ps' zs' h g
SameElsewhere-mono ps zs ps' zs' s in_ps in_zs = record {
  next = λ q out. s.next q (in_zs q out);
  prev = λ q out. s.prev q (in_zs q out);
  parent = λ q out. s.parent q (in_zs q out);
  first = λ q out. s.first q (in_ps q out);
  final = λ q out. s.final q (in_ps q out);
  live = s.live;
  kind = s.kind;
  doc = s.doc;
  ns = s.ns;
  properties = s.properties;
  others = s.others;
}

Linked-frame :
    (h g : Store) (ps zs : List Ptr) (before after : Ptr) (xs : List Ptr)
    → SameElsewhere ps zs h g
    → NoneIn xs zs
    → Linked h.next h.prev before xs after
    → Linked g.next g.prev before xs after
Linked-frame h g ps zs b e [] s out l = tt
Linked-frame h g ps zs b e (x ∷ xs) s out l =
    let ox = out x (ground arith) in
    (
      s.prev x ox ∙ l.0,
      s.next x ox ∙ l.1,
      Linked-frame h g ps zs x e xs s (λ a i. out a (ground arith)) l.2,
    )

-- A child list survives a change that spares its nodes and their parent.
pub IsChildList-frame :
    (h g : Store) (ps zs : List Ptr) (p : Ptr) (xs : List Ptr)
    → SameElsewhere ps zs h g
    → NoneIn xs zs
    → mem p ps ≡ false
    → IsChildList h p xs
    → IsChildList g p xs
IsChildList-frame h g ps zs p xs s out op is = record {
  first = s.first p op ∙ is.first;
  final = s.final p op ∙ is.final;
  linked = Linked-frame h g ps zs null null xs s out is.linked;
  owned = All-mono _ _ xs is.owned (λ x i e. s.parent x (out x i) ∙ e);
  nodes = All-mono _ _ xs is.nodes (λ x i e. rw s.live e);
  distinct = is.distinct;
}

-- Different parents have different children.
pub IsChildList-NoneIn :
    (h : Store) (p q : Ptr) (xs ys : List Ptr)
    → (p == q) ≡ false
    → IsChildList h p xs
    → IsChildList h q ys
    → NoneIn xs ys
IsChildList-NoneIn h p q xs ys ne is js a i = elim (Bool-cases (mem a ys)) [
  | inl j ↦
      let ep = All_mem (λ x. h.parent x ≡ p) a xs is.owned i in
      let eq = All_mem (λ x. h.parent x ≡ q) a ys js.owned j in absurd (ground arith)
  | inr j ↦ j
]
