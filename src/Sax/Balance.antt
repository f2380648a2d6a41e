-- ===== src/Sax/Balance.antt =====
-- The stack of namespaces grows at the start of an element and shrinks at its end (PmmExtendNsStack,
-- PmmNarrowNsStack).
use perl_xml_lib_xml.Common.{
  ℕ, suc, ◌≡◌, refl, true, false, Option, none, some, [], arith, ◌==◌, if◌then◌else◌, ==_refl,
  ==_iff, Bool-cases, inl, inr,
}
use perl_xml_lib_xml.Store.{Ptr, null, Str, element, Store, update, valid}
use perl_xml_lib_xml.Store.Outcome.{done, ◌>>◌}
use perl_xml_lib_xml.Store.Returns.{Returns}
use perl_xml_lib_xml.Store.Blocks.{valid-of_fresh, apart_of_live}
use perl_xml_lib_xml.Libxml.{Libxml}
use perl_xml_lib_xml.Perl.{Perl}
use perl_xml_lib_xml.Sax.NsStack.{new_stack_node, pmm_extend_ns_stack, pmm_narrow_ns_stack}
use perl_xml_lib_xml.Sax.State.{RecordsCalls}
use perl_xml_lib_xml.Sax.Narrow.{DropsTop, pmm_narrow_ns_stack-run}

-- The store with the new element `n` of the document `d`.
abbrev pub with_element : Store → Ptr → Ptr → Ptr → Option Str → Store
with_element h n d ns name = record h {
  live = λ q. if q == n then true else h.live q;
  kind = λ q. if q == n then element else h.kind q;
  name = λ q. if q == n then name else h.name q;
  ns = update h.ns n ns;
  ns_def = update h.ns_def n null;
  doc = update h.doc n d;
  parent = update h.parent n null;
  next = update h.next n null;
  prev = update h.prev n null;
  children = update h.children n null;
  last = update h.last n null;
}

-- xmlSearchNs finds `found` for the prefix at `top`; xmlNewDocNode hands out the node `n`, which was not in use, with the
-- document, the namespace and the name that it is given, and nothing else; and xmlAddChild hangs it, while
-- it has neither parent nor siblings, below a node of its document that has no children.
pub record PushesNode (lib : Libxml) (h : Store) (top : Ptr) (prefix : Option Str) (n found : Ptr)
    : Type 0 where
  pub not_null : (n == null) ≡ false
  pub unused : h.live n ≡ false
  pub search_ns : lib.search_ns (h.doc top) top prefix h ≡ done found h
  pub new_doc_node :
      (d ns : Ptr) (name : Option Str)
      → lib.new_doc_node d ns name h ≡ done n (with_element h n d ns name)
  pub add_child :
      (g : Store) (s : Ptr)
      → g.children s ≡ null
      → g.doc n ≡ g.doc s
      → g.parent n ≡ null
      → g.next n ≡ null
      → g.prev n ≡ null
      → lib.add_child s n g
        ≡ done n (record g {
          parent = update g.parent n s;
          children = update g.children s n;
          last = update g.last s n;
        })

-- The namespace and the name of the new element.
abbrev chosen_ns : Option Str → Ptr → Ptr
chosen_ns none found = null
chosen_ns (some prefix) found = found

abbrev chosen_name : Option Str → Ptr → Option Str → Option Str → Option Str
chosen_name none found name localname = name
chosen_name (some prefix) found name localname = if found == null then name else localname

-- The store with `n` on top of the stack.
abbrev pub pushed : Store → Ptr → Ptr → Ptr → Ptr → Option Str → Store
pushed h sax top n ns name =
    let g = with_element h n (h.sax_ns_stack_root sax) ns name in
    record g {
      parent = update g.parent n top;
      children = update g.children top n;
      last = update g.last top n;
      sax_ns_stack = update h.sax_ns_stack sax n;
    }

new_stack_node-run :
    (lib : Libxml) (h : Store) (sax top n found : Ptr) (name localname prefix : Option Str)
    → valid h.sax_live sax ≡ true
    → h.sax_ns_stack sax ≡ top
    → valid h.live top ≡ true
    → PushesNode lib h top prefix n found
    → new_stack_node lib sax name localname prefix h
      ≡ done n (
          with_element h n
            (h.sax_ns_stack_root sax)
            (chosen_ns prefix found)
            (chosen_name prefix found name localname))
unfolding new_stack_node
new_stack_node-run lib h sax top n found name localname none live is top_live push =
    rw (live, push.new_doc_node (h.sax_ns_stack_root sax) null name) refl
new_stack_node-run lib h sax top n found name localname (some prefix) live is top_live push =
    elim (Bool-cases (found == null)) [
      | inl e ↦
          let nothing : found ≡ null = (==_iff found null).0 e in
          rw
            (
              live,
              live,
              is,
              top_live,
              push.search_ns,
              nothing,
              push.new_doc_node (h.sax_ns_stack_root sax) null name,
            )
            refl
      | inr e ↦
          rw
            (
              live,
              live,
              is,
              top_live,
              push.search_ns,
              e,
              push.new_doc_node (h.sax_ns_stack_root sax) found localname,
            )
            refl
    ]

pmm_extend_ns_stack-run :
    (lib : Libxml) (h : Store) (sax top n found : Ptr) (name : Option Str)
    → valid h.sax_live sax ≡ true
    → h.sax_ns_stack sax ≡ top
    → valid h.live top ≡ true
    → h.children top ≡ null
    → h.doc top ≡ h.sax_ns_stack_root sax
    → PushesNode lib h top (lib.split_qname name).1 n found
    → pmm_extend_ns_stack lib sax name h
      ≡ done tt (
          pushed h sax top n
            (chosen_ns (lib.split_qname name).1 found)
            (chosen_name (lib.split_qname name).1 found name (lib.split_qname name).0))
unfolding pmm_extend_ns_stack
pmm_extend_ns_stack-run lib h sax top n found name live is top_live leaf top_doc push =
    let prefix = (lib.split_qname name).1 in
    let g =
      with_element h n (h.sax_ns_stack_root sax) (chosen_ns prefix found)
        (chosen_name prefix found name (lib.split_qname name).0) in
    let other = apart_of_live h.live n top push.unused top_live in
    rw
      (
        new_stack_node-run lib h sax top n found name (lib.split_qname name).0 prefix live is
            top_live push,
        push.not_null,
        live,
        is,
        push.add_child g top (rw other leaf) (rw (==_refl n, other, top_doc) refl)
            (rw (==_refl n) refl) (rw (==_refl n) refl) (rw (==_refl n) refl),
        live,
      )
      refl

-- Let the stack of the SAX state end with the live element `top`, which has no children and belongs to the
-- document of the stack. Let xmlNewDocNode hand out an element that was not in use, xmlAddChild hang it below
-- `top`, and xmlUnlinkNode and xmlFreeNode take that element away again, and let the handler's methods not
-- die. Then PmmExtendNsStack for any name and after it PmmNarrowNsStack leave the stack ending with `top`
-- again, without children; no method is called; the element that was made in between is freed; and no other
-- node is freed or has another parent or another first child. The fuel is not zero.
pub pmm_extend_ns_stack-pmm_narrow_ns_stack :
    (lib : Libxml) (perl : Perl) (k : ℕ) (h : Store) (sax handler top n found : Ptr)
    (name : Option Str)
    → valid h.sax_live sax ≡ true
    → h.sax_ns_stack sax ≡ top
    → valid h.live top ≡ true
    → h.children top ≡ null
    → h.doc top ≡ h.sax_ns_stack_root sax
    → PushesNode lib h top (lib.split_qname name).1 n found
    → DropsTop lib n
    → RecordsCalls perl
    → Returns
        ((pmm_extend_ns_stack lib sax name >> pmm_narrow_ns_stack lib perl (suc k) sax handler) h)
        (λ _ g.
          (g.sax_ns_stack sax ≡ top)
          × (g.live n ≡ false)
          × (g.calls ≡ h.calls)
          × ((q : Ptr)
              → (q == n) ≡ false
              → (g.live q ≡ h.live q) × (g.parent q ≡ h.parent q) × (g.children q ≡ h.children q)))
pmm_extend_ns_stack-pmm_narrow_ns_stack lib perl k h sax handler top n found name live is top_live
      leaf top_doc push drops records =
    let ns = chosen_ns (lib.split_qname name).1 found in
    let chosen = chosen_name (lib.split_qname name).1 found name (lib.split_qname name).0 in
    let g = pushed h sax top n ns chosen in
    rw
      (
        pmm_extend_ns_stack-run lib h sax top n found name live is top_live leaf top_doc push,
        pmm_narrow_ns_stack-run lib perl (suc k) g sax handler n top [] live (rw (==_refl sax) refl)
            (valid-of_fresh h.live n push.not_null) (rw (==_refl n) refl) (rw (==_refl n) refl)
            (omega arith) records drops,
      )
      (
        rw (==_refl sax) refl,
        rw (==_refl n) refl,
        refl,
        λ q ne. (
          rw ne refl,
          rw ne refl,
          elim (Bool-cases (q == top)) [
            | inl e ↦
                let same = (==_iff q top).0 e in
                let none_of_q : h.children q ≡ null = rw same leaf in rw (e, none_of_q) refl
            | inr o ↦ rw (o, ne) refl
          ],
        ),
      )
