-- ===== src/Xpath/Restored.antt =====
-- A tree without a document is as before after it was searched (xpath.c: domXPathCompFind).
use perl_xml_lib_xml.Common.{
  ℕ, zero, suc, ◌<◌, ◌≡◌, refl, Bool, true, false, List, [], ◌∷◌, arith, ◌==◌, if◌then◌else◌,
  length, ==_refl, ==_iff, Bool-cases, inl, inr,
}
use perl_xml_lib_xml.Store.{Ptr, null, Store, update, valid}
use perl_xml_lib_xml.Store.Outcome.{done}
use perl_xml_lib_xml.Store.Returns.{Returns}
use perl_xml_lib_xml.Store.Blocks.{valid-other, valid-of_fresh, apart_of_live}
use perl_xml_lib_xml.Libxml.{Libxml}
use perl_xml_lib_xml.Dom.Links.Chains.{valid-ne_null}
use perl_xml_lib_xml.Xpath.Engine.{XpathEngine}
use perl_xml_lib_xml.Xpath.Find.{
  find_root, enter_document, unhook_document, leave_document, evaluate_at, dom_xpath_comp_find,
}

-- From `p` the parents `up` lead to the root `r`.
abbrev pub RootPath : Store → Ptr → List Ptr → Ptr → Type 0
RootPath h p [] r = (p ≡ r) × (valid h.live r ≡ true) × (h.parent r ≡ null)
RootPath h p (q ∷ up) r =
    (valid h.live p ≡ true) × (h.parent p ≡ q) × ((q == null) ≡ false) × RootPath h q up r

-- The way to the root ends there, with fuel for each node of it.
pub find_root-RootPath :
    (k : ℕ) (h : Store) (p : Ptr) (up : List Ptr) (r : Ptr)
    → RootPath h p up r
    → length up < k
    → find_root k p h ≡ done r h
unfolding find_root
find_root-RootPath zero h p up r path enough = elim enough [ ]
find_root-RootPath (suc k) h p [] r (is, live, top) enough =
    rw (is, valid-ne_null h.live r live, live, top) refl
find_root-RootPath (suc k) h p (q ∷ up) r (live, to, some_parent, path) enough =
    rw
      (
        valid-ne_null h.live p live,
        live,
        to,
        some_parent,
        find_root-RootPath k h q up r path (omega arith),
      )
      refl

-- The store with the new document `tdoc`.
abbrev pub with_document : Store → Ptr → Store
with_document h tdoc = record h {
  live = λ q. if q == tdoc then true else h.live q;
  children = update h.children tdoc null;
  last = update h.last tdoc null;
}

-- What xmlNewDoc, xmlAddChild, xmlSetTreeDoc and xmlFreeDoc do here: `tdoc` is handed out, without
-- children, and was not in use; the root becomes the only child of a document that has none; the nodes
-- `inside` the tree get a document; and a document that has no tree is taken back alone, as xmlFreeDoc
-- frees a document with its tree.
pub record DocumentLaws (lib : Libxml) (h : Store) (tdoc root : Ptr) (inside : Ptr → Bool)
    : Type 0 where
  pub not_null : (tdoc == null) ≡ false
  pub unused : h.live tdoc ≡ false
  pub new_doc : lib.new_doc h ≡ done tdoc (with_document h tdoc)
  pub add_child :
      (g : Store)
      → g.children tdoc ≡ null
      → g.last tdoc ≡ null
      → lib.add_child tdoc root g
        ≡ done root (record g {
          parent = update g.parent root tdoc;
          children = update g.children tdoc root;
          last = update g.last tdoc root;
        })
  pub set_tree_doc :
      (g : Store) (d : Ptr)
      → lib.set_tree_doc root d g
        ≡ done tt (record g { doc = λ q. if inside q then d else g.doc q })
  pub free_doc :
      (g : Store)
      → g.children tdoc ≡ null
      → g.last tdoc ≡ null
      → lib.free_doc tdoc g ≡ done tt (record g { live = update g.live tdoc false })

-- The store while the tree hangs in the temporary document.
abbrev pub hooked : Store → Ptr → Ptr → (Ptr → Bool) → Store
hooked h tdoc root inside = record h {
  live = λ q. if q == tdoc then true else h.live q;
  parent = update h.parent root tdoc;
  children = update (update h.children tdoc null) tdoc root;
  last = update (update h.last tdoc null) tdoc root;
  doc = update (λ q. if inside q then tdoc else h.doc q) root tdoc;
}

-- The store when the tree was taken out of the temporary document, which is free.
abbrev unhooked : Store → Ptr → Ptr → (Ptr → Bool) → Store
unhooked h tdoc root inside =
    let g = hooked h tdoc root inside in
    record g {
      doc = update (λ q. if inside q then null else g.doc q) root null;
      parent = update g.parent root null;
      children = update g.children tdoc null;
      last = update g.last tdoc null;
      live = update g.live tdoc false;
    }

RootPath-top :
    (h : Store) (p : Ptr) (up : List Ptr) (r : Ptr)
    → RootPath h p up r
    → (valid h.live r ≡ true) × (h.parent r ≡ null)
RootPath-top h p [] r (is, live, top) = (live, top)
RootPath-top h p (q ∷ up) r (live, to, some_parent, path) = RootPath-top h q up r path

RootPath-fresh :
    (h : Store) (f p : Ptr) (up : List Ptr) (r : Ptr)
    → h.live f ≡ false
    → RootPath h p up r
    → RootPath (with_document h f) p up r
RootPath-fresh h f p [] r dead (is, live, top) =
    (is, valid-other h.live f r (apart_of_live h.live f r dead live) live, top)
RootPath-fresh h f p (q ∷ up) r dead (live, to, some_parent, path) = (
  valid-other h.live f p (apart_of_live h.live f p dead live) live,
  to,
  some_parent,
  RootPath-fresh h f q up r dead path,
)

module _ (lib : Libxml) (h : Store) (tdoc root : Ptr) (inside : Ptr → Bool)
    (laws : DocumentLaws lib h tdoc root inside) (root_live : valid h.live root ≡ true) where
  still_live : valid (λ q. if q == tdoc then true else h.live q) root ≡ true
  still_live =
      valid-other h.live tdoc root (apart_of_live h.live tdoc root laws.unused root_live) root_live

  enter_document-run :
      (fuel : ℕ) (refnode : Ptr) (up : List Ptr)
      → RootPath h refnode up root
      → length up < fuel
      → valid h.live refnode ≡ true
      → h.doc refnode ≡ null
      → enter_document lib fuel refnode h ≡ done (tdoc, root) (hooked h tdoc root inside)
  unfolding enter_document
  enter_document-run fuel refnode up path enough live no_doc =
      let g = with_document h tdoc in
      rw
        (
          live,
          no_doc,
          laws.new_doc,
          find_root-RootPath fuel g refnode up root
              (RootPath-fresh h tdoc refnode up root laws.unused path) enough,
          laws.add_child g (rw (==_refl tdoc) refl) (rw (==_refl tdoc) refl),
          laws.set_tree_doc
              (record g {
                parent = update g.parent root tdoc;
                children = update g.children tdoc root;
                last = update g.last tdoc root;
              })
              tdoc,
          still_live,
        )
        refl

  leave_document-run :
      leave_document lib tdoc root (hooked h tdoc root inside)
      ≡ done tt (unhooked h tdoc root inside)
  unfolding leave_document unhook_document
  leave_document-run =
      let g = hooked h tdoc root inside in
      let made = valid-of_fresh h.live tdoc laws.not_null in
      rw
        (
          laws.not_null,
          laws.set_tree_doc g null,
          still_live,
          still_live,
          made,
          made,
          laws.free_doc
              (record g {
                doc = update (λ q. if inside q then null else g.doc q) root null;
                parent = update g.parent root null;
                children = update g.children tdoc null;
                last = update g.last tdoc null;
              })
              (rw (==_refl tdoc) refl) (rw (==_refl tdoc) refl),
        )
        refl

  restored :
      h.parent root ≡ null
      → inside root ≡ true
      → ((q : Ptr) → inside q ≡ true → h.doc q ≡ null)
      → (q : Ptr) → (q == tdoc) ≡ false
      → ((unhooked h tdoc root inside).live q ≡ h.live q)
        × ((unhooked h tdoc root inside).doc q ≡ h.doc q)
        × ((unhooked h tdoc root inside).parent q ≡ h.parent q)
        × ((unhooked h tdoc root inside).children q ≡ h.children q)
        × ((unhooked h tdoc root inside).last q ≡ h.last q)
  restored top root_inside no_doc q apart = elim (Bool-cases (q == root)) [
    | inl e ↦
        let same = (==_iff q root).0 e in
        let q_top : h.parent q ≡ null = rw same top in
        let q_doc = no_doc q (rw same root_inside) in
        (rw apart refl, rw (e, q_doc) refl, rw (e, q_top) refl, rw apart refl, rw apart refl)
    | inr e ↦ elim (Bool-cases (inside q)) [
      | inl i ↦ (rw apart refl, rw (e, i, no_doc q i) refl, rw e refl, rw apart refl, rw apart refl)
      | inr o ↦ (rw apart refl, rw (e, o) refl, rw e refl, rw apart refl, rw apart refl)
    ]
  ]

-- Let the tree of `refnode`, whose root is `root`, be without a document, and let the evaluation return and
-- leave the memory as it is while the tree hangs in a temporary document. Then domXPathCompFind returns
-- what the evaluation gives, every node of memory but the temporary document has its document, parent, first
-- and last child as before, and the temporary document is freed. The fuel has to be greater than the depth.
pub dom_xpath_comp_find-restored :
    (lib : Libxml) (xp : XpathEngine) (fuel : ℕ) (h : Store) (refnode comp tdoc root res : Ptr)
    (up : List Ptr) (inside : Ptr → Bool) (to_bool : Bool)
    → RootPath h refnode up root
    → length up < fuel
    → (comp == null) ≡ false
    → valid h.live refnode ≡ true
    → inside refnode ≡ true
    → inside root ≡ true
    → ((q : Ptr) → inside q ≡ true → h.doc q ≡ null)
    → DocumentLaws lib h tdoc root inside
    → evaluate_at xp refnode comp to_bool (hooked h tdoc root inside)
      ≡ done res (hooked h tdoc root inside)
    → Returns (dom_xpath_comp_find lib xp fuel refnode comp to_bool h) (λ found g.
      (found ≡ res)
      × (g.live tdoc ≡ false)
      × ((q : Ptr)
          → (q == tdoc) ≡ false
          → (g.live q ≡ h.live q)
            × (g.doc q ≡ h.doc q)
            × (g.parent q ≡ h.parent q)
            × (g.children q ≡ h.children q)
            × (g.last q ≡ h.last q)))
unfolding dom_xpath_comp_find
dom_xpath_comp_find-restored lib xp fuel h refnode comp tdoc root res up inside to_bool path enough
      some_comp live ref_inside root_inside no_doc laws eval =
    let top = RootPath-top h refnode up root path in
    rw
      (
        valid-ne_null h.live refnode live,
        some_comp,
        enter_document-run lib h tdoc root inside laws top.0 fuel refnode up path enough live
            (no_doc refnode ref_inside),
        eval,
        leave_document-run lib h tdoc root inside laws top.0,
      )
      (
        refl,
        rw (==_refl tdoc) refl,
        restored lib h tdoc root inside laws top.0 top.1 root_inside no_doc,
      )
