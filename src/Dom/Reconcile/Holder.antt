-- ===== src/Dom/Reconcile/Holder.antt =====
-- Reconciling one namespace, that of an element or of an attribute (dom.c: _domReconcileNs,
-- _domReconcileNsAttr): what is given, and what is there afterwards.
use perl_xml_lib_xml.Common.{
  ℕ, ◌<◌, ◌≡◌, refl, sym, Bool, true, false, ◌&&◌, ◌||◌, Option, is_some, List, [], ◌∷◌, arith,
  ◌==◌, if◌then◌else◌, length, mem, erase, Distinct, ==_refl, Bool-cases, inl, inr,
}
use mathlib.Core.Path.{subst}
use perl_xml_lib_xml.Store.{Ptr, null, Str, Store, update, valid}
use perl_xml_lib_xml.Store.Outcome.{done}
use perl_xml_lib_xml.Store.Blocks.{valid-other, apart_of_live}
use perl_xml_lib_xml.Libxml.{Libxml}
use perl_xml_lib_xml.Dom.Links.Chains.{valid-ne_null, mem-ne_sym, NoneIn}
use perl_xml_lib_xml.Dom.NsDef.{dom_add_ns_chain}
use perl_xml_lib_xml.Dom.NsDef.Declared.{NsList, NsList-frame, find_ns-mem}
use perl_xml_lib_xml.Dom.Reconcile.{same_href}

-- A queue of namespaces with one more in front.
pub dom_add_ns_chain-NsList :
    (fuel : ℕ) (g : Store) (c ns : Ptr) (us : List Ptr)
    → NsList g c us
    → mem ns us ≡ false
    → valid g.ns_live ns ≡ true
    → g.ns_next ns ≡ null
    → length us < fuel
    → (k : Store) × (dom_add_ns_chain fuel c ns g ≡ done ns k)
      × NsList k ns (ns ∷ us)
      × (k ≡ record g { ns_next = k.ns_next })
      × ((q : Ptr) → (q == ns) ≡ false → k.ns_next q ≡ g.ns_next q)
unfolding dom_add_ns_chain
dom_add_ns_chain-NsList fuel g c ns [] is out live last enough =
    (g, rw is refl, (refl, live, last), refl, λ q ne. refl)
dom_add_ns_chain-NsList fuel g c ns (u ∷ r) is out live last enough =
    let k = record g { ns_next = update g.ns_next ns c } in
    let some_c : (c == null) ≡ false = rw is.0 (valid-ne_null g.ns_live u is.1) in
    (
      k,
      rw (some_c, find_ns-mem fuel g c ns (u ∷ r) is enough, out, live) refl,
      (
        refl,
        live,
        rw (==_refl ns) (
            NsList-frame g k (ns ∷ []) c (u ∷ r) (λ q o. ground arith) refl
              (λ a i. ground (arith, mem-ne_sym a ns (u ∷ r) out i)) is),
      ),
      refl,
      λ q ne. rw ne refl,
    )

-- xmlCopyNamespace hands out the declaration `copy`, which was not in use, without a successor.
pub record CopiesNs (lib : Libxml) (h : Store) (ns copy : Ptr) : Type 0 where
  pub not_null : (copy == null) ≡ false
  pub unused : h.ns_live copy ≡ false
  pub result :
      (g : Store)
      → g.ns_live ≡ h.ns_live
      → lib.copy_namespace ns g
        ≡ done copy (record g {
          ns_live = λ q. if q == copy then true else g.ns_live q;
          ns_next = update g.ns_next copy null;
          ns_prefix = update g.ns_prefix copy (g.ns_prefix ns);
          ns_href = update g.ns_href copy (g.ns_href ns);
        })

-- The namespace `own` of `holder` is to be reconciled on `tree`, whose declarations are `xs`; xmlSearchNs
-- finds `found` above `tree`, or NULL; and `unused` is the queue `us` of other declarations.
pub record IsHolder (lib : Libxml) (h : Store) (tree holder own found unused : Ptr)
    (xs us : List Ptr) : Type 0 where
  pub tree_live : valid h.live tree ≡ true
  pub holder_live : valid h.live holder ≡ true
  pub holds : h.ns holder ≡ own
  pub own_live : valid h.ns_live own ≡ true
  pub searched : lib.search_ns (h.doc tree) (h.parent tree) (h.ns_prefix own) h ≡ done found h
  pub found_live : (valid h.ns_live found || (found == null)) ≡ true
  pub declares : NsList h (h.ns_def tree) xs
  pub distinct : Distinct xs
  pub queued : NsList h unused us
  pub apart : NoneIn us (own ∷ xs)
  pub not_queued : mem own us ≡ false

-- A list of declarations is still there when the block `f` is handed out.
pub NsList-grown :
    (g k : Store) (f p : Ptr) (xs : List Ptr)
    → g.ns_live f ≡ false
    → k.ns_live ≡ (λ q. if q == f then true else g.ns_live q)
    → k.ns_next ≡ update g.ns_next f null
    → NsList g p xs
    → NsList k p xs × (mem f xs ≡ false)
NsList-grown g k f p [] dead live next is = (is, refl)
NsList-grown g k f p (x ∷ r) dead live next (px, vx, ir) =
    let ne = apart_of_live g.ns_live f x dead vx in
    let (rest, out) = NsList-grown g k f (g.ns_next x) r dead live next ir in
    let to : k.ns_next x ≡ g.ns_next x = rw (next, ne) refl in
    (
      (px, rw live (valid-other g.ns_live f x ne vx), subst (λ p. NsList k p r) (sym to) rest),
      ground (arith, ne, out),
    )

module _ (lib : Libxml) (h : Store) (own found : Ptr) where
  -- The declaration above has the same URI.
  abbrev pub is_known : Bool
  is_known =
      if found == null
      then false
      else is_some (h.ns_href found)
        && is_some (h.ns_href own)
        && lib.str_equal (h.ns_href found) (h.ns_href own)

  pub same_href-run :
      (xml : Option Str)
      → (valid h.ns_live found || (found == null)) ≡ true
      → valid h.ns_live own ≡ true
      → same_href lib xml found own h ≡ done is_known h
  unfolding same_href
  same_href-run xml found_live own_live = elim (Bool-cases (found == null)) [
    | inl e ↦ rw e refl
    | inr e ↦
        let live : valid h.ns_live found ≡ true = ground (arith, found_live, e) in
        rw (e, live, own_live) refl
  ]

-- The namespace of the holder, the declarations and the queue afterwards: `known` says that the
-- declaration above is used, and `here` that `own` was declared on the element.
abbrev pub new_ns : Bool → Bool → Ptr → Ptr → Ptr → Ptr
new_ns known here own found copy = if known then found else if here then own else copy

abbrev pub new_declarations : Bool → Bool → Ptr → Ptr → List Ptr → List Ptr
new_declarations known here own copy xs =
    if known then erase own xs else if here then own ∷ erase own xs else copy ∷ xs

abbrev pub new_queue : Bool → Bool → Ptr → List Ptr → List Ptr
new_queue known here own us = if known && here then own ∷ us else us

-- The store `g` and the queue `r` after the namespace was reconciled.
pub record IsReconciled (h g : Store) (tree holder own found copy r : Ptr) (xs us : List Ptr)
    (known here : Bool) : Type 0 where
  pub holds : g.ns holder ≡ new_ns known here own found copy
  pub declares : NsList g (g.ns_def tree) (new_declarations known here own copy xs)
  pub queued : NsList g r (new_queue known here own us)
  pub others : (q : Ptr) → (q == holder) ≡ false → g.ns q ≡ h.ns q
  pub uris :
      g.ns_href ≡ (if known || here then h.ns_href else update h.ns_href copy (h.ns_href own))
  pub prefixes :
      g.ns_prefix
      ≡ (if known || here then h.ns_prefix else update h.ns_prefix copy (h.ns_prefix own))
