-- ===== src/Dom/Reconcile/Reconciled.antt =====
-- What domReconcileNs does about one namespace, that of an element or of an attribute, on each of its
-- branches (dom.c: _domReconcileNs, _domReconcileNsAttr).
use perl_xml_lib_xml.Common.{
  ℕ, ◌+◌, ◌<◌, ◌≡◌, refl, sym, ap, ◌∙◌, Bool, true, false, not, Option, List, [], ◌∷◌, arith, ◌==◌,
  if◌then◌else◌, length, mem, erase, ==_refl, Bool-cases, inl, inr,
}
use mathlib.Core.Path.{subst}
use perl_xml_lib_xml.Store.{Ptr, null, Str, Store, update, valid}
use perl_xml_lib_xml.Store.Outcome.{pure, when, ◌>>=◌, ◌>>◌}
use perl_xml_lib_xml.Store.Fields.{set_ns}
use perl_xml_lib_xml.Store.Returns.{Returns, Returns-after}
use perl_xml_lib_xml.Store.Blocks.{valid-of_fresh}
use perl_xml_lib_xml.Libxml.{Libxml}
use perl_xml_lib_xml.Dom.Links.Chains.{mem-ne_sym}
use perl_xml_lib_xml.Dom.NsDef.{dom_add_ns_def, dom_add_ns_chain}
use perl_xml_lib_xml.Dom.NsDef.Declared.{NsList, NsList-frame, declared, dom_add_ns_def-new}
use perl_xml_lib_xml.Dom.NsDef.Removed.{
  RemovedFrom, dom_remove_ns_def-NsList, mem-erase, erase-absent, length-erase,
}
use perl_xml_lib_xml.Dom.Reconcile.{reconcile_holder}
use perl_xml_lib_xml.Dom.Reconcile.Holder.{
  dom_add_ns_chain-NsList, CopiesNs, IsHolder, NsList-grown, is_known, same_href-run, new_queue,
  IsReconciled,
}

module _ (lib : Libxml) (xml : Option Str) (fuel : ℕ) (h : Store)
    (tree holder own found copy unused : Ptr) (xs us : List Ptr)
    (is : IsHolder lib h tree holder own found unused xs us) (enough : length xs + 1 < fuel)
    (enough_queue : length us < fuel) where
  abbrev Goal : Bool → Bool → Ptr → Store → Type 0
  Goal known here r g = IsReconciled h g tree holder own found copy r xs us known here

  -- The queue is still there when the declarations of the element have changed.
  queue-removed : (g : Store) (b : Bool) → RemovedFrom h tree own xs b g → NsList g unused us
  queue-removed g b got = NsList-frame h g (own ∷ xs) unused us got.5 got.2 is.apart is.queued

  -- The holder gets the declaration above.
  set_found :
      (g : Store) (r : Ptr) (here : Bool)
      → g.live ≡ h.live
      → g.ns ≡ h.ns
      → g.ns_href ≡ h.ns_href
      → g.ns_prefix ≡ h.ns_prefix
      → NsList g (g.ns_def tree) (erase own xs)
      → NsList g r (new_queue true here own us)
      → Returns ((set_ns holder found >> pure r) g) (Goal true here)
  set_found g r here live ns uris prefixes ds qs =
      let holder_live : valid g.live holder ≡ true = rw live is.holder_live in
      rw holder_live record {
        holds = rw (==_refl holder) refl;
        declares = ds;
        queued = qs;
        others = λ q ne. rw (ne, ns) refl;
        uris = uris;
        prefixes = prefixes;
      }

  known_here :
      (g : Store) (b : Bool)
      → RemovedFrom h tree own xs b g
      → mem own xs ≡ true
      → Returns
          ((dom_add_ns_chain fuel unused own >>= λ r. set_ns holder found >> pure r) g)
          (Goal true true)
  known_here g b got here =
      let (k, run, chain, same, next) =
        dom_add_ns_chain-NsList fuel g unused own us (queue-removed g b got) is.not_queued
          (rw got.2 is.own_live) (got.6 here) enough_queue in
      let live : k.live ≡ h.live = ap (λ m. m.live) same ∙ got.3 in
      let ns : k.ns ≡ h.ns = ap (λ m. m.ns) same ∙ ap (λ m. m.ns) got.4 in
      let first : k.ns_def tree ≡ g.ns_def tree = ap (λ m. m.ns_def tree) same in
      let ds : NsList k (k.ns_def tree) (erase own xs) =
        subst (λ p. NsList k p (erase own xs)) (sym first)
          (NsList-frame g k (own ∷ []) (g.ns_def tree) (erase own xs) (λ q o. next q (ground arith))
            (ap (λ m. m.ns_live) same)
            (λ a i.
              ground (arith, mem-ne_sym a own (erase own xs) (mem-erase own xs is.distinct) i))
            got.1) in
      rw run (
        set_found k own true live ns (ap (λ m. m.ns_href) same ∙ ap (λ m. m.ns_href) got.4)
          (ap (λ m. m.ns_prefix) same ∙ ap (λ m. m.ns_prefix) got.4) ds chain)

  known_elsewhere :
      (g : Store) (b : Bool)
      → RemovedFrom h tree own xs b g
      → Returns ((set_ns holder found >> pure unused) g) (Goal true false)
  known_elsewhere g b got =
      set_found g unused false got.3 (ap (λ m. m.ns) got.4) (ap (λ m. m.ns_href) got.4)
        (ap (λ m. m.ns_prefix) got.4) got.1 (queue-removed g b got)

  needed_here :
      (g : Store) (b : Bool)
      → RemovedFrom h tree own xs b g
      → Returns ((dom_add_ns_def fuel tree own >> pure unused) g) (Goal false true)
  needed_here g b got =
      let out = mem-erase own xs is.distinct in
      let new =
        dom_add_ns_def-new fuel g tree own (erase own xs) got.1 (rw got.3 is.tree_live)
          (rw got.2 is.own_live) out (omega (arith, enough, length-erase own xs)) in
      let k = declared g tree own in
      rw new.0 record {
        holds = ap (λ m. m.ns holder) got.4 ∙ is.holds;
        declares = new.1;
        queued =
            NsList-frame g k (own ∷ []) unused us (λ q o. ground arith) refl
              (λ a i. ground (arith, mem-ne_sym a own us is.not_queued i)) (queue-removed g b got);
        others = λ q ne. ap (λ m. m.ns q) got.4;
        uris = ap (λ m. m.ns_href) got.4;
        prefixes = ap (λ m. m.ns_prefix) got.4;
      }

  needed_elsewhere :
      (g : Store) (b : Bool)
      → RemovedFrom h tree own xs b g
      → mem own xs ≡ false
      → CopiesNs lib h own copy
      → Returns
          (((lib.copy_namespace own >>= λ c.
                set_ns holder c >> when (not (c == null)) (dom_add_ns_def fuel tree c))
              >> pure unused)
            g)
          (Goal false false)
  needed_elsewhere g b got absent copies =
      let k = record g {
        ns_live = λ q. if q == copy then true else g.ns_live q;
        ns_next = update g.ns_next copy null;
        ns_prefix = update g.ns_prefix copy (g.ns_prefix own);
        ns_href = update g.ns_href copy (g.ns_href own);
        ns = update g.ns holder copy;
      } in
      let unused_copy : g.ns_live copy ≡ false = rw got.2 copies.unused in
      let old : NsList g (g.ns_def tree) xs =
        subst (λ ys. NsList g (g.ns_def tree) ys) (erase-absent own xs absent) got.1 in
      let (ds, out) = NsList-grown g k copy (g.ns_def tree) xs unused_copy refl refl old in
      let (qs, out_queue) =
        NsList-grown g k copy unused us unused_copy refl refl (queue-removed g b got) in
      let holder_live : valid g.live holder ≡ true = rw got.3 is.holder_live in
      let new =
        dom_add_ns_def-new fuel k tree copy xs ds (rw got.3 is.tree_live)
          (valid-of_fresh g.ns_live copy copies.not_null) out (omega (arith, enough)) in
      rw (copies.result g got.2, holder_live, copies.not_null, new.0)
        record {
          holds = rw (==_refl holder) refl;
          declares = new.1;
          queued =
              NsList-frame k (declared k tree copy) (copy ∷ []) unused us (λ q o. ground arith) refl
                (λ a i. ground (arith, mem-ne_sym a copy us out_queue i)) qs;
          others = λ q ne. rw ne (ap (λ m. m.ns q) got.4);
          uris = ap (λ m. update m.ns_href copy (m.ns_href own)) got.4;
          prefixes = ap (λ m. update m.ns_prefix copy (m.ns_prefix own)) got.4;
        }

-- Let `tree` and `holder` be valid nodes (an element, and itself or one of its attributes) and `own` the valid
-- namespace of `holder`; let `xs` be the declarations of `tree`, no one twice, and `us` those that are queued
-- for freeing, neither among `xs` nor `own`; let xmlSearchNs find `found`, which is valid or NULL, from the
-- parent of `tree`; and let xmlCopyNamespace hand out `copy`, which is not NULL and was not in use. With fuel
-- above the length of `us` and that of `xs` plus one, the code returns. If `found` is not NULL, and it and
-- `own` have URIs that xmlStrcmp finds equal, then `holder` has the namespace `found`, and `own` is gone
-- from the declarations of `tree`, and first in the queue if it was among them. If not, and `own` is among
-- the declarations, then `holder` keeps it, and it is the first of them. And if it is not among them, then
-- `holder` has the namespace `copy`, with the URI and the prefix of `own`, which is declared first. Other
-- declarations keep their order, no other URI or prefix changes, and other nodes keep their namespaces.
pub reconcile_holder-IsReconciled :
    (lib : Libxml) (xml : Option Str) (fuel : ℕ) (h : Store)
    (tree holder own found copy unused : Ptr) (xs us : List Ptr)
    → IsHolder lib h tree holder own found unused xs us
    → CopiesNs lib h own copy
    → length xs + 1 < fuel
    → length us < fuel
    → Returns (reconcile_holder lib xml fuel tree holder unused h) (λ r g.
      IsReconciled h g tree holder own found copy r xs us (is_known lib h own found) (mem own xs))
unfolding reconcile_holder
reconcile_holder-IsReconciled lib xml fuel h tree holder own found copy unused xs us is copies
      enough enough_queue =
    let known = is_known lib h own found in
    let removed =
      dom_remove_ns_def-NsList fuel h tree own xs is.declares is.distinct is.tree_live is.own_live
        enough in
    rw
      (
        is.tree_live,
        is.tree_live,
        is.holder_live,
        is.holds,
        is.own_live,
        is.searched,
        same_href-run lib h own found xml is.found_live is.own_live,
      )
      (Returns-after _ _ (RemovedFrom h tree own xs) _ removed λ b g got.
        elim (Bool-cases (mem own xs)) [
          | inl here ↦ elim (Bool-cases known) [
            | inl e ↦
                rw (got.0, here, e)
                  (known_here lib xml fuel h tree holder own found copy unused xs us is enough
                    enough_queue g b got here)
            | inr e ↦
                rw (got.0, here, e)
                  (needed_here lib xml fuel h tree holder own found copy unused xs us is enough
                    enough_queue g b got)
          ]
          | inr absent ↦ elim (Bool-cases known) [
            | inl e ↦
                rw (got.0, absent, e)
                  (known_elsewhere lib xml fuel h tree holder own found copy unused xs us is enough
                    enough_queue g b got)
            | inr e ↦
                rw (got.0, absent, e)
                  (needed_elsewhere lib xml fuel h tree holder own found copy unused xs us is enough
                    enough_queue g b got absent copies)
          ]
        ])
