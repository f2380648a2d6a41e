-- ===== src/Proxy/Owner/Fixed.antt =====
-- PmmFixOwner on a subtree whose proxies belong to one owner.
use perl_xml_lib_xml.Common.{
  ℕ, zero, suc, ◌+◌, ◌*◌, ◌<◌, ◌≡◌, ◌∙◌, ap, true, false, [], ◌∷◌, ◌++◌, arith, ◌==◌, length,
  Bool-cases, inl, inr,
}
use mathlib.Core.Path.{subst}
use perl_xml_lib_xml.Store.{Ptr, null, Store}
use perl_xml_lib_xml.Store.Outcome.{done}
use perl_xml_lib_xml.Libxml.{Libxml}
use perl_xml_lib_xml.Proxy.Owner.{has_no_owner, pmm_fix_owner, pmm_fix_owner_list}
use perl_xml_lib_xml.Proxy.Owner.Moved.{
  moved, shifted, with_owners, AreOwners, CanMove, CanMove-split, all_moved, all_moved-append,
  all_moved-none,
}
use perl_xml_lib_xml.Proxy.Owner.Walk.{
  Subtrees, nothing, subtree, size, attrs_of, kids_of, own_proxy, proxies, IsInner, AreSubtrees,
  pmm_fix_owner-moved, null-proxies, list_end, list_skip, list_bare, list_proxy,
}

module _ (lib : Libxml) (h : Store) (new old owner : Ptr) (are : AreOwners h new old owner) where
  -- PmmFixOwnerList moves all proxies of the forest to the new owner.
  pub pmm_fix_owner_list-moved :
      (t : Subtrees) (k : ℕ) (p : Ptr) (w : Ptr → Ptr) (c : Ptr → ℕ)
      → AreSubtrees h p t
      → CanMove new old owner w c (proxies h t)
      → 2 * size t < k
      → pmm_fix_owner_list lib k p new (with_owners h w c)
        ≡ done tt (all_moved h new old owner (proxies h t) w c)
  unfolding proxies size
  pmm_fix_owner_list-moved t zero p w c is can fuel = elim fuel [ ]
  pmm_fix_owner_list-moved nothing (suc k) p w c is can fuel = rw (
    is,
    list_end lib h new old owner are k (with_owners h w c),
    all_moved-none h new old owner w c,
  )
  pmm_fix_owner_list-moved (subtree x attrs kids rest) (suc zero) p w c is can fuel =
      absurd (omega arith)
  pmm_fix_owner_list-moved (subtree x attrs kids rest) (suc (suc k)) p w c is can fuel =
      let ps = own_proxy h x in
      let as_ = proxies h attrs in
      let ks = proxies h kids in
      let rs = proxies h rest in
      let n = h.proxy_node new in
      let w1 = moved n ps w in
      let c1 = shifted new old (length ps) c in
      let w2 = moved n as_ w1 in
      let c2 = shifted new old (length as_) c1 in
      let w3 = moved n ks w2 in
      let c3 = shifted new old (length ks) c2 in
      let (can_p, can1) = CanMove-split h new old owner w c ps (as_ ++ (ks ++ rs)) are.differ can in
      let (can_a, can2) = CanMove-split h new old owner w1 c1 as_ (ks ++ rs) are.differ can1 in
      let (can_k, can_r) = CanMove-split h new old owner w2 c2 ks rs are.differ can2 in
      let behind =
        pmm_fix_owner_list-moved rest (suc k) (h.next x) w3 c3 is.4 can_r (omega arith) in
      let joined : all_moved h new old owner rs w3 c3
          ≡ all_moved h new old owner (ps ++ (as_ ++ (ks ++ rs))) w c =
        all_moved-append h new old owner w2 c2 ks rs are.differ
        ∙ all_moved-append h new old owner w1 c1 as_ (ks ++ rs) are.differ
        ∙ all_moved-append h new old owner w c ps (as_ ++ (ks ++ rs)) are.differ in
      elim (Bool-cases (has_no_owner (h.kind x))) [
        | inl e ↦
            let same : ps ++ (as_ ++ (ks ++ rs)) ≡ rs =
              rw (e, null-proxies lib h new old owner are attrs (attrs_of h x) (rw e) is.2)
                (rw (null-proxies lib h new old owner are kids (kids_of h x) (rw e) is.3)) in
            let can' = subst (λ qs. CanMove new old owner w c qs) same can in
            rw (is.0, list_skip lib h new old owner are (suc k) x w c is.1 e, same)
              (pmm_fix_owner_list-moved rest (suc k) (h.next x) w c is.4 can' (omega arith))
        | inr e ↦ elim (Bool-cases (h.priv x == null)) [
          | inl bare ↦
              let own : ps ≡ [] = rw (e, bare) in
              let start : all_moved h new old owner ps w c ≡ with_owners h w c =
                rw own (all_moved-none h new old owner w c) in
              let inside =
                subst
                  (λ g.
                    pmm_fix_owner_list lib (suc k) (attrs_of h x) new g
                    ≡ done tt (with_owners h w2 c2))
                  start
                  (pmm_fix_owner_list-moved attrs (suc k) (attrs_of h x) w1 c1 is.2 can_a
                    (omega arith)) in
              let below =
                pmm_fix_owner_list-moved kids (suc k) (kids_of h x) w2 c2 is.3 can_k
                  (omega arith) in
              let round =
                list_bare lib h new old owner are (suc k) x w w2 w3 c c2 c3 is.1 e bare inside
                  below in
              rw (is.0, round, behind, joined)
          | inr ne ↦
              let own : ps ≡ h.priv x ∷ [] = rw (e, ne) in
              let can_x = subst (λ qs. CanMove new old owner w c qs) own can_p in
              let inside =
                subst
                  (λ qs.
                    pmm_fix_owner_list lib k (attrs_of h x) new (all_moved h new old owner qs w c)
                    ≡ done tt (with_owners h w2 c2))
                  own
                  (pmm_fix_owner_list-moved attrs k (attrs_of h x) w1 c1 is.2 can_a
                    (omega arith)) in
              let below =
                pmm_fix_owner_list-moved kids k (kids_of h x) w2 c2 is.3 can_k (omega arith) in
              let fixed =
                pmm_fix_owner-moved lib h new old owner are k x w w2 w3 c c2 c3 is.1 e ne can_x
                  inside below in
              rw (
                is.0,
                list_proxy lib h new old owner are (suc k) x w w3 c c3 is.1 e ne fixed,
                behind,
                joined,
              )
        ]
      ]

-- Let `x` be a node with a proxy, below another node and neither a document, a DTD nor a declaration,
-- and let all proxies in its subtree, its own one, those of its attributes and those of its
-- descendants, belong to the node `owner`, whose proxy `old` has more references than these and less
-- than 2^31. Let `new` be another proxy, outside of the subtree, with a count that stays below 2^31. With
-- more fuel than twice the size of the subtree plus two, PmmFixOwner(proxy of x, new) returns 1; all
-- these proxies then belong to the node of `new`, whose count has gone up by their number, as that of
-- `old` has gone down, and nothing else changes.
pub pmm_fix_owner-subtree :
    (lib : Libxml) (fuel : ℕ) (h : Store) (new old owner x : Ptr) (attrs kids : Subtrees)
    → AreOwners h new old owner
    → IsInner h x
    → has_no_owner (h.kind x) ≡ false
    → (h.priv x == null) ≡ false
    → AreSubtrees h (attrs_of h x) attrs
    → AreSubtrees h (kids_of h x) kids
    → CanMove new old owner h.proxy_owner h.proxy_count
        (h.priv x ∷ (proxies h attrs ++ proxies h kids))
    → 2 * (size attrs + size kids) + 2 < fuel
    → pmm_fix_owner lib fuel (h.priv x) new h
      ≡ done true (
          all_moved h new old owner
            (h.priv x ∷ (proxies h attrs ++ proxies h kids))
            h.proxy_owner
            h.proxy_count)
pmm_fix_owner-subtree lib zero h new old owner x attrs kids are is fixed ne ia ik can fuel =
    elim fuel [ ]
pmm_fix_owner-subtree lib (suc k) h new old owner x attrs kids are is fixed ne ia ik can fuel =
    let w = h.proxy_owner in
    let c = h.proxy_count in
    let as_ = proxies h attrs in
    let ks = proxies h kids in
    let w1 = moved (h.proxy_node new) (h.priv x ∷ []) w in
    let c1 = shifted new old 1 c in
    let w2 = moved (h.proxy_node new) as_ w1 in
    let c2 = shifted new old (length as_) c1 in
    let (can_x, can1) =
      CanMove-split h new old owner w c (h.priv x ∷ []) (as_ ++ ks) are.differ can in
    let (can_a, can_k) = CanMove-split h new old owner w1 c1 as_ ks are.differ can1 in
    let inside =
      pmm_fix_owner_list-moved lib h new old owner are attrs k (attrs_of h x) w1 c1 ia can_a
        (omega arith) in
    let below =
      pmm_fix_owner_list-moved lib h new old owner are kids k (kids_of h x) w2 c2 ik can_k
        (omega arith) in
    pmm_fix_owner-moved lib h new old owner are k x w w2 (moved (h.proxy_node new) ks w2) c c2
      (shifted new old (length ks) c2) is fixed ne can_x inside below
    ∙ ap (done true) (
        all_moved-append h new old owner w1 c1 as_ ks are.differ
        ∙ all_moved-append h new old owner w c (h.priv x ∷ []) (as_ ++ ks) are.differ)
