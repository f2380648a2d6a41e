-- ===== src/Proxy/Owner/Walk.antt =====
-- The rounds of PmmFixOwner and PmmFixOwnerList on a subtree whose proxies belong to one owner.
use perl_xml_lib_xml.Common.{
  ℕ, zero, suc, ◌+◌, ◌≡◌, refl, Bool, true, false, ◌&&◌, ◌||◌, not, List, [], ◌∷◌, ◌++◌, arith,
  ◌==◌, if◌then◌else◌, Bool-cases, inl, inr, ==_refl,
}
use perl_xml_lib_xml.Store.{Ptr, null, Store, valid}
use perl_xml_lib_xml.Store.Kinds.{is_attribute, is_document, is_dtd}
use perl_xml_lib_xml.Store.Outcome.{Outcome, done, when, ◌>>=◌}
use perl_xml_lib_xml.Store.Fields.{get_properties}
use perl_xml_lib_xml.Libxml.{Libxml}
use perl_xml_lib_xml.Dom.Links.Chains.{valid-ne_null}
use perl_xml_lib_xml.Proxy.Node.{pmm_ownerpo}
use perl_xml_lib_xml.Proxy.Owner.{has_no_owner, pmm_fix_owner, pmm_fix_owner_list}
use perl_xml_lib_xml.Proxy.Owner.Moved.{
  moved, shifted, with_owners, AreOwners, CanMove, all_moved, change_owner-moved,
}

-- The shape of a forest: a node with its attributes, its children, and what follows it.
pub data Subtrees : Type 0 where
  nothing : Subtrees
  subtree : Ptr → Subtrees → Subtrees → Subtrees → Subtrees

unfoldable pub size : Subtrees → ℕ
size nothing = 0
size (subtree x attrs kids rest) = suc (size attrs + size kids + size rest)

-- The attributes and the children that PmmFixOwnerList goes to.
abbrev pub attrs_of : Store → Ptr → Ptr
attrs_of h x = if has_no_owner (h.kind x) || is_attribute (h.kind x) then null else h.properties x

abbrev pub kids_of : Store → Ptr → Ptr
kids_of h x = if has_no_owner (h.kind x) then null else h.children x

-- The proxy of a node, if it has one and is of a kind that has an owner.
abbrev pub own_proxy : Store → Ptr → List Ptr
own_proxy h x = if has_no_owner (h.kind x) || (h.priv x == null) then [] else h.priv x ∷ []

-- The proxies in a forest.
unfoldable pub proxies : Store → Subtrees → List Ptr
proxies h nothing = []
proxies h (subtree x attrs kids rest) =
    own_proxy h x ++ (proxies h attrs ++ (proxies h kids ++ proxies h rest))

-- A live node below another one, neither a document nor a DTD; its proxy stands for it.
pub record IsInner (h : Store) (x : Ptr) : Type 0 where
  pub live : valid h.live x ≡ true
  pub below : valid h.live (h.parent x) ≡ true
  pub no_document : is_document (h.kind x) ≡ false
  pub no_dtd : is_dtd (h.kind x) ≡ false
  pub proxy_live : (h.priv x == null) ≡ false → valid h.proxy_live (h.priv x) ≡ true
  pub proxy_node : (h.priv x == null) ≡ false → h.proxy_node (h.priv x) ≡ x

-- The nodes from `p` on are the forest.
abbrev pub AreSubtrees : Store → Ptr → Subtrees → Type 0
AreSubtrees h p nothing = p ≡ null
AreSubtrees h p (subtree x attrs kids rest) =
    (p ≡ x)
    × IsInner h x
    × AreSubtrees h (attrs_of h x) attrs
    × AreSubtrees h (kids_of h x) kids
    × AreSubtrees h (h.next x) rest

module _ (lib : Libxml) (h : Store) (new old owner : Ptr) (are : AreOwners h new old owner) where
  abbrev pub after : List Ptr → (Ptr → Ptr) → (Ptr → ℕ) → Store
  after ps w c = all_moved h new old owner ps w c

  list_null :
      (k : ℕ) (w w' : Ptr → Ptr) (c c' : Ptr → ℕ)
      → pmm_fix_owner_list lib k null new (with_owners h w c) ≡ done tt (with_owners h w' c')
      → ◌≡◌ {A = Outcome (Unit {0})} (done tt (with_owners h w c)) (done tt (with_owners h w' c'))
  unfolding pmm_fix_owner_list
  list_null zero w w' c c' e = cc
  list_null (suc k) w w' c c' e = e

  -- `PmmFixOwnerList(node->properties, parent)` under the tests of the node's kind.
  when_attrs :
      (k : ℕ) (b : Bool) (x : Ptr) (w w' : Ptr → Ptr) (c c' : Ptr → ℕ)
      → valid h.live x ≡ true
      → has_no_owner (h.kind x) ≡ false
      → b ≡ not (is_attribute (h.kind x))
      → pmm_fix_owner_list lib k (attrs_of h x) new (with_owners h w c)
        ≡ done tt (with_owners h w' c')
      → when b (do attrs ← get_properties x; pmm_fix_owner_list lib k attrs new) (with_owners h w c)
        ≡ done tt (with_owners h w' c')
  when_attrs k b x w w' c c' vx fixed test inside = elim (Bool-cases (is_attribute (h.kind x))) [
    | inl e ↦ rw (test, e) (list_null k w w' c c' (rw (fixed, e) at inside))
    | inr e ↦ rw (test, e, vx) (rw (fixed, e) at inside)
  ]

  -- PmmFixOwner on the proxy of `x`, given what its recursive calls do.
  pub pmm_fix_owner-moved :
      (k : ℕ) (x : Ptr) (w w1 w2 : Ptr → Ptr) (c c1 c2 : Ptr → ℕ)
      → IsInner h x
      → has_no_owner (h.kind x) ≡ false
      → (h.priv x == null) ≡ false
      → CanMove new old owner w c (h.priv x ∷ [])
      → pmm_fix_owner_list lib k (attrs_of h x) new (after (h.priv x ∷ []) w c)
        ≡ done tt (with_owners h w1 c1)
      → pmm_fix_owner_list lib k (kids_of h x) new (with_owners h w1 c1)
        ≡ done tt (with_owners h w2 c2)
      → pmm_fix_owner lib (suc k) (h.priv x) new (with_owners h w c)
        ≡ done true (with_owners h w2 c2)
  unfolding pmm_fix_owner pmm_ownerpo
  pmm_fix_owner-moved k x w w1 w2 c c1 c2 is fixed ne can inside below =
      let proxy = h.priv x in
      let vp = is.proxy_live ne in
      let own : w proxy ≡ owner = can.owned proxy (rw (==_refl proxy)) in
      let some_owner = valid-ne_null h.live owner are.owner_live in
      let other : (old == new) ≡ false = ground (arith, are.differ) in
      let tested : (not (is_attribute (h.kind x)) && not (is_dtd (h.kind x)))
          ≡ not (is_attribute (h.kind x)) =
        ground (arith, is.no_dtd) in
      let only_kids : pmm_fix_owner_list lib k (h.children x) new (with_owners h w1 c1)
          ≡ done tt (with_owners h w2 c2) =
        rw fixed at below in
      rw (
        ne,
        vp,
        is.proxy_node ne,
        is.live,
        fixed,
        is.no_document,
        vp,
        own,
        some_owner,
        vp,
        own,
        some_owner,
        are.owner_live,
        are.owner_proxy,
        other,
        change_owner-moved h new old owner lib k w c proxy are vp can,
        vp,
        is.proxy_node ne,
        is.live,
        when_attrs k (not (is_attribute (h.kind x)) && not (is_dtd (h.kind x))) x
            (moved (h.proxy_node new) (proxy ∷ []) w) w1 (shifted new old 1 c) c1 is.live fixed
            tested inside,
        is.live,
        is.live,
        valid-ne_null h.proxy_live new are.new_live,
        valid-ne_null h.live (h.parent x) is.below,
        only_kids,
      )

  -- A pointer to nothing has no proxies behind it.
  pub null-proxies : (t : Subtrees) (p : Ptr) → p ≡ null → AreSubtrees h p t → proxies h t ≡ []
  unfolding proxies
  null-proxies nothing p e is = refl
  null-proxies (subtree x attrs kids rest) p e is =
      let some_node = valid-ne_null h.live x is.1.live in absurd (ground (arith, is.0))

  pub list_end : (k : ℕ) (g : Store) → pmm_fix_owner_list lib (suc k) null new g ≡ done tt g
  unfolding pmm_fix_owner_list
  list_end k g = refl

  -- One round of PmmFixOwnerList: at a kind that has no owner, at a node without a proxy, at a proxy.
  pub list_skip :
      (k : ℕ) (x : Ptr) (w : Ptr → Ptr) (c : Ptr → ℕ)
      → IsInner h x
      → has_no_owner (h.kind x) ≡ true
      → pmm_fix_owner_list lib (suc k) x new (with_owners h w c)
        ≡ pmm_fix_owner_list lib k (h.next x) new (with_owners h w c)
  unfolding pmm_fix_owner_list
  list_skip k x w c is e = rw (valid-ne_null h.live x is.live, is.live, e, is.live)

  pub list_bare :
      (k : ℕ) (x : Ptr) (w w1 w2 : Ptr → Ptr) (c c1 c2 : Ptr → ℕ)
      → IsInner h x
      → has_no_owner (h.kind x) ≡ false
      → (h.priv x == null) ≡ true
      → pmm_fix_owner_list lib k (attrs_of h x) new (with_owners h w c)
        ≡ done tt (with_owners h w1 c1)
      → pmm_fix_owner_list lib k (kids_of h x) new (with_owners h w1 c1)
        ≡ done tt (with_owners h w2 c2)
      → pmm_fix_owner_list lib (suc k) x new (with_owners h w c)
        ≡ pmm_fix_owner_list lib k (h.next x) new (with_owners h w2 c2)
  unfolding pmm_fix_owner_list
  list_bare k x w w1 w2 c c1 c2 is e bare inside below =
      let only_kids : pmm_fix_owner_list lib k (h.children x) new (with_owners h w1 c1)
          ≡ done tt (with_owners h w2 c2) =
        rw e at below in
      rw (
        valid-ne_null h.live x is.live,
        is.live,
        e,
        is.live,
        bare,
        when_attrs k (not (is_attribute (h.kind x))) x w w1 c c1 is.live e refl inside,
        is.live,
        only_kids,
        is.live,
      )

  pub list_proxy :
      (k : ℕ) (x : Ptr) (w w' : Ptr → Ptr) (c c' : Ptr → ℕ)
      → IsInner h x
      → has_no_owner (h.kind x) ≡ false
      → (h.priv x == null) ≡ false
      → pmm_fix_owner lib k (h.priv x) new (with_owners h w c) ≡ done true (with_owners h w' c')
      → pmm_fix_owner_list lib (suc k) x new (with_owners h w c)
        ≡ pmm_fix_owner_list lib k (h.next x) new (with_owners h w' c')
  unfolding pmm_fix_owner_list
  list_proxy k x w w' c c' is e ne fixed =
      rw (valid-ne_null h.live x is.live, is.live, e, is.live, ne, fixed, is.live)
