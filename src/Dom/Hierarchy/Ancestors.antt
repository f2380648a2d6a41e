-- ===== src/Dom/Hierarchy/Ancestors.antt =====
-- domIsParent and domTestHierarchy against the ancestors of a node.
use perl_xml_lib_xml.Common.{
  ℕ, zero, suc, ◌<◌, ◌≡◌, refl, sym, ap, true, false, ◌&&◌, ◌||◌, not, List, [], ◌∷◌, arith, ◌==◌,
  if◌then◌else◌, length, All, mem, Bool-cases, inl, inr,
}
use perl_xml_lib_xml.Store.{Ptr, null, Store, update, valid}
use perl_xml_lib_xml.Store.Kinds.{is_attribute, is_document}
use perl_xml_lib_xml.Store.Outcome.{done}
use perl_xml_lib_xml.Dom.Links.Chains.{Links, valid-ne_null}
use perl_xml_lib_xml.Dom.Hierarchy.{
  is_parent_loop, dom_is_parent, fits_attribute, dom_test_hierarchy,
}

-- From `n` the parent pointers lead through the nodes `path` to NULL.
abbrev pub LeadsUp : Store → Ptr → List Ptr → Type 0
LeadsUp h n [] = n ≡ null
LeadsUp h n (x ∷ xs) = (n ≡ x) × (valid h.live x ≡ true) × LeadsUp h (h.parent x) xs

-- The ancestors of `n`, nearest first: they belong to the document of `n`, they have children, and
-- above the document node there is nothing.
pub record HasAncestors (h : Store) (n : Ptr) (above : List Ptr) : Type 0 where
  pub path : LeadsUp h n (n ∷ above)
  pub same_doc : All (λ x. h.doc x ≡ h.doc n) above
  pub inner : All (λ x. (h.children x == null) ≡ false) above
  pub top : (valid h.live (h.doc n) ≡ true) → h.parent (h.doc n) ≡ null

abbrev until : Ptr → List Ptr → List Ptr
until d [] = []
until d (x ∷ xs) = if x == d then [] else x ∷ until d xs

is_parent_loop-until :
    (k : ℕ) (h : Store) (d n ref : Ptr) (path : List Ptr)
    → LeadsUp h n path
    → length path < k
    → is_parent_loop k d n ref h ≡ done (mem ref (until d path)) h
unfolding is_parent_loop
is_parent_loop-until zero h d n ref path up fuel = elim fuel [ ]
is_parent_loop-until (suc k) h d n ref [] up fuel = ground arith
is_parent_loop-until (suc k) h d n ref (x ∷ xs) up fuel =
    ground (arith, valid-ne_null h.live x, is_parent_loop-until k h d (h.parent x) ref xs)

top-not_below :
    (h : Store) (d x y : Ptr)
    → (x == d) ≡ true
    → valid h.live x ≡ true
    → (h.parent x ≡ y) × (valid h.live y ≡ true)
    → (valid h.live d ≡ true → h.parent d ≡ null)
    → ⊥
top-not_below h d x y e vx up top =
    let e' : d ≡ x = ground arith in
    let t = top (rw e' vx) in ground (arith, valid-ne_null h.live y up.1)

-- Nothing but the document is cut off.
mem-until :
    (h : Store) (d n ref : Ptr) (path : List Ptr)
    → LeadsUp h n path
    → (valid h.live d ≡ true → h.parent d ≡ null)
    → (ref == d) ≡ false
    → mem ref (until d path) ≡ mem ref path
mem-until h d n ref [] up top ne = refl
mem-until h d n ref (x ∷ []) up top ne = ground arith
mem-until h d n ref (x ∷ y ∷ r) up top ne =
    let rest = mem-until h d (h.parent x) ref (y ∷ r) up.2 top ne in
    elim (Bool-cases (x == d)) [
      | inl e ↦ absurd (top-not_below h d x y e up.1 (up.2.0, up.2.1) top)
      | inr e ↦ rw (e, rest)
    ]

not-mem_of_doc :
    (h : Store) (d ref : Ptr) (xs : List Ptr)
    → All (λ x. h.doc x ≡ d) xs
    → (d == h.doc ref) ≡ false
    → mem ref xs ≡ false
not-mem_of_doc h d ref [] all ne = refl
not-mem_of_doc h d ref (x ∷ xs) all ne = ground (arith, not-mem_of_doc h d ref xs)

not-mem_of_leaf :
    (h : Store) (ref : Ptr) (xs : List Ptr)
    → All (λ x. (h.children x == null) ≡ false) xs
    → (h.children ref == null) ≡ true
    → mem ref xs ≡ false
not-mem_of_leaf h ref [] all leaf = refl
not-mem_of_leaf h ref (x ∷ xs) all leaf = ground (arith, not-mem_of_leaf h ref xs)

-- Right under the document, or without a parent, there is no other ancestor.
not-mem_of_top :
    (h : Store) (d n ref : Ptr) (above : List Ptr)
    → LeadsUp h n above
    → ((n == d) || (n == null)) ≡ true
    → (valid h.live d ≡ true → h.parent d ≡ null)
    → (ref == d) ≡ false
    → mem ref above ≡ false
not-mem_of_top h d n ref [] up at_top top ne = refl
not-mem_of_top h d n ref (x ∷ []) up at_top top ne = ground (arith, valid-ne_null h.live x)
not-mem_of_top h d n ref (x ∷ y ∷ r) up at_top top ne =
    absurd
      (top-not_below h d x y (ground (arith, valid-ne_null h.live x)) up.1 (up.2.0, up.2.1) top)

-- Let `above` be the ancestors of the node `cur`, all of them in its document and with children, and
-- `ref` a node other than the document node. With more fuel than there are ancestors plus one, domIsParent
-- returns 1 exactly if `ref` is `cur` or one of its ancestors, and it changes nothing.
pub dom_is_parent-mem :
    (fuel : ℕ) (h : Store) (cur ref : Ptr) (above : List Ptr)
    → HasAncestors h cur above
    → valid h.live ref ≡ true
    → (ref == h.doc cur) ≡ false
    → is_document (h.kind ref) ≡ false
    → suc (length above) < fuel
    → dom_is_parent fuel cur ref h ≡ done (mem ref (cur ∷ above)) h
unfolding dom_is_parent
dom_is_parent-mem fuel h cur ref above is vr ne kd enough =
    let vc = is.path.1 in
    let d = h.doc cur in
    let nc = valid-ne_null h.live cur vc in
    let nr = valid-ne_null h.live ref vr in
    let up = is.path.2 in
    let loop = is_parent_loop-until fuel h d cur ref (cur ∷ above) is.path enough in
    let all = mem-until h d cur ref (cur ∷ above) is.path is.top ne in
    elim (Bool-cases (ref == cur)) [
      | inl e ↦ rw (nc, nr, e)
      | inr e ↦ elim (Bool-cases (d == h.doc ref)) [
        | inr f ↦
            rw (nc, nr, e, vc, vr, vr, vc, f)
              (ap (λ b. done b h) (sym (not-mem_of_doc h d ref above is.same_doc f)))
        | inl f ↦ elim (Bool-cases (h.children ref == null)) [
          | inl g ↦
              rw (nc, nr, e, vc, vr, vr, vc, f, g)
                (ap (λ b. done b h) (sym (not-mem_of_leaf h ref above is.inner g)))
          | inr g ↦ elim (Bool-cases ((h.parent cur == d) || (h.parent cur == null))) [
            | inl t ↦
                rw (nc, nr, e, vc, vr, vr, vc, f, g, t)
                  (ap (λ b. done b h)
                    (sym (not-mem_of_top h d (h.parent cur) ref above up t is.top ne)))
            | inr t ↦ rw (nc, nr, e, vc, vr, vr, vc, f, g, t, vr, kd, loop, all, e)
          ]
        ]
      ]
    ]

-- Let `above` be the ancestors of the node `cur`, all of them in its document and with children, and
-- `ref` a node other than the document node. With more fuel than there are ancestors plus one,
-- domTestHierarchy changes nothing and allows `ref` under `cur` exactly in
-- these cases: `cur` is an attribute and `ref` a text or an entity reference; or `cur` is no attribute,
-- `ref` is neither an attribute nor a document, and `ref` is neither `cur` nor one of its ancestors.
pub dom_test_hierarchy-mem :
    (fuel : ℕ) (h : Store) (cur ref : Ptr) (above : List Ptr)
    → HasAncestors h cur above
    → valid h.live ref ≡ true
    → (ref == h.doc cur) ≡ false
    → suc (length above) < fuel
    → dom_test_hierarchy fuel cur ref h
      ≡ done
          (if is_attribute (h.kind cur)
            then fits_attribute (h.kind ref)
            else not (is_attribute (h.kind ref) || is_document (h.kind ref))
              && not (mem ref (cur ∷ above)))
          h
unfolding dom_test_hierarchy
dom_test_hierarchy-mem fuel h cur ref above is vr ne enough =
    let vc = is.path.1 in
    let nc = valid-ne_null h.live cur vc in
    let nr = valid-ne_null h.live ref vr in
    elim (Bool-cases (is_attribute (h.kind cur))) [
      | inl a ↦ rw (nc, nr, vc, vr, a)
      | inr a ↦ elim (Bool-cases (is_attribute (h.kind ref) || is_document (h.kind ref))) [
        | inl b ↦ rw (nc, nr, vc, vr, a, b)
        | inr b ↦
            let kd : is_document (h.kind ref) ≡ false = ground arith in
            rw (nc, nr, vc, vr, a, b, dom_is_parent-mem fuel h cur ref above is vr ne kd enough)
      ]
    ]

-- By parent pointers alone `n` leads to NULL after finitely many steps.
pub data IsRooted (parent : Links) : Ptr → Type 0 where
  top : {n : Ptr} → (n == null) ≡ true → IsRooted parent n
  below : {n : Ptr} → IsRooted parent (parent n) → IsRooted parent n

LeadsUp-IsRooted :
    (h : Store) (cur p n : Ptr) (path : List Ptr)
    → LeadsUp h n path
    → mem cur path ≡ false
    → IsRooted (update h.parent cur p) n
LeadsUp-IsRooted h cur p n [] up out = top (ground arith)
LeadsUp-IsRooted h cur p n (x ∷ xs) up out =
    let ne : (n == cur) ≡ false = ground arith in
    let e : update h.parent cur p n ≡ h.parent x = ground arith in
    below (rw e (LeadsUp-IsRooted h cur p (h.parent x) xs up.2 (ground arith)))

IsRooted-update :
    (h : Store) (cur p : Ptr) {m : Ptr}
    → IsRooted (update h.parent cur p) p
    → IsRooted h.parent m
    → IsRooted (update h.parent cur p) m
IsRooted-update h cur p rooted (top e) = top e
IsRooted-update h cur p rooted (below {n} r) = elim (Bool-cases (n == cur)) [
  | inl e ↦ below (rw e rooted)
  | inr e ↦ below (rw e (IsRooted-update h cur p rooted r))
]

-- Let `self` be no attribute, with its ancestors in its document and with children, `node` a node other
-- than the document node, and the fuel more than there are ancestors plus one. If domTestHierarchy allows
-- `node` under `self`, giving `node` the parent `self` makes no cycle: every node from which the parent
-- pointers lead to NULL still has that property.
pub dom_test_hierarchy-IsRooted :
    (fuel : ℕ) (h : Store) (self node m : Ptr) (above : List Ptr)
    → HasAncestors h self above
    → valid h.live node ≡ true
    → (node == h.doc self) ≡ false
    → suc (length above) < fuel
    → is_attribute (h.kind self) ≡ false
    → dom_test_hierarchy fuel self node h ≡ done true h
    → IsRooted h.parent m
    → IsRooted (update h.parent node self) m
dom_test_hierarchy-IsRooted fuel h self node m above is vn ne enough ka allowed rooted =
    let e = dom_test_hierarchy-mem fuel h self node above is vn ne enough in
    let out : mem node (self ∷ above) ≡ false = ground arith in
    IsRooted-update h node self (LeadsUp-IsRooted h node self self (self ∷ above) is.path out)
      rooted
