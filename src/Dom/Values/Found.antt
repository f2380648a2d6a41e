-- ===== src/Dom/Values/Found.antt =====
-- The node sets of the queries by name, and a round of their loops (domGetElementsByTagName,
-- domGetElementsByTagNameNS).
use perl_xml_lib_xml.Common.{
  ◌≡◌, refl, ap, ◌∙◌, sym, Bool, true, false, Option, List, [], ◌∷◌, ◌++◌, arith, ◌==◌,
  if◌then◌else◌, head_or, mem, mem-append, Distinct, Bool-cases, inl, inr,
}
use mathlib.Core.Path.{subst}
use perl_xml_lib_xml.Store.{Ptr, null, Str, Store, valid}
use perl_xml_lib_xml.Store.Outcome.{Cmd, pure, ◌>>=◌}
use perl_xml_lib_xml.Store.Fields.{get_next}
use perl_xml_lib_xml.Store.Returns.{Returns, Returns-after, Returns-mono}
use perl_xml_lib_xml.Libxml.{Libxml}
use perl_xml_lib_xml.Dom.Links.Chains.{Linked, AllNodes, mem-ne_sym}
use perl_xml_lib_xml.Dom.Values.{add_to_set}

-- What the queries read is the same.
pub record SameQuery (h g : Store) : Type 0 where
  pub live : g.live ≡ h.live
  pub next : g.next ≡ h.next
  pub name : g.name ≡ h.name
  pub ns : g.ns ≡ h.ns
  pub ns_live : g.ns_live ≡ h.ns_live
  pub ns_href : g.ns_href ≡ h.ns_href

-- The node sets of libxml2: xmlXPathNodeSetCreate makes one with a node in it, and xmlXPathNodeSetAdd adds
-- a node that is not in the set at its end. Neither touches nodes.
pub record NodeSets (lib : Libxml) : Type 0 where
  pub members : Store → Ptr → List Ptr
  pub create :
      (h : Store) (n : Ptr)
      → Returns
          (lib.node_set_create n h)
          (λ s g. ((s == null) ≡ false) × (members g s ≡ n ∷ []) × SameQuery h g)
  pub add :
      (h : Store) (s n : Ptr)
      → mem n (members h s) ≡ false
      → Returns
          (lib.node_set_add s n h)
          (λ _ g. (members g s ≡ members h s ++ n ∷ []) × SameQuery h g)

pub SameQuery-trans : (f g h : Store) → SameQuery f g → SameQuery g h → SameQuery f h
SameQuery-trans f g h a b = record {
  live = b.live ∙ a.live;
  next = b.next ∙ a.next;
  name = b.name ∙ a.name;
  ns = b.ns ∙ a.ns;
  ns_live = b.ns_live ∙ a.ns_live;
  ns_href = b.ns_href ∙ a.ns_href;
}

pub SameQuery-refl : (h : Store) → SameQuery h h
SameQuery-refl h = record {
  live = refl;
  next = refl;
  name = refl;
  ns = refl;
  ns_live = refl;
  ns_href = refl;
}

-- The nodes of `xs` that pass a test, in order.
unfoldable pub matching : (Ptr → Bool) → List Ptr → List Ptr
matching test [] = []
matching test (x ∷ xs) = if test x then x ∷ matching test xs else matching test xs

pub append-[] : (xs : List Ptr) → xs ++ [] ≡ xs
append-[] [] = refl
append-[] (x ∷ xs) = ap (λ ys. x ∷ ys) (append-[] xs)

append_assoc : (xs ys zs : List Ptr) → (xs ++ ys) ++ zs ≡ xs ++ (ys ++ zs)
append_assoc [] ys zs = refl
append_assoc (x ∷ xs) ys zs = ap (λ ws. x ∷ ws) (append_assoc xs ys zs)

if-append :
    (b : Bool) (c : Ptr) (ms : List Ptr)
    → (if b then c ∷ [] else []) ++ ms ≡ (if b then c ∷ ms else ms)
if-append true c ms = refl
if-append false c ms = refl

module _ (lib : Libxml) (xml : Option Str) (sets : NodeSets lib) where
  -- The nodes in a result: NULL stands for none.
  abbrev pub found : Store → Ptr → List Ptr
  found h rv = if rv == null then [] else sets.members h rv

  -- The nodes `cs` were added to a result.
  abbrev pub Added : Store → Ptr → List Ptr → Ptr → Store → Type 0
  Added h rv cs r g = (found g r ≡ found h rv ++ cs) × SameQuery h g

  add_to_set-found :
      (h : Store) (rv c : Ptr)
      → mem c (found h rv) ≡ false
      → Returns (add_to_set lib xml rv c h) (Added h rv (c ∷ []))
  unfolding add_to_set
  add_to_set-found h rv c out = elim (Bool-cases (rv == null)) [
    | inl e ↦
        let made : Returns (lib.node_set_create c h) (Added h rv (c ∷ [])) =
          Returns-mono _
            (λ s g. ((s == null) ≡ false) × (sets.members g s ≡ c ∷ []) × SameQuery h g)
            (Added h rv (c ∷ [])) (sets.create h c) λ s g post. (rw (post.0, e) post.1, post.2) in
        rw e made
    | inr e ↦
        let out' : mem c (sets.members h rv) ≡ false = ground (arith, out) in
        rw e (
          Returns-after _ _
            (λ u g. (sets.members g rv ≡ sets.members h rv ++ c ∷ []) × SameQuery h g) _
            (sets.add h rv c out') λ u g post. (rw e post.0, post.1))
  ]

  -- One round of a loop.
  round-found :
      (h : Store) (rv c : Ptr) (b : Bool)
      → mem c (found h rv) ≡ false
      → Returns
          ((if b then add_to_set lib xml rv c else pure rv) h)
          (Added h rv (if b then c ∷ [] else []))
  round-found h rv c true out = add_to_set-found h rv c out
  round-found h rv c false out = (sym (append-[] (found h rv)), SameQuery-refl h)

  -- The rest of the list is still outside of the result.
  outside_next :
      (h g : Store) (rv r c : Ptr) (b : Bool) (xs : List Ptr)
      → ((x : Ptr) → mem x (c ∷ xs) ≡ true → mem x (found h rv) ≡ false)
      → mem c xs ≡ false
      → Added h rv (if b then c ∷ [] else []) r g
      → (x : Ptr) → mem x xs ≡ true
      → mem x (found g r) ≡ false
  outside_next h g rv r c b xs out apart post x i =
      let ne = mem-ne_sym x c xs apart i in
      let before = out x (ground arith) in
      rw (post.0, mem-append x (found h rv) (if b then c ∷ [] else []), before) (ground arith)

  -- What was added in a round and then in the rest of the loop.
  Added-rest :
      (h g k : Store) (rv r s c : Ptr) (test : Ptr → Bool) (xs : List Ptr)
      → Added h rv (if test c then c ∷ [] else []) r g
      → Added g r (matching test xs) s k
      → Added h rv (matching test (c ∷ xs)) s k
  unfolding matching
  Added-rest h g k rv r s c test xs a b = (
    b.0
        ∙ ap (λ ys. ys ++ matching test xs) a.0
        ∙ append_assoc (found h rv) (if test c then c ∷ [] else []) (matching test xs)
        ∙ ap (λ ys. found h rv ++ ys) (if-append (test c) c (matching test xs)),
    SameQuery-trans h g k a.1 b.1,
  )

  -- A round of a loop, whose rest does what it should.
  pub loop_round :
      (h g : Store) (before x rv : Ptr) (xs : List Ptr) (test : Store → Ptr → Bool)
      (loop : Ptr → Ptr → Cmd Ptr)
      → Linked h.next h.prev before (x ∷ xs) null
      → AllNodes h.live (x ∷ xs)
      → Distinct (x ∷ xs)
      → SameQuery h g
      → ((y : Ptr) → mem y (x ∷ xs) ≡ true → mem y (found g rv) ≡ false)
      → test g x ≡ test h x
      → ((r : Ptr) (f : Store)
          → SameQuery h f
          → ((y : Ptr) → mem y xs ≡ true → mem y (found f r) ≡ false)
          → Returns (loop (head_or xs null) r f) (Added f r (matching (test h) xs)))
      → Returns
          (((if test g x then add_to_set lib xml rv x else pure rv) >>= λ rv'.
              get_next x >>= λ n. loop n rv')
            g)
          (Added g rv (matching (test h) (x ∷ xs)))
  loop_round h g before x rv xs test loop l nodes apart same out same_test rest =
      let b = test g x in
      Returns-after _ _ (Added g rv (if b then x ∷ [] else [])) _
        (round-found g rv x b (out x (ground arith)))
        λ r f post.
          let same' = SameQuery-trans h g f same post.1 in
          let live' : valid f.live x ≡ true = rw same'.live nodes.0 in
          let next' : f.next x ≡ head_or xs null = ap (λ n. n x) same'.next ∙ l.1 in
          rw (live', next')
            (Returns-mono _ (Added f r (matching (test h) xs))
              (Added g rv (matching (test h) (x ∷ xs)))
              (rest r f same' (outside_next g f rv r x b xs out apart.0 post))
              λ s e post'.
                Added-rest g f e rv r s x (test h) xs
                  (subst (λ t. Added g rv (if t then x ∷ [] else []) r f) same_test post) post')
