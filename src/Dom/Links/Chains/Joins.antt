-- ===== src/Dom/Links/Chains/Joins.antt =====
-- Lists of siblings with others put in between.
use perl_xml_lib_xml.Common.{
  ◌≡◌, refl, ap, ◌∙◌, true, false, ◌||◌, not, List, [], ◌∷◌, ◌++◌, arith, ◌==◌, if◌then◌else◌,
  head_or, last_or, mem, Distinct, mem-append, last_or-append,
}
use perl_xml_lib_xml.Store.{Ptr, null, Store, update}
use perl_xml_lib_xml.Dom.Links.Chains.Nodes.{
  SameElsewhere, with_links, mem-ne, last_or-ne_null, Distinct-append, Distinct-split, mem-last_or,
}

-- Two lists with no node in common.
abbrev pub NoneIn : List Ptr → List Ptr → Type 0
NoneIn xs ys = (a : Ptr) → mem a xs ≡ true → mem a ys ≡ false

pub NoneIn-sym : (xs ys : List Ptr) → NoneIn xs ys → NoneIn ys xs
NoneIn-sym xs ys cross a i = ground (arith, cross a)

pub last_or-outside :
    (xs ys : List Ptr)
    → NoneIn xs ys
    → (last_or null xs == null || not (mem (last_or null xs) ys)) ≡ true
last_or-outside [] ys cross = refl
last_or-outside (x ∷ xs) ys cross = ground (arith, cross (last_or x xs) (mem-last_or x xs))

pub head_or-outside :
    (xs ys : List Ptr)
    → NoneIn xs ys
    → (head_or xs null == null || not (mem (head_or xs null) ys)) ≡ true
head_or-outside [] ys cross = refl
head_or-outside (x ∷ xs) ys cross = ground (arith, cross x)

-- The ends of a list into which `c ∷ cs` is put.
pub head_or-with :
    (c : Ptr) (xs cs ys : List Ptr)
    → mem null xs ≡ false
    → (if last_or null xs == null then c else head_or (xs ++ ys) null)
      ≡ head_or (xs ++ ((c ∷ cs) ++ ys)) null
head_or-with c [] cs ys some_node = refl
head_or-with c (x ∷ xs) cs ys some_node = rw (last_or-ne_null x xs some_node)

pub last_or-with :
    (c : Ptr) (xs cs ys : List Ptr)
    → mem null ys ≡ false
    → (if head_or ys null == null then last_or c cs else last_or null (xs ++ ys))
      ≡ last_or null (xs ++ ((c ∷ cs) ++ ys))
last_or-with c xs cs [] some_node =
    rw (last_or-append null xs ((c ∷ cs) ++ [])) (rw (last_or-append c cs []))
last_or-with c xs cs (y ∷ ys) some_node =
    let ne : (y == null) ≡ false = ground arith in
    rw (ne, last_or-append null xs (y ∷ ys), last_or-append null xs ((c ∷ cs) ++ y ∷ ys))
      (rw (last_or-append c cs (y ∷ ys)))

-- A node outside of a list is none of its ends.
pub last_or-not :
    (q : Ptr) (xs : List Ptr)
    → mem q xs ≡ false
    → (last_or null xs == null || not (q == last_or null xs)) ≡ true
last_or-not q [] out = refl
last_or-not q (x ∷ r) out = rw (mem-ne q (last_or x r) (x ∷ r) out (mem-last_or x r)) (ground arith)

pub head_or-not :
    (q : Ptr) (xs : List Ptr)
    → mem q xs ≡ false
    → (head_or xs null == null || not (q == head_or xs null)) ≡ true
head_or-not q [] out = refl
head_or-not q (x ∷ r) out = ground arith

-- Lists put into the middle of a list of distinct nodes.
pub Distinct-insert :
    (xs cs ys : List Ptr)
    → Distinct (xs ++ ys)
    → Distinct cs
    → NoneIn cs (xs ++ ys)
    → Distinct (xs ++ (cs ++ ys))
Distinct-insert xs cs ys d dc cross =
    let (dx, dy, apart) = Distinct-split xs ys d in
    Distinct-append xs (cs ++ ys) dx
      (Distinct-append cs ys dc dy (λ a i. ground (arith, cross a, mem-append a xs ys)))
      (λ a i. ground (arith, cross a, mem-append a xs ys, mem-append a cs ys, apart a))

pub NoneIn-one : (c : Ptr) (zs : List Ptr) → mem c zs ≡ false → NoneIn (c ∷ []) zs
NoneIn-one c zs out a i = let e : a ≡ c = ground arith in rw e out

pub SameElsewhere-trans :
    {ps zs : List Ptr} {h g k : Store}
    → SameElsewhere ps zs h g
    → SameElsewhere ps zs g k
    → SameElsewhere ps zs h k
SameElsewhere-trans {h} s t = record {
  next = λ q out. t.next q out ∙ s.next q out;
  prev = λ q out. t.prev q out ∙ s.prev q out;
  parent = λ q out. t.parent q out ∙ s.parent q out;
  first = λ q out. t.first q out ∙ s.first q out;
  final = λ q out. t.final q out ∙ s.final q out;
  live = t.live ∙ s.live;
  kind = t.kind ∙ s.kind;
  doc = t.doc ∙ s.doc;
  ns = t.ns ∙ s.ns;
  properties = t.properties ∙ s.properties;
  others = ap (λ m. with_links m h) t.others ∙ s.others;
}

pub SameElsewhere-parent :
    (ps zs : List Ptr) (h : Store) (cur p : Ptr)
    → mem cur zs ≡ true
    → SameElsewhere ps zs h (record h { parent = update h.parent cur p })
SameElsewhere-parent ps zs h cur p i = record {
  next = λ q out. refl;
  prev = λ q out. refl;
  parent = λ q out. rw (mem-ne q cur zs out i);
  first = λ q out. refl;
  final = λ q out. refl;
  live = refl;
  kind = refl;
  doc = refl;
  ns = refl;
  properties = refl;
  others = refl;
}
