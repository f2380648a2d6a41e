-- ===== src/Dom/Edit/Inserted.antt =====
-- Lists of siblings with a node put in (for domInsertBefore and domReplaceChild).
use perl_xml_lib_xml.Common.{
  ◌≡◌, refl, false, ◌||◌, List, [], ◌∷◌, ◌++◌, arith, ◌==◌, mem, mem-append, Distinct,
}
use perl_xml_lib_xml.Store.{Ptr}
use perl_xml_lib_xml.Dom.Links.Chains.{NoneIn}
use perl_xml_lib_xml.Dom.Edit.Append.{NoneIn-rest}

-- Membership once `n` is put into a list.
pub mem-inserted :
    (a n : Ptr) (xs ys : List Ptr) → mem a (xs ++ n ∷ ys) ≡ ((a == n) || mem a (xs ++ ys))
mem-inserted a n [] ys = refl
mem-inserted a n (x ∷ xs) ys = ground (arith, mem-inserted a n xs ys)

-- What is neither in the new list of siblings nor in the old one of `n` is not in the list with `n`.
pub mem-inserted_false :
    (a n : Ptr) (xs zs us vs : List Ptr)
    → mem a ((xs ++ zs) ++ (us ++ n ∷ vs)) ≡ false
    → mem a (xs ++ n ∷ zs) ≡ false
mem-inserted_false a n xs zs us vs out =
    ground (
      arith,
      mem-append a (xs ++ zs) (us ++ n ∷ vs),
      mem-inserted a n us vs,
      mem-inserted a n xs zs,
    )

-- Nodes apart from all siblings are apart from the changed ones.
pub NoneIn-old :
    (ns : List Ptr) (p q n : Ptr) (xs zs us vs : List Ptr)
    → NoneIn ns (p ∷ q ∷ ((xs ++ zs) ++ (us ++ n ∷ vs)))
    → NoneIn ns (q ∷ (us ++ n ∷ vs))
NoneIn-old ns p q n xs zs us vs apart a i =
    ground (arith, apart a i, mem-append a (xs ++ zs) (us ++ n ∷ vs))

pub NoneIn-new :
    (ns : List Ptr) (p q n : Ptr) (xs zs us vs : List Ptr)
    → NoneIn ns (p ∷ q ∷ ((xs ++ zs) ++ (us ++ n ∷ vs)))
    → NoneIn ns (p ∷ (xs ++ n ∷ zs))
NoneIn-new ns p q n xs zs us vs apart a i =
    let out : mem a ((xs ++ zs) ++ (us ++ n ∷ vs)) ≡ false = ground (arith, apart a i) in
    ground (arith, apart a i, mem-inserted_false a n xs zs us vs)

-- The siblings that stay behind are not in the new list.
pub NoneIn-behind :
    (n : Ptr) (xs zs us vs : List Ptr)
    → NoneIn (xs ++ zs) (us ++ n ∷ vs)
    → Distinct (us ++ n ∷ vs)
    → NoneIn (us ++ vs) (xs ++ n ∷ zs)
NoneIn-behind n xs zs us vs clash apart a i =
    let rest = NoneIn-rest n (xs ++ zs) us vs clash apart a i in
    ground (arith, mem-append a (xs ++ zs) (n ∷ []), mem-inserted a n xs zs)

-- The new list of siblings has no node but those of the old one.
pub mem-reordered :
    (a n : Ptr) (us vs xs zs : List Ptr)
    → us ++ vs ≡ xs ++ zs
    → mem a (us ++ n ∷ vs) ≡ mem a (xs ++ n ∷ zs)
mem-reordered a n us vs xs zs same = rw (mem-inserted a n us vs, same, mem-inserted a n xs zs)

pub NoneIn-reordered :
    (ns : List Ptr) (p n : Ptr) (us vs xs zs : List Ptr)
    → us ++ vs ≡ xs ++ zs
    → NoneIn ns (p ∷ (us ++ n ∷ vs))
    → NoneIn ns (p ∷ p ∷ ((xs ++ zs) ++ (us ++ n ∷ vs)))
NoneIn-reordered ns p n us vs xs zs same apart a i =
    let equal = mem-reordered a n us vs xs zs same in
    ground (arith, apart a i, mem-append a (xs ++ zs) (us ++ n ∷ vs), mem-inserted a n xs zs)
