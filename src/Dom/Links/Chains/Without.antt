-- ===== src/Dom/Links/Chains/Without.antt =====
-- Lists of siblings with one node taken out.
use perl_xml_lib_xml.Common.{
  ◌≡◌, refl, Bool, true, false, ◌||◌, List, [], ◌∷◌, ◌++◌, arith, ◌==◌, if◌then◌else◌, head_or,
  last_or, All, mem, Distinct, mem-append, last_or-append, All-split, All-append,
}
use perl_xml_lib_xml.Store.{Ptr, null, update, valid}
use perl_xml_lib_xml.Dom.Links.Chains.Nodes.{
  Links, update_ref, Linked, AllNodes, mem-ne, Distinct-append, Distinct-split, mem-last_or,
}
use perl_xml_lib_xml.Dom.Links.Chains.Linking.{
  Linked-append, Linked-split, Linked-next_out, Linked-prev_out, Linked-next_ref_out,
  Linked-prev_ref_out, Linked-next_ref_last, Linked-prev_ref_head,
}

pub mem-last_or-null :
    (xs : List Ptr) → (last_or null xs == null || mem (last_or null xs) xs) ≡ true
mem-last_or-null [] = refl
mem-last_or-null (x ∷ xs) = ground (arith, mem-last_or x xs)

pub mem-head_or-null :
    (ys : List Ptr) → (head_or ys null == null || mem (head_or ys null) ys) ≡ true
mem-head_or-null [] = refl
mem-head_or-null (y ∷ ys) = ground arith

-- The node between `xs` and `ys` is bridged and its own pointers are cleared.
pub Linked-bridge :
    (next prev : Links) (n : Ptr) (xs ys : List Ptr)
    → mem null (xs ++ n ∷ ys) ≡ false
    → Distinct (xs ++ n ∷ ys)
    → Linked next prev null (xs ++ n ∷ ys) null
    → Linked
        (update (update_ref next (last_or null xs) (head_or ys null)) n null)
        (update (update_ref prev (head_or ys null) (last_or null xs)) n null)
        null
        (xs ++ ys)
        null
Linked-bridge next prev n xs ys some_node apart l =
    let (lx, ly) = Linked-split next prev null null xs (n ∷ ys) l in
    let (dx, dy, cross) = Distinct-split xs (n ∷ ys) apart in
    let nx : mem n xs ≡ false = ground (arith, cross n) in
    let h = head_or ys null in
    let t = last_or null xs in
    let no_null = mem-append null xs (n ∷ ys) in
    Linked-append _ _ null null xs ys
      (Linked-next_out _ _ null (head_or ys null) n null xs nx (
        Linked-prev_out _ _ null (head_or ys null) n null xs nx (
          Linked-prev_ref_out _ _ null (head_or ys null) (head_or ys null) (last_or null xs) xs
            (ground (arith, mem-head_or-null ys, cross h))
            (Linked-next_ref_last next prev null n (head_or ys null) xs (ground arith) dx lx))))
      (Linked-next_out _ _ (last_or null xs) null n null ys dy.0 (
        Linked-prev_out _ _ (last_or null xs) null n null ys dy.0 (
          Linked-next_ref_out _ _ (last_or null xs) null (last_or null xs) (head_or ys null) ys
            (ground (arith, mem-last_or-null xs, cross t))
            (Linked-prev_ref_head next prev n null (last_or null xs) ys (ground arith) dy.1 ly.2))))

-- Taking `n` out of a list of distinct nodes: what becomes of the ends, and of facts about all.
pub head_or-without :
    (n c : Ptr) (xs ys : List Ptr)
    → Distinct (xs ++ n ∷ ys)
    → c ≡ head_or (xs ++ n ∷ ys) null
    → (if n == c then head_or ys null else c) ≡ head_or (xs ++ ys) null
head_or-without n c [] ys apart e = ground arith
head_or-without n c (x ∷ r) ys apart e = ground (arith, mem-append x r (n ∷ ys))

pub last_or-without :
    (n c : Ptr) (xs ys : List Ptr)
    → Distinct (xs ++ n ∷ ys)
    → c ≡ last_or null (xs ++ n ∷ ys)
    → (if n == c then last_or null xs else c) ≡ last_or null (xs ++ ys)
last_or-without n c xs [] apart e =
    ground (arith, last_or-append null xs (n ∷ []), last_or-append null xs [])
last_or-without n c xs (y ∷ s) apart e =
    let out =
      mem-ne n (last_or y s) (y ∷ s) (Distinct-split xs (n ∷ y ∷ s) apart).1.0 (mem-last_or y s) in
    ground (arith, last_or-append null xs (n ∷ y ∷ s), last_or-append null xs (y ∷ s))

pub Distinct-without :
    (n : Ptr) (xs ys : List Ptr)
    → Distinct (xs ++ n ∷ ys)
    → Distinct (xs ++ ys) × (mem n (xs ++ ys) ≡ false)
Distinct-without n xs ys apart =
    let (dx, dy, cross) = Distinct-split xs (n ∷ ys) apart in
    (
      Distinct-append xs ys dx dy.1 (λ a i. ground (arith, cross a)),
      ground (arith, mem-append n xs ys, cross n),
    )

pub All-without :
    (P : Ptr → Type 0) (n : Ptr) (xs ys : List Ptr) → All P (xs ++ n ∷ ys) → All P (xs ++ ys)
All-without P n xs ys all = let (a, b) = All-split P xs (n ∷ ys) all in All-append P xs ys a b.1

pub All-mono :
    (P Q : Ptr → Type 0) (xs : List Ptr)
    → All P xs
    → ((x : Ptr) → mem x xs ≡ true → P x → Q x)
    → All Q xs
All-mono P Q [] all keep = tt
All-mono P Q (x ∷ xs) all keep =
    (keep x (ground arith) all.0, All-mono P Q xs all.1 (λ y i. keep y (ground arith)))

-- The ends of a list of nodes are NULL or may be followed.
pub nodes-last :
    (live : Ptr → Bool) (xs : List Ptr)
    → AllNodes live xs
    → (valid live (last_or null xs) || (last_or null xs == null)) ≡ true
nodes-last live [] all = ground arith
nodes-last live (x ∷ []) all = rw all.0
nodes-last live (x ∷ y ∷ r) all = nodes-last live (y ∷ r) all.1

pub nodes-head :
    (live : Ptr → Bool) (xs : List Ptr)
    → AllNodes live xs
    → (valid live (head_or xs null) || (head_or xs null == null)) ≡ true
nodes-head live [] all = ground arith
nodes-head live (x ∷ xs) all = rw all.0

-- A node differs from the ends of a list that it is not in.
pub ne-last_or :
    (n : Ptr) (xs : List Ptr)
    → (n == null) ≡ false
    → mem n xs ≡ false
    → (n == last_or null xs) ≡ false
ne-last_or n [] some_node out = some_node
ne-last_or n (x ∷ r) some_node out = mem-ne n (last_or x r) (x ∷ r) out (mem-last_or x r)

pub ne-head_or :
    (n : Ptr) (xs : List Ptr)
    → (n == null) ≡ false
    → mem n xs ≡ false
    → (n == head_or xs null) ≡ false
ne-head_or n [] some_node out = some_node
ne-head_or n (x ∷ r) some_node out = ground arith

pub if-update :
    (b : Bool) (f : Links) (p v : Ptr) → (if b then update f p v else f) p ≡ (if b then v else f p)
if-update true f p v = ground arith
if-update false f p v = refl

pub update_ref-other : (f : Links) (p v n : Ptr) → (n == p) ≡ false → update_ref f p v n ≡ f n
update_ref-other f p v n ne = ground arith

pub mem-append_false :
    (n : Ptr) (xs ys : List Ptr)
    → mem n (xs ++ ys) ≡ false
    → (mem n xs ≡ false) × (mem n ys ≡ false)
mem-append_false n xs ys out =
    (ground (arith, mem-append n xs ys), ground (arith, mem-append n xs ys))
