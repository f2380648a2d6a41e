-- ===== src/Dom/Links/Splice.antt =====
-- Linking a chain of nodes in between two others, as domAddNodeToList does it.
use perl_xml_lib_xml.Common.{
  ◌≡◌, true, false, ◌||◌, not, List, ◌∷◌, ◌++◌, arith, ◌==◌, if◌then◌else◌, head_or, last_or, mem,
  Distinct, mem-append, Bool-cases, inl, inr, ==_iff, ap,
}
use mathlib.Core.Path.{subst, sym}
use perl_xml_lib_xml.Store.{Ptr, null, update}
use perl_xml_lib_xml.Dom.Links.Chains.{
  Links, update_ref, Linked, Linked-append, Linked-split, Linked-next_out, Linked-prev_out,
  Linked-next_last, Linked-prev_head, Linked-next_ref_out, Linked-prev_ref_out,
  Linked-next_ref_last, Linked-prev_ref_head, Distinct-split, mem-last_or, NoneIn, NoneIn-sym,
  last_or-outside, head_or-outside,
}

-- `f` with its value at `p` replaced, if the pointer `g` is not NULL.
abbrev pub update_if : Ptr → Links → Ptr → Ptr → Links
update_if g f p v = if g == null then f else update f p v

module _ (next prev : Links) where
  Linked-next_if_last :
      (before g c : Ptr) (cs : List Ptr)
      → Distinct (c ∷ cs)
      → Linked next prev before (c ∷ cs) null
      → Linked (update_if g next (last_or c cs) g) prev before (c ∷ cs) g
  Linked-next_if_last b g c cs apart l = elim (Bool-cases (g == null)) [
    | inl z ↦
        subst (λ f. Linked f prev b (c ∷ cs) g)
          (sym (ap (λ t. if t then next else update next (last_or c cs) g) z))
          (subst (λ e. Linked next prev b (c ∷ cs) e) (sym ((==_iff g null).0 z)) l)
    | inr z ↦
        subst (λ f. Linked f prev b (c ∷ cs) g)
          (sym (ap (λ t. if t then next else update next (last_or c cs) g) z))
          (Linked-next_last next prev b null c g (c ∷ cs) apart l)
  ]

  Linked-prev_if_head :
      (after g c : Ptr) (cs : List Ptr)
      → Distinct (c ∷ cs)
      → Linked next prev null (c ∷ cs) after
      → Linked next (update_if g prev c g) g (c ∷ cs) after
  Linked-prev_if_head e g c cs apart l = elim (Bool-cases (g == null)) [
    | inl z ↦
        subst (λ f. Linked next f g (c ∷ cs) e)
          (sym (ap (λ t. if t then prev else update prev c g) z))
          (subst (λ b. Linked next prev b (c ∷ cs) e) (sym ((==_iff g null).0 z)) l)
    | inr z ↦
        subst (λ f. Linked next f g (c ∷ cs) e)
          (sym (ap (λ t. if t then prev else update prev c g) z))
          (Linked-prev_head next prev null e c g (c ∷ cs) apart l)
  ]

  Linked-next_if_out :
      (before after g a v : Ptr) (xs : List Ptr)
      → mem a xs ≡ false
      → Linked next prev before xs after
      → Linked (update_if g next a v) prev before xs after
  Linked-next_if_out b e g a v xs out l = elim (Bool-cases (g == null)) [
    | inl z ↦ rw z l
    | inr z ↦ rw z (Linked-next_out next prev b e a v xs out l)
  ]

  Linked-prev_if_out :
      (before after g a v : Ptr) (xs : List Ptr)
      → mem a xs ≡ false
      → Linked next prev before xs after
      → Linked next (update_if g prev a v) before xs after
  Linked-prev_if_out b e g a v xs out l = elim (Bool-cases (g == null)) [
    | inl z ↦ rw z l
    | inr z ↦ rw z (Linked-prev_out next prev b e a v xs out l)
  ]

-- The two link fields after the chain from `c1` to `c2` is put between `leader` and `followup`.
abbrev pub spliced_next : Links → Ptr → Ptr → Ptr → Ptr → Links
spliced_next next leader followup c1 c2 = update_if followup (update_ref next leader c1) c2 followup

abbrev pub spliced_prev : Links → Ptr → Ptr → Ptr → Ptr → Links
spliced_prev prev leader followup c1 c2 = update_ref (update_if leader prev c1 leader) followup c2

-- Three lists that have no node in common, and no NULL.
record Apart (xs cs ys : List Ptr) : Type 0 where
  left : Distinct xs
  middle : Distinct cs
  right : Distinct ys
  some_left : mem null xs ≡ false
  some_right : mem null ys ≡ false
  left_middle : NoneIn xs cs
  left_right : NoneIn xs ys
  middle_right : NoneIn cs ys

Apart-of_Distinct :
    (xs cs ys : List Ptr)
    → Distinct (xs ++ (cs ++ ys))
    → mem null (xs ++ (cs ++ ys)) ≡ false
    → Apart xs cs ys
Apart-of_Distinct xs cs ys d z =
    let (dx, rest, cross) = Distinct-split xs (cs ++ ys) d in
    let (dc, dy, cross') = Distinct-split cs ys rest in
    let nx = mem-append null xs (cs ++ ys) in
    let nc = mem-append null cs ys in
    record {
      left = dx;
      middle = dc;
      right = dy;
      some_left = ground arith;
      some_right = ground arith;
      left_middle = λ a i. ground (arith, cross a, mem-append a cs ys);
      left_right = λ a i. ground (arith, cross a, mem-append a cs ys);
      middle_right = cross';
    }

-- The chain `c ∷ cs`, linked in itself, comes to stand between `xs` and `ys`.
pub Linked-splice :
    (next prev : Links) (c : Ptr) (xs cs ys : List Ptr)
    → Distinct (xs ++ ((c ∷ cs) ++ ys))
    → mem null (xs ++ ((c ∷ cs) ++ ys)) ≡ false
    → Linked next prev null (xs ++ ys) null
    → Linked next prev null (c ∷ cs) null
    → Linked
        (spliced_next next (last_or null xs) (head_or ys null) c (last_or c cs))
        (spliced_prev prev (last_or null xs) (head_or ys null) c (last_or c cs))
        null
        (xs ++ ((c ∷ cs) ++ ys))
        null
Linked-splice next prev c xs cs ys apart some_node l m =
    let (lx, ly) = Linked-split next prev null null xs ys l in
    let leader = last_or null xs in
    let followup = head_or ys null in
    let a = Apart-of_Distinct xs (c ∷ cs) ys apart some_node in
    let outside_left = NoneIn-sym xs (c ∷ cs) a.left_middle in
    Linked-append _ _ null null xs ((c ∷ cs) ++ ys)
      (Linked-next_if_out _ _ null c followup (last_or c cs) followup xs
        (outside_left (last_or c cs) (mem-last_or c cs))
        (Linked-prev_ref_out _ _ null c followup (last_or c cs) xs
          (head_or-outside ys xs (NoneIn-sym xs ys a.left_right))
          (Linked-prev_if_out _ _ null c leader c leader xs (outside_left c (ground arith))
            (Linked-next_ref_last next prev null followup c xs a.some_left a.left lx))))
      (Linked-append _ _ leader null (c ∷ cs) ys
        (Linked-prev_ref_out _ _ leader followup followup (last_or c cs) (c ∷ cs)
          (head_or-outside ys (c ∷ cs) (NoneIn-sym (c ∷ cs) ys a.middle_right))
          (Linked-prev_if_head _ prev followup leader c cs a.middle (
            Linked-next_if_last _ prev null followup c cs a.middle (
              Linked-next_ref_out next prev null null leader c (c ∷ cs)
                (last_or-outside xs (c ∷ cs) a.left_middle) m))))
        (Linked-next_if_out _ _ (last_or c cs) null followup (last_or c cs) followup ys
          (a.middle_right (last_or c cs) (mem-last_or c cs))
          (Linked-next_ref_out next _ (last_or c cs) null leader c ys
            (last_or-outside xs ys a.left_right)
            (Linked-prev_ref_head next _ leader null (last_or c cs) ys a.some_right a.right (
              Linked-prev_if_out next prev leader null leader c leader ys
                (a.middle_right c (ground arith)) ly)))))

-- The writes of the splice touch the two neighbours and the ends of the chain only.
pub spliced_next-other :
    (f : Links) (leader followup c1 c2 q : Ptr)
    → (leader == null || not (q == leader)) ≡ true
    → (q == c2) ≡ false
    → spliced_next f leader followup c1 c2 q ≡ f q
spliced_next-other f leader followup c1 c2 q a b = ground arith

pub spliced_prev-other :
    (f : Links) (leader followup c1 c2 q : Ptr)
    → (followup == null || not (q == followup)) ≡ true
    → (q == c1) ≡ false
    → spliced_prev f leader followup c1 c2 q ≡ f q
spliced_prev-other f leader followup c1 c2 q a b = ground arith
