-- ===== src/Dom/Links/Chains/Linking.antt =====
-- Writes of single links, and the chains that they leave alone, cut or extend.
use perl_xml_lib_xml.Common.{
  ◌≡◌, sym, true, false, ◌||◌, not, List, [], ◌∷◌, ◌++◌, arith, ◌==◌, head_or, last_or, mem,
  Distinct, Bool-cases, inl, inr,
}
use mathlib.Core.Path.{subst}
use perl_xml_lib_xml.Store.{Ptr, null, update}
use perl_xml_lib_xml.Dom.Links.Chains.Nodes.{
  Links, update_ref, update_ref-update, Linked, mem-ne, last_or-ne_null, mem-last_or,
}

module _ (next prev : Links) where
  pub Linked-append :
      (before after : Ptr) (xs ys : List Ptr)
      → Linked next prev before xs (head_or ys after)
      → Linked next prev (last_or before xs) ys after
      → Linked next prev before (xs ++ ys) after
  Linked-append b e [] ys l m = m
  Linked-append b e (x ∷ []) ys l m = (l.0, l.1, m)
  Linked-append b e (x ∷ y ∷ r) ys l m = (l.0, l.1, Linked-append x e (y ∷ r) ys l.2 m)

  pub Linked-split :
      (before after : Ptr) (xs ys : List Ptr)
      → Linked next prev before (xs ++ ys) after
      → Linked next prev before xs (head_or ys after)
        × Linked next prev (last_or before xs) ys after
  Linked-split b e [] ys l = (tt, l)
  Linked-split b e (x ∷ []) ys l = ((l.0, l.1, tt), l.2)
  Linked-split b e (x ∷ y ∷ r) ys l =
      let rest = Linked-split x e (y ∷ r) ys l.2 in ((l.0, l.1, rest.0), rest.1)

  -- A write at a node that is not in the chain leaves it alone.
  pub Linked-next_out :
      (before after : Ptr) (a v : Ptr) (xs : List Ptr)
      → mem a xs ≡ false
      → Linked next prev before xs after
      → Linked (update next a v) prev before xs after
  Linked-next_out b e a v [] out l = tt
  Linked-next_out b e a v (x ∷ xs) out l =
      (l.0, ground arith, Linked-next_out x e a v xs (ground arith) l.2)

  pub Linked-prev_out :
      (before after : Ptr) (a v : Ptr) (xs : List Ptr)
      → mem a xs ≡ false
      → Linked next prev before xs after
      → Linked next (update prev a v) before xs after
  Linked-prev_out b e a v [] out l = tt
  Linked-prev_out b e a v (x ∷ xs) out l =
      (ground arith, l.1, Linked-prev_out x e a v xs (ground arith) l.2)

  -- The chain leads elsewhere after its last node is written.
  pub Linked-next_last :
      (before after : Ptr) (d v : Ptr) (xs : List Ptr)
      → Distinct xs
      → Linked next prev before xs after
      → Linked (update next (last_or d xs) v) prev before xs v
  Linked-next_last b e d v [] apart l = tt
  Linked-next_last b e d v (x ∷ []) apart l = (l.0, ground arith, tt)
  Linked-next_last b e d v (x ∷ y ∷ r) apart l = (
    l.0,
    rw (mem-ne x _ (y ∷ r) apart.0 (mem-last_or y r)) l.1,
    Linked-next_last x e x v (y ∷ r) apart.1 l.2,
  )

  pub Linked-prev_head :
      (before after : Ptr) (d v : Ptr) (xs : List Ptr)
      → Distinct xs
      → Linked next prev before xs after
      → Linked next (update prev (head_or xs d) v) v xs after
  Linked-prev_head b e d v [] apart l = tt
  Linked-prev_head b e d v (x ∷ xs) apart l =
      (ground arith, l.1, Linked-prev_out x e x v xs apart.0 l.2)

  -- The same with writes that a NULL pointer leaves out.
  pub Linked-next_ref_out :
      (before after : Ptr) (a v : Ptr) (xs : List Ptr)
      → (a == null || not (mem a xs)) ≡ true
      → Linked next prev before xs after
      → Linked (update_ref next a v) prev before xs after
  Linked-next_ref_out b e a v xs out l = elim (Bool-cases (a == null)) [
    | inl z ↦ rw z l
    | inr z ↦ rw z (Linked-next_out b e a v xs (ground arith) l)
  ]

  pub Linked-prev_ref_out :
      (before after : Ptr) (a v : Ptr) (xs : List Ptr)
      → (a == null || not (mem a xs)) ≡ true
      → Linked next prev before xs after
      → Linked next (update_ref prev a v) before xs after
  Linked-prev_ref_out b e a v xs out l = elim (Bool-cases (a == null)) [
    | inl z ↦ rw z l
    | inr z ↦ rw z (Linked-prev_out b e a v xs (ground arith) l)
  ]

  pub Linked-next_ref_last :
      (before after : Ptr) (v : Ptr) (xs : List Ptr)
      → mem null xs ≡ false
      → Distinct xs
      → Linked next prev before xs after
      → Linked (update_ref next (last_or null xs) v) prev before xs v
  Linked-next_ref_last b e v [] some_node apart l = tt
  Linked-next_ref_last b e v (x ∷ r) some_node apart l =
      subst (λ f. Linked f prev b (x ∷ r) v)
        (sym (update_ref-update next (last_or x r) v (last_or-ne_null x r some_node)))
        (Linked-next_last b e null v (x ∷ r) apart l)

  pub Linked-prev_ref_head :
      (before after : Ptr) (v : Ptr) (xs : List Ptr)
      → mem null xs ≡ false
      → Distinct xs
      → Linked next prev before xs after
      → Linked next (update_ref prev (head_or xs null) v) v xs after
  Linked-prev_ref_head b e v [] some_node apart l = tt
  Linked-prev_ref_head b e v (x ∷ r) some_node apart l =
      subst (λ f. Linked next f v (x ∷ r) e) (sym (update_ref-update prev x v (ground arith)))
        (Linked-prev_head b e null v (x ∷ r) apart l)
