-- ===== src/Dom/NsDef/Removed.antt =====
-- Removing a namespace declaration from the list (dom.c: domRemoveNsDef), and adding it again.
use perl_xml_lib_xml.Common.{
  ℕ, zero, suc, ◌+◌, ◌<◌, ◌≡◌, refl, Bool, true, false, List, [], ◌∷◌, arith, ◌==◌, if◌then◌else◌,
  length, mem, erase, Distinct, ==_refl, ==_iff, Bool-cases, inl, inr, ◌∙◌,
}
use mathlib.Core.Path.{subst}
use perl_xml_lib_xml.Store.{Ptr, null, Store, update, valid}
use perl_xml_lib_xml.Store.Outcome.{done, when, ◌>>=◌}
use perl_xml_lib_xml.Store.Returns.{Returns, Returns-mono, Returns-after}
use perl_xml_lib_xml.Dom.Links.Chains.{valid-ne_null, mem-ne_sym}
use perl_xml_lib_xml.Dom.NsDef.{dom_add_ns_def, remove_ns_after, dom_remove_ns_def}
use perl_xml_lib_xml.Dom.NsDef.Declared.{
  NsList, SameNs, with_ns_links, NsList-frame, dom_add_ns_def-NsList,
}

-- What the loop of domRemoveNsDef does to the declarations `r` behind `x`.
abbrev RemovedAfter : Store → Ptr → Ptr → List Ptr → Bool → Store → Type 0
RemovedAfter h x ns r b g =
    (b ≡ mem ns r)
    × NsList g (g.ns_next x) (erase ns r)
    × SameNs (ns ∷ x ∷ r) h g
    × ((mem ns r ≡ true) → g.ns_next ns ≡ null)

-- What domRemoveNsDef does to the declarations `xs` of `tree`; a declaration that was removed has no
-- successor.
abbrev pub RemovedFrom : Store → Ptr → Ptr → List Ptr → Bool → Store → Type 0
RemovedFrom h tree ns xs b g =
    (b ≡ mem ns xs)
    × NsList g (g.ns_def tree) (erase ns xs)
    × (g.ns_live ≡ h.ns_live)
    × (g.live ≡ h.live)
    × (g ≡ with_ns_links h g)
    × ((q : Ptr) → mem q (ns ∷ xs) ≡ false → g.ns_next q ≡ h.ns_next q)
    × ((mem ns xs ≡ true) → g.ns_next ns ≡ null)

remove_ns_after-null :
    (k : ℕ) (h : Store) (ns : Ptr) → 0 < k → remove_ns_after k null ns h ≡ done false h
unfolding remove_ns_after
remove_ns_after-null zero h ns some_fuel = elim some_fuel [ ]
remove_ns_after-null (suc k) h ns some_fuel = refl

-- The loop of domRemoveNsDef behind a declaration `x` other than `ns`.
remove_ns_after-NsList :
    (k : ℕ) (h : Store) (x ns : Ptr) (r : List Ptr)
    → NsList h x (x ∷ r)
    → valid h.ns_live ns ≡ true
    → (x == ns) ≡ false
    → mem x r ≡ false
    → Distinct r
    → length r + 1 < k
    → Returns (remove_ns_after k x ns h) (RemovedAfter h x ns r)
unfolding remove_ns_after
remove_ns_after-NsList zero h x ns r is vn other out apart fuel = elim fuel [ ]
remove_ns_after-NsList (suc zero) h x ns [] is vn other out apart fuel = absurd (omega arith)
remove_ns_after-NsList (suc (suc k)) h x ns [] (px, vx, ir) vn other out apart fuel =
    let nn = valid-ne_null h.ns_live ns vn in
    let nn' : (null == ns) ≡ false = ground arith in
    rw (valid-ne_null h.ns_live x vx, vx, ir, nn')
      (
        refl,
        ir,
        record { ns_next = λ q o. refl; ns_live = refl; ns_def = refl; live = refl; others = refl },
        λ i. cc,
      )
remove_ns_after-NsList (suc k) h x ns (y ∷ r) (px, vx, (py, vy, ir)) vn other out apart fuel =
    elim (Bool-cases (y == ns)) [
      | inl e ↦
          let yn = (==_iff y ns).0 e in
          let nx : (ns == x) ≡ false = ground arith in
          let g = record h { ns_next = update (update h.ns_next x (h.ns_next ns)) ns null } in
          rw (valid-ne_null h.ns_live x vx, vx, py, e, vn, vx, vn)
            (
              ground arith,
              rw (other, ==_refl x, yn, ==_refl ns)
                  (NsList-frame h g (ns ∷ x ∷ []) (h.ns_next ns) r (λ q o. ground arith) refl
                    (λ a i. ground (arith, mem-ne_sym a x (y ∷ r) out, mem-ne_sym a y r apart.0 i))
                    (subst (λ z. NsList h (h.ns_next z) r) yn ir)),
              record {
                ns_next = λ q o. ground arith;
                ns_live = refl;
                ns_def = refl;
                live = refl;
                others = refl;
              },
              λ i. rw (==_refl ns) refl,
            )
      | inr e ↦
          let e' : (ns == y) ≡ false = ground arith in
          Returns-mono (remove_ns_after (suc k) x ns h) (RemovedAfter h y ns r)
            (RemovedAfter h x ns (y ∷ r))
            (rw (valid-ne_null h.ns_live x vx, vx, py, e)
              (remove_ns_after-NsList k h y ns r (refl, vy, ir) vn e apart.0 apart.1 (omega arith)))
            (λ b g got. rw e' (
              got.0,
              (got.2.ns_next x (ground arith) ∙ py, rw got.2.ns_live vy, got.1),
              record {
                ns_next = λ q o. got.2.ns_next q (ground arith);
                ns_live = got.2.ns_live;
                ns_def = got.2.ns_def;
                live = got.2.live;
                others = got.2.others;
              },
              λ i. got.3 (ground (arith, i)),
            ))
    ]

-- Let `xs` be the declarations of the element `tree`, no one twice, and the fuel more than their number
-- plus one. domRemoveNsDef returns 1 if `ns` is among them and 0 if not; the declarations of `tree` are `xs`
-- without `ns`, in their order, and `ns` has no successor then; and nothing but these links changes.
pub dom_remove_ns_def-NsList :
    (fuel : ℕ) (h : Store) (tree ns : Ptr) (xs : List Ptr)
    → NsList h (h.ns_def tree) xs
    → Distinct xs
    → valid h.live tree ≡ true
    → valid h.ns_live ns ≡ true
    → length xs + 1 < fuel
    → Returns (dom_remove_ns_def fuel tree ns h) (RemovedFrom h tree ns xs)
unfolding dom_remove_ns_def
dom_remove_ns_def-NsList fuel h tree ns [] is apart vt vn enough =
    rw (vt, is, valid-ne_null h.ns_live ns vn, remove_ns_after-null fuel h ns (omega arith))
      (refl, is, refl, refl, refl, λ q o. refl, λ i. cc)
dom_remove_ns_def-NsList fuel h tree ns (x ∷ r) (px, vx, ir) apart vt vn enough =
    elim (Bool-cases (ns == x)) [
      | inl e ↦
          let xn = (==_iff ns x).0 e in
          let g = record h {
            ns_def = update h.ns_def tree (h.ns_next x);
            ns_next = update h.ns_next ns null;
          } in
          rw (vt, px, e, vx, vt, vn)
            (
              rw e refl,
              rw (e, ==_refl tree)
                  (NsList-frame h g (ns ∷ []) (h.ns_next x) r (λ q o. ground arith) refl
                    (λ a i. ground (arith, mem-ne_sym a x r apart.0 i)) ir),
              refl,
              refl,
              refl,
              λ q o. ground arith,
              λ i. rw (==_refl ns) refl,
            )
      | inr e ↦
          let e' : (x == ns) ≡ false = ground arith in
          Returns-mono (dom_remove_ns_def fuel tree ns h) (RemovedAfter h x ns r)
            (RemovedFrom h tree ns (x ∷ r))
            (rw (vt, px, e)
              (remove_ns_after-NsList fuel h x ns r (refl, vx, ir) vn e' apart.0 apart.1
                (omega arith)))
            (λ b g got. rw e (
              got.0,
              (rw got.2.ns_def px, rw got.2.ns_live vx, got.1),
              got.2.ns_live,
              got.2.live,
              got.2.others,
              λ q o. got.2.ns_next q (ground arith),
              λ i. got.3 i,
            ))
    ]

pub mem-erase : (a : Ptr) (xs : List Ptr) → Distinct xs → mem a (erase a xs) ≡ false
mem-erase a [] apart = refl
mem-erase a (x ∷ r) apart = elim (Bool-cases (a == x)) [
  | inl e ↦ rw (e, (==_iff a x).0 e) apart.0
  | inr e ↦ rw (e, e) (mem-erase a r apart.1)
]

pub erase-absent : (a : Ptr) (xs : List Ptr) → mem a xs ≡ false → erase a xs ≡ xs
erase-absent a [] out = refl
erase-absent a (x ∷ r) out = ground (arith, erase-absent a r)

pub length-erase : (a : Ptr) (xs : List Ptr) → length (erase a xs) < suc (length xs)
length-erase a [] = omega arith
length-erase a (x ∷ r) = ground (arith, length-erase a r)

-- Let `xs` be the declarations of the element `tree`, no one twice, and the fuel more than their number
-- plus one. Removing `ns` from the declarations of `tree` and, if it was among them,
-- adding it again, as domReconcileNs does for a declaration that is needed, puts it first and keeps the
-- others in their order; a list without `ns` stays as it is.
pub dom_remove_ns_def-dom_add_ns_def :
    (fuel : ℕ) (h : Store) (tree ns : Ptr) (xs : List Ptr)
    → NsList h (h.ns_def tree) xs
    → Distinct xs
    → valid h.live tree ≡ true
    → valid h.ns_live ns ≡ true
    → length xs + 1 < fuel
    → Returns
        ((dom_remove_ns_def fuel tree ns >>= λ b. when b (dom_add_ns_def fuel tree ns)) h)
        (λ _ g. NsList g (g.ns_def tree) (if mem ns xs then ns ∷ erase ns xs else xs))
dom_remove_ns_def-dom_add_ns_def fuel h tree ns xs is apart vt vn enough =
    Returns-after (dom_remove_ns_def fuel tree ns h) (λ b. when b (dom_add_ns_def fuel tree ns))
      (RemovedFrom h tree ns xs)
      (λ _ g. NsList g (g.ns_def tree) (if mem ns xs then ns ∷ erase ns xs else xs))
      (dom_remove_ns_def-NsList fuel h tree ns xs is apart vt vn enough)
      (λ b g got. elim (Bool-cases (mem ns xs)) [
        | inl i ↦
            let add =
              dom_add_ns_def-NsList fuel g tree ns (erase ns xs) got.1 (rw got.3 vt) (rw got.2 vn)
                (omega (arith, length-erase ns xs)) in
            rw (got.0, i) (rw (mem-erase ns xs apart) at add)
        | inr o ↦ rw (got.0, o) (rw (erase-absent ns xs o) at got.1)
      ])
