-- ===== src/Sax/Narrow.antt =====
-- The stack of namespaces shrinks at the end of an element, with a call for each declaration
-- (PmmNarrowNsStack).
use perl_xml_lib_xml.Common.{
  ℕ, zero, suc, ◌<◌, ◌≡◌, refl, true, false, Option, some, List, [], ◌∷◌, arith, if◌then◌else◌,
  length, ==_refl, Bool-cases, inl, inr,
}
use perl_xml_lib_xml.Hash.{end_prefix_mapping, fields, Call}
use perl_xml_lib_xml.Store.{Ptr, null, Str, Store, update, valid}
use perl_xml_lib_xml.Store.Outcome.{done}
use perl_xml_lib_xml.Store.Returns.{Returns}
use perl_xml_lib_xml.Libxml.{Libxml}
use perl_xml_lib_xml.Perl.{Perl}
use perl_xml_lib_xml.Dom.Links.Chains.{valid-ne_null}
use perl_xml_lib_xml.Dom.NsDef.Declared.{NsList}
use perl_xml_lib_xml.Sax.NsStack.{
  xml_name, prefix_mapping, called, psax_end_prefix, end_prefixes, pmm_narrow_ns_stack,
}
use perl_xml_lib_xml.Sax.State.{RecordsCalls}

abbrev pub end_call : Ptr → Option Str → Option Str → Call
end_call handler prefix uri = record {
  object = handler;
  method = end_prefix_mapping;
  payload = fields (prefix_mapping prefix uri);
}

-- The calls for the declarations `xs`, but for those of the prefix "xml", before those made already.
abbrev pub end_calls : Libxml → Ptr → Store → List Ptr → List Call → List Call
end_calls lib handler h [] made = made
end_calls lib handler h (x ∷ r) made = end_calls lib handler h r (
    if lib.str_equal (h.ns_prefix x) (some xml_name)
    then made
    else end_call handler (h.ns_prefix x) (h.ns_href x) ∷ made)

end_prefixes-run :
    (lib : Libxml) (perl : Perl) (h : Store) (handler : Ptr) (k : ℕ) (p : Ptr) (xs : List Ptr)
    (made : List Call)
    → RecordsCalls perl
    → NsList h p xs
    → length xs < k
    → end_prefixes lib perl k p handler (record h { calls = made })
      ≡ done tt (record h { calls = end_calls lib handler h xs made })
unfolding end_prefixes psax_end_prefix called
end_prefixes-run lib perl h handler zero p xs made records is enough = elim enough [ ]
end_prefixes-run lib perl h handler (suc k) p [] made records is enough = rw is refl
end_prefixes-run lib perl h handler (suc k) p (x ∷ r) made records (px, vx, ir) enough =
    elim (Bool-cases (lib.str_equal (h.ns_prefix x) (some xml_name))) [
      | inl e ↦
          rw (px, valid-ne_null h.ns_live x vx, vx, e, vx)
            (end_prefixes-run lib perl h handler k (h.ns_next x) r made records ir (omega arith))
      | inr e ↦
          let call = end_call handler (h.ns_prefix x) (h.ns_href x) in
          rw
            (
              px,
              valid-ne_null h.ns_live x vx,
              vx,
              e,
              vx,
              records call (record h { calls = made }),
              vx,
            )
            (end_prefixes-run lib perl h handler k (h.ns_next x) r (call ∷ made) records ir
              (omega arith))
    ]

-- xmlUnlinkNode on `top`, an only child, and xmlFreeNode on it.
pub record DropsTop (lib : Libxml) (top : Ptr) : Type 0 where
  pub unlink :
      (g : Store)
      → lib.unlink_node top g
        ≡ done tt (record g {
          parent = update g.parent top null;
          children = update g.children (g.parent top) null;
          last = update g.last (g.parent top) null;
        })
  pub free :
      (g : Store) → lib.free_node top g ≡ done tt (record g { live = update g.live top false })

-- The store once the end `top` of the stack is gone and `up` is its end.
abbrev pub narrowed : Store → Ptr → Ptr → Ptr → List Call → Store
narrowed h sax top up calls = record h {
  calls = calls;
  parent = update h.parent top null;
  children = update h.children up null;
  last = update h.last up null;
  live = update h.live top false;
  sax_ns_stack = update h.sax_ns_stack sax up;
}

pub pmm_narrow_ns_stack-run :
    (lib : Libxml) (perl : Perl) (fuel : ℕ) (h : Store) (sax handler top up : Ptr) (xs : List Ptr)
    → valid h.sax_live sax ≡ true
    → h.sax_ns_stack sax ≡ top
    → valid h.live top ≡ true
    → h.parent top ≡ up
    → NsList h (h.ns_def top) xs
    → length xs < fuel
    → RecordsCalls perl
    → DropsTop lib top
    → pmm_narrow_ns_stack lib perl fuel sax handler h
      ≡ done tt (narrowed h sax top up (end_calls lib handler h xs h.calls))
unfolding pmm_narrow_ns_stack
pmm_narrow_ns_stack-run lib perl fuel h sax handler top up xs live is top_live below list enough
      records drops =
    let g = record h { calls = end_calls lib handler h xs h.calls } in
    rw
      (
        live,
        is,
        top_live,
        top_live,
        end_prefixes-run lib perl h handler fuel (h.ns_def top) xs h.calls records list enough,
        live,
        is,
        drops.unlink g,
        drops.free (record g {
          parent = update g.parent top null;
          children = update g.children (g.parent top) null;
          last = update g.last (g.parent top) null;
        }),
        live,
        below,
      )
      refl

-- Let the stack of the SAX state end with `top`, below `up`, with the declarations `xs`, and let the
-- handler's methods not die. Then PmmNarrowNsStack calls end_prefix_mapping for each declaration but
-- those of "xml", in their order, frees `top` and leaves `up` as the end of the stack. The fuel has to be
-- greater than the number of the declarations.
pub pmm_narrow_ns_stack-ends :
    (lib : Libxml) (perl : Perl) (fuel : ℕ) (h : Store) (sax handler top up : Ptr) (xs : List Ptr)
    → valid h.sax_live sax ≡ true
    → h.sax_ns_stack sax ≡ top
    → valid h.live top ≡ true
    → h.parent top ≡ up
    → NsList h (h.ns_def top) xs
    → length xs < fuel
    → RecordsCalls perl
    → DropsTop lib top
    → Returns (pmm_narrow_ns_stack lib perl fuel sax handler h) (λ _ g.
      (g.sax_ns_stack sax ≡ up)
      × (g.live top ≡ false)
      × (g.calls ≡ end_calls lib handler h xs h.calls))
pmm_narrow_ns_stack-ends lib perl fuel h sax handler top up xs live is top_live below list enough
      records drops =
    rw
      (pmm_narrow_ns_stack-run lib perl fuel h sax handler top up xs live is top_live below list
        enough records drops)
      (rw (==_refl sax) refl, rw (==_refl top) refl, refl)
