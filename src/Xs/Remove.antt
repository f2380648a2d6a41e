-- ===== src/Xs/Remove.antt =====
-- removeChild, removeChildNodes, unbindNode and DESTROY (LibXML.xs). DESTROY is that of a build without
-- interpreter threads.
use perl_xml_lib_xml.Common.{ℕ, zero, suc, ◌&&◌, ◌||◌, not, Option, none, ◌==◌, if◌then◌else◌}
use perl_xml_lib_xml.Store.{Ptr, null, Str}
use perl_xml_lib_xml.Store.Kinds.{is_attribute, is_document, is_dtd, is_fragment}
use perl_xml_lib_xml.Store.Outcome.{Cmd, pure, no_fuel, when, ◌>>=◌, ◌>>◌}
use perl_xml_lib_xml.Store.Fields.{
  get_kind, get_doc, get_priv, get_children, set_children, get_last, set_last, set_parent, get_next,
  get_proxy_node, get_proxy_count,
}
use perl_xml_lib_xml.Libxml.{Libxml}
use perl_xml_lib_xml.Dom.Links.{dom_add_node_to_list}
use perl_xml_lib_xml.Dom.Edit.{dom_remove_child}
use perl_xml_lib_xml.Proxy.Count.{not_positive}
use perl_xml_lib_xml.Proxy.Node.{pmm_new_fragment, pmm_refcnt_inc, pmm_refcnt_dec}
use perl_xml_lib_xml.Proxy.Sv.{pmm_node_to_sv}
use perl_xml_lib_xml.Proxy.Owner.{pmm_fix_owner_node}
use perl_xml_lib_xml.Xs.Kept.{Sv, lib_xml_reparent_removed_node}

module _ (lib : Libxml) (xml : Option Str) (fuel : ℕ) where
  unfoldable pub xs_remove_child : Ptr → Ptr → Cmd Sv
  xs_remove_child self node = do
    removed ← dom_remove_child lib xml fuel self node
    if removed == null
        then pure none
        else (do lib_xml_reparent_removed_node lib fuel removed; pmm_node_to_sv lib removed null)

  -- A child goes to the end of the fragment of `docfrag`.
  unfoldable pub move_to_fragment : Ptr → Ptr → Ptr → Cmd (Unit {0})
  move_to_fragment elem fragment docfrag = do
    kind ← get_kind elem
    if is_attribute kind || is_dtd kind
        then (do proxy ← get_priv elem; when (proxy == null) (lib.free_node elem))
        else (do
          first ← get_children fragment
          (if not (first == null)
              then (do last ← get_last fragment; dom_add_node_to_list fuel elem last null; pure tt)
              else (do
                set_children fragment elem
                set_last fragment elem
                set_parent elem fragment))
          pmm_fix_owner_node lib fuel elem docfrag)

  unfoldable pub remove_loop : ℕ → Ptr → Ptr → Ptr → Cmd (Unit {0})
  remove_loop zero elem fragment docfrag = no_fuel
  remove_loop (suc k) elem fragment docfrag = if elem == null then pure tt else do
    next ← get_next elem
    lib.unlink_node elem
    move_to_fragment elem fragment docfrag
    remove_loop k next fragment docfrag

  unfoldable pub xs_remove_child_nodes : Ptr → Cmd (Unit {0})
  xs_remove_child_nodes self = do
    doc ← get_doc self
    docfrag ← pmm_new_fragment lib doc
    fragment ← get_proxy_node docfrag
    first ← get_children self
    remove_loop fuel first fragment docfrag
    set_last self null
    set_children self null
    count ← get_proxy_count docfrag
    when (not_positive count) (do pmm_refcnt_inc docfrag; pmm_refcnt_dec lib fuel docfrag; pure tt)

  unfoldable pub xs_unbind_node : Ptr → Cmd (Unit {0})
  xs_unbind_node self = do
    kind ← get_kind self
    when (not (is_document kind) && not (is_fragment kind))
        (do lib.unlink_node self; lib_xml_reparent_removed_node lib fuel self)

  unfoldable pub xs_destroy : Ptr → Cmd (Unit {0})
  xs_destroy proxy = do pmm_refcnt_dec lib fuel proxy; pure tt
