-- ===== src/Perl.antt =====
-- The functions of Perl that the C code calls. Perl is not part of the repository, so they are a
-- parameter of the model. A handler is any Perl code: calling a method is any command on the store.
use perl_xml_lib_xml.Common.{ℕ, Bool}
use perl_xml_lib_xml.Hash.{Call}
use perl_xml_lib_xml.Store.{Ptr, Str}
use perl_xml_lib_xml.Store.Outcome.{Cmd}

pub record Perl : Type 0 where
  -- Newc of a LocalProxyNode, and Safefree.
  pub new_local : Cmd Ptr
  pub free_local : Ptr → Cmd (Unit {0})
  -- SvREFCNT_inc and SvREFCNT_dec.
  pub sv_refcnt_inc : Ptr → Cmd (Unit {0})
  pub sv_refcnt_dec : Ptr → Cmd (Unit {0})
  -- The entry HANDLER of a parser object, NULL if it is not there or false; the entry JOIN_CHARACTERS
  -- as an integer, 0 if it is not there.
  pub fetch_handler : Ptr → Cmd Ptr
  pub fetch_join_characters : Ptr → Cmd ℕ
  -- call_method and call_pv with G_EVAL; the result is whether `$@` is true afterwards.
  pub call_method : Call → Cmd Bool
  -- SvOK, sv_catsv and sv_setsv.
  pub sv_ok : Ptr → Cmd Bool
  pub sv_catsv : Ptr → Str → Cmd (Unit {0})
  pub sv_setsv : Ptr → Str → Cmd (Unit {0})
