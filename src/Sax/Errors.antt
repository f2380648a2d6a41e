-- ===== src/Sax/Errors.antt =====
-- Warnings and errors of the parser (perl-libxml-sax.c: PmmSaxWarning, PmmSaxError, PmmSaxFatalError, as
-- built with libxml2 2.6.1 or later). A message is the text that the format and its arguments make.
use perl_xml_lib_xml.Common.{if◌then◌else◌}
use perl_xml_lib_xml.Hash.{Method, parser_warning, parser_error, parser_fatal_error, message_at}
use perl_xml_lib_xml.Store.{Ptr, Str}
use perl_xml_lib_xml.Store.Outcome.{Cmd, ◌>>=◌, ◌>>◌}
use perl_xml_lib_xml.Store.MoreFields.{get_ctxt_private, get_sax_parser, get_sax_saved_error}
use perl_xml_lib_xml.Libxml.{Libxml}
use perl_xml_lib_xml.Perl.{Perl}
use perl_xml_lib_xml.Sax.NsStack.{called}

module _ (lib : Libxml) (perl : Perl) where
  -- The message and the place go to a method of XML::LibXML::_SAXParser.
  unfoldable pub tell_parser : Ptr → Ptr → Method → Str → Cmd (Unit {0})
  tell_parser ctxt sax method message = λ h.
      (do
        parser ← get_sax_parser sax
        called perl (record {
          object = parser;
          method = method;
          payload = message_at message (lib.input_line ctxt h) (lib.input_col ctxt h);
        }))
        h

  -- The message is added to what `saved_error` says.
  unfoldable pub save_error : Ptr → Str → Cmd (Unit {0})
  save_error sax message = do
    saved_error ← get_sax_saved_error sax
    ok ← perl.sv_ok saved_error
    if ok then perl.sv_catsv saved_error message else perl.sv_setsv saved_error message

  unfoldable pub pmm_sax_warning : Ptr → Str → Cmd (Unit {0})
  pmm_sax_warning ctxt message = do
    sax ← get_ctxt_private ctxt
    tell_parser ctxt sax parser_warning message

  unfoldable pub pmm_sax_error : Ptr → Str → Cmd (Unit {0})
  pmm_sax_error ctxt message = λ h.
      (do
        sax ← get_ctxt_private ctxt
        save_error sax message
        tell_parser ctxt sax
            (if lib.last_error_is_fatal ctxt h then parser_fatal_error else parser_error) message)
        h

  unfoldable pub pmm_sax_fatal_error : Ptr → Str → Cmd (Unit {0})
  pmm_sax_fatal_error ctxt message = do
    sax ← get_ctxt_private ctxt
    save_error sax message
    tell_parser ctxt sax parser_fatal_error message
