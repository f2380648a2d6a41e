-- ===== src/Store/MoreFields.antt =====
-- Reading and writing one field of a registry entry, a parser context or a SAX state.
use perl_xml_lib_xml.Common.{ℕ, Option}
use perl_xml_lib_xml.Hash.{Hash}
use perl_xml_lib_xml.Store.{Ptr, update}
use perl_xml_lib_xml.Store.Fields.{read, write}
use perl_xml_lib_xml.Store.Outcome.{Cmd}

abbrev pub get_local_proxy : Ptr → Cmd Ptr
get_local_proxy p = read (λ s. s.local_live) (λ s. s.local_proxy) p

abbrev pub set_local_proxy : Ptr → Ptr → Cmd (Unit {0})
set_local_proxy p v =
    write (λ s. s.local_live) (λ s. record s { local_proxy = update s.local_proxy p v }) p

abbrev pub get_local_count : Ptr → Cmd ℕ
get_local_count p = read (λ s. s.local_live) (λ s. s.local_count) p

abbrev pub set_local_count : Ptr → ℕ → Cmd (Unit {0})
set_local_count p v =
    write (λ s. s.local_live) (λ s. record s { local_count = update s.local_count p v }) p

abbrev pub get_ctxt_private : Ptr → Cmd Ptr
get_ctxt_private p = read (λ s. s.ctxt_live) (λ s. s.ctxt_private) p

abbrev pub set_ctxt_private : Ptr → Ptr → Cmd (Unit {0})
set_ctxt_private p v =
    write (λ s. s.ctxt_live) (λ s. record s { ctxt_private = update s.ctxt_private p v }) p

abbrev pub get_ctxt_sax : Ptr → Cmd Ptr
get_ctxt_sax p = read (λ s. s.ctxt_live) (λ s. s.ctxt_sax) p

abbrev pub set_ctxt_sax : Ptr → Ptr → Cmd (Unit {0})
set_ctxt_sax p v = write (λ s. s.ctxt_live) (λ s. record s { ctxt_sax = update s.ctxt_sax p v }) p

abbrev pub get_sax_ns_stack : Ptr → Cmd Ptr
get_sax_ns_stack p = read (λ s. s.sax_live) (λ s. s.sax_ns_stack) p

abbrev pub set_sax_ns_stack : Ptr → Ptr → Cmd (Unit {0})
set_sax_ns_stack p v =
    write (λ s. s.sax_live) (λ s. record s { sax_ns_stack = update s.sax_ns_stack p v }) p

abbrev pub get_sax_ns_stack_root : Ptr → Cmd Ptr
get_sax_ns_stack_root p = read (λ s. s.sax_live) (λ s. s.sax_ns_stack_root) p

abbrev pub set_sax_ns_stack_root : Ptr → Ptr → Cmd (Unit {0})
set_sax_ns_stack_root p v =
    write (λ s. s.sax_live) (λ s. record s { sax_ns_stack_root = update s.sax_ns_stack_root p v }) p

abbrev pub get_sax_locator : Ptr → Cmd (Option Hash)
get_sax_locator p = read (λ s. s.sax_live) (λ s. s.sax_locator) p

abbrev pub set_sax_locator : Ptr → Option Hash → Cmd (Unit {0})
set_sax_locator p v =
    write (λ s. s.sax_live) (λ s. record s { sax_locator = update s.sax_locator p v }) p

abbrev pub get_sax_handler : Ptr → Cmd Ptr
get_sax_handler p = read (λ s. s.sax_live) (λ s. s.sax_handler) p

abbrev pub set_sax_handler : Ptr → Ptr → Cmd (Unit {0})
set_sax_handler p v =
    write (λ s. s.sax_live) (λ s. record s { sax_handler = update s.sax_handler p v }) p

abbrev pub get_sax_parser : Ptr → Cmd Ptr
get_sax_parser p = read (λ s. s.sax_live) (λ s. s.sax_parser) p

abbrev pub set_sax_parser : Ptr → Ptr → Cmd (Unit {0})
set_sax_parser p v =
    write (λ s. s.sax_live) (λ s. record s { sax_parser = update s.sax_parser p v }) p

abbrev pub get_sax_saved_error : Ptr → Cmd Ptr
get_sax_saved_error p = read (λ s. s.sax_live) (λ s. s.sax_saved_error) p

abbrev pub set_sax_saved_error : Ptr → Ptr → Cmd (Unit {0})
set_sax_saved_error p v =
    write (λ s. s.sax_live) (λ s. record s { sax_saved_error = update s.sax_saved_error p v }) p

abbrev pub get_sax_charbuf : Ptr → Cmd Ptr
get_sax_charbuf p = read (λ s. s.sax_live) (λ s. s.sax_charbuf) p

abbrev pub set_sax_charbuf : Ptr → Ptr → Cmd (Unit {0})
set_sax_charbuf p v =
    write (λ s. s.sax_live) (λ s. record s { sax_charbuf = update s.sax_charbuf p v }) p

abbrev pub get_sax_joinchars : Ptr → Cmd ℕ
get_sax_joinchars p = read (λ s. s.sax_live) (λ s. s.sax_joinchars) p

abbrev pub set_sax_joinchars : Ptr → ℕ → Cmd (Unit {0})
set_sax_joinchars p v =
    write (λ s. s.sax_live) (λ s. record s { sax_joinchars = update s.sax_joinchars p v }) p
