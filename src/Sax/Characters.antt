-- ===== src/Sax/Characters.antt =====
-- Character data (perl-libxml-sax.c: PSaxCharactersDispatch, PSaxCharactersFlush, PSaxCharacters). The fuel
-- is that of the buffer's loops. A text is the bytes that its length counts.
use perl_xml_lib_xml.Common.{
  ℕ, ◌-◌, ◌^◌, not, ◌&&◌, Option, some, ◌==◌, ltb, if◌then◌else◌, is_some,
}
use perl_xml_lib_xml.Hash.{characters, fields}
use perl_xml_lib_xml.Store.{Ptr, null, Str, too_long_character_data}
use perl_xml_lib_xml.Store.Outcome.{Cmd, pure, croak, when, ◌>>=◌, ◌>>◌}
use perl_xml_lib_xml.Store.Fields.{get_buf_head}
use perl_xml_lib_xml.Store.MoreFields.{
  get_ctxt_private, get_sax_handler, get_sax_charbuf, get_sax_joinchars,
}
use perl_xml_lib_xml.Libxml.{Libxml}
use perl_xml_lib_xml.Perl.{Perl}
use perl_xml_lib_xml.Sax.Buffer.{
  has_text, cbuffer_append, cbuffer_characters, cbuffer_length, cbuffer_purge,
}
use perl_xml_lib_xml.Sax.Values.{pmm_gen_char_data_sv}
use perl_xml_lib_xml.Sax.NsStack.{called}
use perl_xml_lib_xml.Sax.Context.{pmm_update_locator}

-- INT_MAX of a 32-bit int.
abbrev pub int_max : ℕ
int_max = 2 ^ 31 - 1

module _ (perl : Perl) where
  unfoldable pub psax_characters_dispatch : Ptr → Option Str → Cmd (Unit {0})
  psax_characters_dispatch ctxt ch = do
    sax ← get_ctxt_private ctxt
    if sax == null then pure tt else do
      handler ← get_sax_handler sax
      when (is_some ch && not (handler == null)) (
          called perl (record {
            object = handler;
            method = characters;
            payload = fields (pmm_gen_char_data_sv ch);
          }))

module _ (lib : Libxml) (perl : Perl) where
  unfoldable pub psax_characters_flush : ℕ → Ptr → Ptr → Cmd (Unit {0})
  psax_characters_flush fuel ctxt buffer = do
    sax ← get_ctxt_private ctxt
    head ← get_buf_head buffer
    full ← has_text head
    if not full then pure tt else do
      charbuf ← get_sax_charbuf sax
      ch ← cbuffer_characters fuel charbuf
      buflen ← cbuffer_length fuel charbuf
      cbuffer_purge lib fuel buffer
      if ltb int_max buflen
          then croak too_long_character_data
          else psax_characters_dispatch perl ctxt ch

  -- `if (sax->joinchars) PSaxCharactersFlush(ctxt, sax->charbuf);`
  unfoldable pub flush_joined : ℕ → Ptr → Ptr → Cmd (Unit {0})
  flush_joined fuel ctxt sax = do
    joinchars ← get_sax_joinchars sax
    when (not (joinchars == 0))
        (do charbuf ← get_sax_charbuf sax; psax_characters_flush fuel ctxt charbuf)

  unfoldable pub psax_characters : Ptr → Str → Cmd (Unit {0})
  psax_characters ctxt ch = do
    sax ← get_ctxt_private ctxt
    pmm_update_locator lib ctxt
    joinchars ← get_sax_joinchars sax
    if joinchars == 0
        then psax_characters_dispatch perl ctxt (some ch)
        else (do buffer ← get_sax_charbuf sax; cbuffer_append lib buffer ch)
