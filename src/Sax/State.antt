-- ===== src/Sax/State.antt =====
-- The SAX state while texts are joined, and what changes of the memory it does not notice; collecting a
-- text (PSaxCharacters) and handing one on (PSaxCharactersDispatch).
use perl_xml_lib_xml.Common.{◌≡◌, refl, true, false, Option, none, some, List, [], ◌∷◌, ◌==◌}
use perl_xml_lib_xml.Hash.{Hash, characters, fields, Call}
use perl_xml_lib_xml.Store.{Ptr, null, Str, Store, update, valid}
use perl_xml_lib_xml.Store.Outcome.{done}
use perl_xml_lib_xml.Libxml.{Libxml}
use perl_xml_lib_xml.Perl.{Perl}
use perl_xml_lib_xml.Dom.Links.Chains.{valid-ne_null}
use perl_xml_lib_xml.Sax.Buffer.{cbuffer_append}
use perl_xml_lib_xml.Sax.Buffer.Texts.{IsBuffer}
use perl_xml_lib_xml.Sax.Buffer.Purge.{purged}
use perl_xml_lib_xml.Sax.Values.{pmm_gen_char_data_sv}
use perl_xml_lib_xml.Sax.NsStack.{called}
use perl_xml_lib_xml.Sax.Context.{located, update_locator, pmm_update_locator}
use perl_xml_lib_xml.Sax.Characters.{psax_characters_dispatch, psax_characters}

-- The parser context `ctxt` has the SAX state `sax`, which has a handler and joins texts in `buffer`.
pub record IsSax (h : Store) (ctxt sax handler buffer : Ptr) : Type 0 where
  pub ctxt_live : valid h.ctxt_live ctxt ≡ true
  pub state : h.ctxt_private ctxt ≡ sax
  pub sax_live : valid h.sax_live sax ≡ true
  pub has_handler : h.sax_handler sax ≡ handler
  pub some_handler : (handler == null) ≡ false
  pub has_buffer : h.sax_charbuf sax ≡ buffer
  pub joins : (h.sax_joinchars sax == 0) ≡ false

pub purged-IsSax :
    (h : Store) (ctxt sax handler b : Ptr) (xs : List Ptr) (t f : Ptr)
    → IsSax h ctxt sax handler b
    → IsSax (purged h b xs t f) ctxt sax handler b
purged-IsSax h ctxt sax handler b xs t f is = record {
  ctxt_live = is.ctxt_live;
  state = is.state;
  sax_live = is.sax_live;
  has_handler = is.has_handler;
  some_handler = is.some_handler;
  has_buffer = is.has_buffer;
  joins = is.joins;
}

pub called-IsSax :
    (h : Store) (ctxt sax handler b : Ptr) (calls : List Call)
    → IsSax h ctxt sax handler b
    → IsSax (record h { calls = calls }) ctxt sax handler b
called-IsSax h ctxt sax handler b calls is = record {
  ctxt_live = is.ctxt_live;
  state = is.state;
  sax_live = is.sax_live;
  has_handler = is.has_handler;
  some_handler = is.some_handler;
  has_buffer = is.has_buffer;
  joins = is.joins;
}

pub called-IsBuffer :
    (h : Store) (b t : Ptr) (calls : List Call)
    → IsBuffer h b [] t
    → IsBuffer (record h { calls = calls }) b [] t
called-IsBuffer h b t calls good = record {
  live = good.live;
  chunks = good.chunks;
  tail = good.tail;
  tail_live = good.tail_live;
  tail_text = good.tail_text;
  tail_len = good.tail_len;
  tail_next = good.tail_next;
  apart = good.apart;
}

-- A handler whose methods do not die and do nothing to the memory here.
abbrev pub RecordsCalls : Perl → Type 0
RecordsCalls perl =
    (call : Call) (g : Store)
    → perl.call_method call g ≡ done false (record g { calls = call ∷ g.calls })

abbrev pub characters_call : Ptr → Str → Call
characters_call handler s = record {
  object = handler;
  method = characters;
  payload = fields (pmm_gen_char_data_sv (some s));
}

-- The locator after the parser moved on, if there is one.
abbrev pub moved : Libxml → Ptr → Ptr → Store → Option Hash → Store
moved lib ctxt sax h none = h
moved lib ctxt sax h (some locator) = record h {
  sax_locator = update h.sax_locator sax (some (located lib ctxt h locator));
}

pub moved-IsSax :
    (lib : Libxml) (h : Store) (ctxt sax handler buffer : Ptr) (locator : Option Hash)
    → IsSax h ctxt sax handler buffer
    → IsSax (moved lib ctxt sax h locator) ctxt sax handler buffer
moved-IsSax lib h ctxt sax handler buffer none is = is
moved-IsSax lib h ctxt sax handler buffer (some locator) is = record {
  ctxt_live = is.ctxt_live;
  state = is.state;
  sax_live = is.sax_live;
  has_handler = is.has_handler;
  some_handler = is.some_handler;
  has_buffer = is.has_buffer;
  joins = is.joins;
}

pub pmm_update_locator-run :
    (lib : Libxml) (h : Store) (ctxt sax handler buffer : Ptr)
    → IsSax h ctxt sax handler buffer
    → pmm_update_locator lib ctxt h ≡ done tt (moved lib ctxt sax h (h.sax_locator sax))
unfolding pmm_update_locator update_locator
pmm_update_locator-run lib h ctxt sax handler buffer is =
    rw (is.ctxt_live, is.state, is.sax_live) (moved_by (h.sax_locator sax))
  where
    moved_by :
        (locator : Option Hash)
        → update_locator lib ctxt sax locator h ≡ done tt (moved lib ctxt sax h locator)
    moved_by none = refl
    moved_by (some locator) = rw is.sax_live refl

-- Dispatching a text to such a handler is one call.
pub psax_characters_dispatch-run :
    (perl : Perl) (h : Store) (ctxt sax handler buffer : Ptr) (s : Str)
    → IsSax h ctxt sax handler buffer
    → RecordsCalls perl
    → psax_characters_dispatch perl ctxt (some s) h
      ≡ done tt (record h { calls = characters_call handler s ∷ h.calls })
unfolding psax_characters_dispatch called
psax_characters_dispatch-run perl h ctxt sax handler buffer s is records =
    rw
      (
        is.ctxt_live,
        is.state,
        valid-ne_null h.sax_live sax is.sax_live,
        is.sax_live,
        is.has_handler,
        is.some_handler,
        records (characters_call handler s) h,
      )
      refl

-- PSaxCharacters, when texts are joined, calls no method: it appends the text to the buffer, and moves the
-- locator if there is one.
pub psax_characters-joins :
    (lib : Libxml) (perl : Perl) (h : Store) (ctxt sax handler buffer : Ptr) (s : Str)
    → IsSax h ctxt sax handler buffer
    → psax_characters lib perl ctxt s h
      ≡ cbuffer_append lib buffer s (moved lib ctxt sax h (h.sax_locator sax))
unfolding psax_characters
psax_characters-joins lib perl h ctxt sax handler buffer s is =
    let after = moved-IsSax lib h ctxt sax handler buffer (h.sax_locator sax) is in
    rw
      (
        is.ctxt_live,
        is.state,
        pmm_update_locator-run lib h ctxt sax handler buffer is,
        after.sax_live,
        after.joins,
        after.sax_live,
        after.has_buffer,
      )
      refl
