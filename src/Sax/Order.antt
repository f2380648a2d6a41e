-- ===== src/Sax/Order.antt =====
-- Joined character data comes before the event that follows it (PSaxComment).
use perl_xml_lib_xml.Common.{ℕ, ◌+◌, ◌<◌, ◌≤◌, ◌≡◌, refl, Option, none, some, ◌∷◌, length, Distinct}
use perl_xml_lib_xml.Hash.{comment_method, fields, Hash, Call}
use perl_xml_lib_xml.Store.{Ptr, Str, Store}
use perl_xml_lib_xml.Store.Returns.{Returns, Returns-after}
use perl_xml_lib_xml.Libxml.{Libxml}
use perl_xml_lib_xml.Perl.{Perl}
use perl_xml_lib_xml.Sax.Buffer.Texts.{Cells, addresses, total, texts, IsBuffer}
use perl_xml_lib_xml.Sax.Buffer.Same.{IsBuffer-same}
use perl_xml_lib_xml.Sax.Buffer.Growth.{AllocatesChunk}
use perl_xml_lib_xml.Sax.Buffer.Purge.{FreesChunks, freed}
use perl_xml_lib_xml.Sax.Values.{pmm_gen_char_data_sv}
use perl_xml_lib_xml.Sax.NsStack.{called}
use perl_xml_lib_xml.Sax.Characters.{int_max, psax_characters_flush, flush_joined}
use perl_xml_lib_xml.Sax.Events.{tell, psax_comment}
use perl_xml_lib_xml.Sax.Flush.{psax_characters_flush-one_call}
use perl_xml_lib_xml.Sax.State.{
  IsSax, RecordsCalls, characters_call, moved, moved-IsSax, pmm_update_locator-run,
}

pub moved-IsBuffer :
    (lib : Libxml) (ctxt sax : Ptr) (h : Store) (locator : Option Hash) (b : Ptr) (cs : Cells)
    (t : Ptr)
    → IsBuffer h b cs t
    → IsBuffer (moved lib ctxt sax h locator) b cs t
moved-IsBuffer lib ctxt sax h none b cs t good = good
moved-IsBuffer lib ctxt sax h (some locator) b cs t good =
    IsBuffer-same h (moved lib ctxt sax h (some locator)) b cs t
      (record {
        chunk_live = refl;
        chunk_text = refl;
        chunk_len = refl;
        chunk_next = refl;
        buf_live = refl;
        buf_head = refl;
        buf_tail = refl;
      })
      good

pub moved-calls :
    (lib : Libxml) (ctxt sax : Ptr) (h : Store) (locator : Option Hash)
    → (moved lib ctxt sax h locator).calls ≡ h.calls
moved-calls lib ctxt sax h none = refl
moved-calls lib ctxt sax h (some locator) = refl

pub moved-chunk_live :
    (lib : Libxml) (ctxt sax : Ptr) (h : Store) (locator : Option Hash)
    → (moved lib ctxt sax h locator).chunk_live ≡ h.chunk_live
moved-chunk_live lib ctxt sax h none = refl
moved-chunk_live lib ctxt sax h (some locator) = refl

abbrev pub comment_call : Ptr → Str → Call
comment_call handler c = record {
  object = handler;
  method = comment_method;
  payload = fields (pmm_gen_char_data_sv (some c));
}

-- Under the conditions of PSaxCharactersFlush for one call, PSaxComment makes two calls: first `characters`
-- with all the texts that were collected, then `comment`; and the buffer is empty.
pub psax_comment-order :
    (lib : Libxml) (perl : Perl) (fuel : ℕ) (h : Store) (ctxt sax handler b x : Ptr) (s c : Str)
    (r : Cells) (t f : Ptr)
    → IsSax h ctxt sax handler b
    → IsBuffer h b ((x, s) ∷ r) t
    → Distinct (x ∷ addresses r)
    → total ((x, s) ∷ r) ≤ int_max
    → RecordsCalls perl
    → AllocatesChunk lib (freed (x ∷ addresses r) t h.chunk_live) f
    → FreesChunks lib
    → length r + 2 < fuel
    → Returns (psax_comment lib perl fuel ctxt (some c) h) (λ _ g.
      (g.calls ≡ comment_call handler c ∷ characters_call handler (texts ((x, s) ∷ r)) ∷ h.calls)
      × (g.buf_head b ≡ f)
      × (g.chunk_text f ≡ none))
unfolding psax_comment flush_joined tell called
psax_comment-order lib perl fuel h ctxt sax handler b x s c r t f is good apart short records gives
      frees enough =
    let locator = h.sax_locator sax in
    let g = moved lib ctxt sax h locator in
    let after = moved-IsSax lib h ctxt sax handler b locator is in
    rw
      (
        is.ctxt_live,
        is.state,
        is.sax_live,
        is.has_handler,
        pmm_update_locator-run lib h ctxt sax handler b is,
        is.some_handler,
        after.sax_live,
        after.joins,
        after.sax_live,
        after.has_buffer,
      )
      (Returns-after (psax_characters_flush lib perl fuel ctxt b g) _ _ _
        (psax_characters_flush-one_call lib perl fuel g ctxt sax handler b x s r t f after
          (moved-IsBuffer lib ctxt sax h locator b ((x, s) ∷ r) t good) apart short records
          (rw (moved-chunk_live lib ctxt sax h locator) gives) frees enough)
        (λ _ k (same, empty, still).
          rw (records (comment_call handler c) k, same, moved-calls lib ctxt sax h locator)
            (refl, empty.chunks, empty.tail_text)))
