-- ===== src/Sax/Flush.antt =====
-- Joined character data: collected, and handed on in one call (PSaxCharacters, PSaxCharactersFlush).
use perl_xml_lib_xml.Common.{
  ℕ, ◌+◌, ◌<◌, ◌≤◌, ◌≡◌, refl, true, false, some, [], ◌∷◌, arith, ltb, leb, length, Distinct,
}
use perl_xml_lib_xml.Store.{Ptr, Str, Store, too_long_character_data}
use perl_xml_lib_xml.Store.Outcome.{done, croaked}
use perl_xml_lib_xml.Store.Returns.{Returns}
use perl_xml_lib_xml.Libxml.{Libxml}
use perl_xml_lib_xml.Perl.{Perl}
use perl_xml_lib_xml.Dom.Links.Chains.{valid-ne_null}
use perl_xml_lib_xml.Sax.Buffer.{size_max, has_text, cbuffer_characters, cbuffer_length}
use perl_xml_lib_xml.Sax.Buffer.Texts.{
  Cells, addresses, total, texts, IsBuffer, length_loop-from_zero, cbuffer_characters-texts,
}
use perl_xml_lib_xml.Sax.Buffer.Growth.{AllocatesChunk}
use perl_xml_lib_xml.Sax.Buffer.Purge.{
  FreesChunks, freed, purged, cbuffer_purge-run, purged-IsBuffer,
}
use perl_xml_lib_xml.Sax.Characters.{int_max, psax_characters_flush}
use perl_xml_lib_xml.Sax.State.{
  IsSax, purged-IsSax, called-IsSax, called-IsBuffer, RecordsCalls, characters_call,
  psax_characters_dispatch-run,
}

cbuffer_length-total :
    (fuel : ℕ) (h : Store) (b : Ptr) (cs : Cells) (t : Ptr)
    → IsBuffer h b cs t
    → length cs + 1 < fuel
    → total cs ≤ size_max
    → cbuffer_length fuel b h ≡ done (total cs) h
unfolding cbuffer_length
cbuffer_length-total fuel h b cs t good enough fits =
    let small : leb (total cs) size_max ≡ true = ground arith in
    rw (good.live, length_loop-from_zero fuel h b cs t good enough, small) refl

characters-texts :
    (fuel : ℕ) (h : Store) (b x : Ptr) (s : Str) (r : Cells) (t : Ptr)
    → IsBuffer h b ((x, s) ∷ r) t
    → length r + 2 < fuel
    → total ((x, s) ∷ r) < size_max
    → cbuffer_characters fuel b h ≡ done (some (texts ((x, s) ∷ r))) h
characters-texts fuel h b x s r t good enough fits =
    let small : ltb (total ((x, s) ∷ r)) size_max ≡ true = ground arith in
    rw (cbuffer_characters-texts fuel h b ((x, s) ∷ r) t good (omega arith), small) refl

has_text-full :
    (h : Store) (b x : Ptr) (s : Str) (r : Cells) (t : Ptr)
    → IsBuffer h b ((x, s) ∷ r) t
    → has_text (h.buf_head b) h ≡ done true h
unfolding has_text
has_text-full h b x s r t good =
    let (px, vx, sx, lx, bx, cr) = good.chunks in
    rw (px, valid-ne_null h.chunk_live x vx, vx, sx) refl

-- Let the SAX state have a handler whose methods do not die, and join texts in a well-formed buffer that
-- holds texts, of at most INT_MAX bytes together; let xmlFree take back the chunks, and xmlMalloc hand out
-- one that is free then. Then PSaxCharactersFlush makes one call, of `characters`, with all the texts one
-- after the other, and leaves the buffer well formed and empty and the SAX state as it was.
pub psax_characters_flush-one_call :
    (lib : Libxml) (perl : Perl) (fuel : ℕ) (h : Store) (ctxt sax handler b x : Ptr) (s : Str)
    (r : Cells) (t f : Ptr)
    → IsSax h ctxt sax handler b
    → IsBuffer h b ((x, s) ∷ r) t
    → Distinct (x ∷ addresses r)
    → total ((x, s) ∷ r) ≤ int_max
    → RecordsCalls perl
    → AllocatesChunk lib (freed (x ∷ addresses r) t h.chunk_live) f
    → FreesChunks lib
    → length r + 2 < fuel
    → Returns (psax_characters_flush lib perl fuel ctxt b h) (λ _ g.
      (g.calls ≡ characters_call handler (texts ((x, s) ∷ r)) ∷ h.calls)
      × IsBuffer g b [] f
      × IsSax g ctxt sax handler b)
unfolding psax_characters_flush
psax_characters_flush-one_call lib perl fuel h ctxt sax handler b x s r t f is good apart short
      records gives frees enough =
    let g = purged h b (x ∷ addresses r) t f in
    let fits : ltb int_max (total ((x, s) ∷ r)) ≡ false = ground arith in
    rw
      (
        is.ctxt_live,
        is.state,
        good.live,
        has_text-full h b x s r t good,
        is.sax_live,
        is.has_buffer,
        characters-texts fuel h b x s r t good enough (omega arith),
        cbuffer_length-total fuel h b ((x, s) ∷ r) t good (omega arith) (omega arith),
        cbuffer_purge-run lib fuel h b x s r t f good apart gives frees enough,
        fits,
        psax_characters_dispatch-run perl g ctxt sax handler b (texts ((x, s) ∷ r))
            (purged-IsSax h ctxt sax handler b (x ∷ addresses r) t f is) records,
      )
      (
        refl,
        called-IsBuffer g b f (characters_call handler (texts ((x, s) ∷ r)) ∷ h.calls)
            (purged-IsBuffer h b (x ∷ addresses r) t f good.live gives.not_null),
        called-IsSax g ctxt sax handler b (characters_call handler (texts ((x, s) ∷ r)) ∷ h.calls)
            (purged-IsSax h ctxt sax handler b (x ∷ addresses r) t f is),
      )

-- Let it be as there, but with more than INT_MAX bytes, and less than SIZE_MAX. Then it croaks instead: no
-- method is called, and the chunks are freed and the buffer is emptied all the same.
pub psax_characters_flush-too_long :
    (lib : Libxml) (perl : Perl) (fuel : ℕ) (h : Store) (ctxt sax handler b x : Ptr) (s : Str)
    (r : Cells) (t f : Ptr)
    → IsSax h ctxt sax handler b
    → IsBuffer h b ((x, s) ∷ r) t
    → Distinct (x ∷ addresses r)
    → int_max < total ((x, s) ∷ r)
    → total ((x, s) ∷ r) < size_max
    → AllocatesChunk lib (freed (x ∷ addresses r) t h.chunk_live) f
    → FreesChunks lib
    → length r + 2 < fuel
    → psax_characters_flush lib perl fuel ctxt b h
      ≡ croaked too_long_character_data (purged h b (x ∷ addresses r) t f)
unfolding psax_characters_flush
psax_characters_flush-too_long lib perl fuel h ctxt sax handler b x s r t f is good apart long fits
      gives frees enough =
    let over : ltb int_max (total ((x, s) ∷ r)) ≡ true = ground arith in
    rw
      (
        is.ctxt_live,
        is.state,
        good.live,
        has_text-full h b x s r t good,
        is.sax_live,
        is.has_buffer,
        characters-texts fuel h b x s r t good enough fits,
        cbuffer_length-total fuel h b ((x, s) ∷ r) t good (omega arith) (omega arith),
        cbuffer_purge-run lib fuel h b x s r t f good apart gives frees enough,
        over,
      )
      refl
