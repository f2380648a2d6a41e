-- ===== src/Examples/Joined.antt =====
-- The property of a run of SAX events, with two pieces of character data.
use perl_xml_lib_xml.Common.{
  ap, ◌∙◌, Bool, ◌≡◌, refl, true, false, none, some, [], ◌∷◌, arith, ◌==◌, if◌then◌else◌,
}
use perl_xml_lib_xml.Store.{Ptr, null, Str, Store, valid}
use perl_xml_lib_xml.Store.Outcome.{done}
use perl_xml_lib_xml.Store.Returns.{Returns}
use perl_xml_lib_xml.Libxml.{Libxml}
use perl_xml_lib_xml.Sax.Buffer.Texts.{IsBuffer}
use perl_xml_lib_xml.Sax.Buffer.Growth.{AllocatesChunk}
use perl_xml_lib_xml.Sax.State.{IsSax, characters_call}
use perl_xml_lib_xml.Sax.Order.{comment_call}
use perl_xml_lib_xml.Sax.Events.{on_comment, run_events}
use perl_xml_lib_xml.Sax.Run.{Pieces, event_list, run_events-joined}
use perl_xml_lib_xml.Examples.Stores.{small_store, small_lib, at}
use perl_xml_lib_xml.Examples.Handlers.{small_perl}

abbrev ab : Str
ab = b'a' ∷ b'b' ∷ []

-- The buffer 200 is empty, and memory gives the blocks 203 and 204.
abbrev empty_store : Store
empty_store = record small_store {
  buf_head = at ((200, 202) ∷ []);
  chunk_live = λ p. p == 202;
  chunk_text = λ p. none;
  chunk_len = λ p. 0;
  chunk_next = λ p. null;
}

abbrev two_lib : Libxml
two_lib = record small_lib {
  malloc_chunk = λ h.
      if h.chunk_live 203
      then done 204 (record h { chunk_live = λ q. if q == 204 then true else h.chunk_live q })
      else done 203 (record h { chunk_live = λ q. if q == 203 then true else h.chunk_live q });
}

two-AllocatesChunk_203 : (live : Ptr → Bool) → live 203 ≡ false → AllocatesChunk two_lib live 203
two-AllocatesChunk_203 live unused = record {
  not_null = refl;
  unused = unused;
  result =
      λ h same. let free : h.chunk_live 203 ≡ false = ap (λ l. l 203) same ∙ unused in rw free refl;
}

two-AllocatesChunk_204 :
    (live : Ptr → Bool) → live 203 ≡ true → live 204 ≡ false → AllocatesChunk two_lib live 204
two-AllocatesChunk_204 live used unused = record {
  not_null = refl;
  unused = unused;
  result =
      λ h same. let taken : h.chunk_live 203 ≡ true = ap (λ l. l 203) same ∙ used in rw taken refl;
}

empty-IsSax : IsSax empty_store 500 501 600 200
unfolding valid
empty-IsSax = record {
  ctxt_live = refl;
  state = refl;
  sax_live = refl;
  has_handler = refl;
  some_handler = refl;
  has_buffer = refl;
  joins = refl;
}

empty-IsBuffer : IsBuffer empty_store 200 [] 202
unfolding valid
empty-IsBuffer = record {
  live = refl;
  chunks = refl;
  tail = refl;
  tail_live = refl;
  tail_text = refl;
  tail_len = refl;
  tail_next = refl;
  apart = refl;
}

abbrev two_pieces : Pieces
two_pieces = (ab, 203) ∷ (b'c' ∷ [], 204) ∷ []

run_events-joined_example :
    Returns
      (run_events two_lib small_perl 10 500
        (event_list two_pieces (on_comment (some (b'd' ∷ [])) ∷ []))
        empty_store)
      (λ _ g.
        g.calls ≡ comment_call 600 (b'd' ∷ []) ∷ characters_call 600 (b'a' ∷ b'b' ∷ b'c' ∷ []) ∷ [])
run_events-joined_example =
    run_events-joined two_lib small_perl 10 empty_store 500 501 600 200 202 203 203 ab (b'd' ∷ [])
      ((b'c' ∷ [], 204) ∷ []) empty-IsSax empty-IsBuffer
      (
        two-AllocatesChunk_203 empty_store.chunk_live refl,
        omega arith,
        (two-AllocatesChunk_204 _ refl refl, omega arith, tt),
      )
      (two-AllocatesChunk_203 _ refl) (omega arith) (λ call g. refl) (λ g p v. refl) (omega arith)
