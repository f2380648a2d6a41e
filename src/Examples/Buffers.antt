-- ===== src/Examples/Buffers.antt =====
-- The properties of the character buffer, at a buffer with one text.
use perl_xml_lib_xml.Common.{Bool, false, some, [], ◌∷◌, ◌≡◌, refl, arith}
use perl_xml_lib_xml.Store.{Ptr, valid}
use perl_xml_lib_xml.Store.Outcome.{done}
use perl_xml_lib_xml.Store.Returns.{Returns}
use perl_xml_lib_xml.Sax.Buffer.{cbuffer_purge, cbuffer_append, cbuffer_characters}
use perl_xml_lib_xml.Sax.Buffer.Texts.{Cells, IsBuffer, cbuffer_characters-texts}
use perl_xml_lib_xml.Sax.Buffer.Growth.{AllocatesChunk, cbuffer_append-IsBuffer}
use perl_xml_lib_xml.Sax.Buffer.Purge.{FreesChunks, AreFree, cbuffer_purge-IsBuffer}
use perl_xml_lib_xml.Examples.Stores.{small_store, small_lib}

abbrev pub one_cell : Cells
one_cell = (201, b'a' ∷ b'b' ∷ []) ∷ []

pub small-IsBuffer : IsBuffer small_store 200 one_cell 202
unfolding valid
small-IsBuffer = record {
  live = refl;
  chunks = (refl, refl, refl, refl, omega arith, refl);
  tail = refl;
  tail_live = refl;
  tail_text = refl;
  tail_len = refl;
  tail_next = refl;
  apart = refl;
}

pub small-AllocatesChunk :
    (live : Ptr → Bool) → live 203 ≡ false → AllocatesChunk small_lib live 203
small-AllocatesChunk live unused = record {
  not_null = refl;
  unused = unused;
  result = λ h same. refl;
}

cbuffer_characters-texts_example :
    cbuffer_characters 10 200 small_store ≡ done (some (b'a' ∷ b'b' ∷ [])) small_store
cbuffer_characters-texts_example =
    cbuffer_characters-texts 10 small_store 200 one_cell 202 small-IsBuffer (omega arith)

cbuffer_append-IsBuffer_example :
    Returns
      (cbuffer_append small_lib 200 (b'c' ∷ []) small_store)
      (λ _ g. IsBuffer g 200 ((201, b'a' ∷ b'b' ∷ []) ∷ (202, b'c' ∷ []) ∷ []) 203)
cbuffer_append-IsBuffer_example =
    cbuffer_append-IsBuffer small_lib small_store 200 one_cell 202 203 (b'c' ∷ []) small-IsBuffer
      (omega arith) (small-AllocatesChunk small_store.chunk_live refl)

pub small-FreesChunks : FreesChunks small_lib
small-FreesChunks g p v = refl

cbuffer_purge-IsBuffer_example :
    Returns
      (cbuffer_purge small_lib 10 200 small_store)
      (λ _ g. IsBuffer g 200 [] 203 × AreFree (202 ∷ 201 ∷ []) 203 small_store g)
cbuffer_purge-IsBuffer_example =
    cbuffer_purge-IsBuffer small_lib 10 small_store 200 one_cell 202 203 small-IsBuffer (refl, tt)
      (small-AllocatesChunk _ refl) small-FreesChunks (omega arith)
