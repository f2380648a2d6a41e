-- ===== src/Examples/Events.antt =====
-- The properties of the SAX layer, with a handler that records its calls.
use perl_xml_lib_xml.Common.{
  ℕ, zero, suc, ◌^◌, ◌≡◌, refl, none, some, [], ◌∷◌, arith, ◌==◌, if◌then◌else◌, length,
}
use perl_xml_lib_xml.Store.{Str, Store, valid, too_long_character_data}
use perl_xml_lib_xml.Store.Outcome.{croaked}
use perl_xml_lib_xml.Store.Returns.{Returns}
use perl_xml_lib_xml.Sax.Buffer.Texts.{IsBuffer}
use perl_xml_lib_xml.Sax.Buffer.Purge.{purged}
use perl_xml_lib_xml.Sax.Characters.{psax_characters_flush}
use perl_xml_lib_xml.Sax.Flush.{psax_characters_flush-one_call, psax_characters_flush-too_long}
use perl_xml_lib_xml.Sax.State.{IsSax, characters_call}
use perl_xml_lib_xml.Sax.Order.{comment_call, psax_comment-order}
use perl_xml_lib_xml.Sax.Events.{psax_comment}
use perl_xml_lib_xml.Examples.Buffers.{small-IsBuffer, small-AllocatesChunk, small-FreesChunks}
use perl_xml_lib_xml.Examples.Stores.{small_store, small_lib, at}
use perl_xml_lib_xml.Examples.Handlers.{small_perl}

abbrev ab : Str
ab = b'a' ∷ b'b' ∷ []

pub small-IsSax : IsSax small_store 500 501 600 200
unfolding valid
small-IsSax = record {
  ctxt_live = refl;
  state = refl;
  sax_live = refl;
  has_handler = refl;
  some_handler = refl;
  has_buffer = refl;
  joins = refl;
}

psax_characters_flush-one_call_example :
    Returns (psax_characters_flush small_lib small_perl 10 500 200 small_store) (λ _ g.
      (g.calls ≡ characters_call 600 ab ∷ []) × IsBuffer g 200 [] 203 × IsSax g 500 501 600 200)
psax_characters_flush-one_call_example =
    psax_characters_flush-one_call small_lib small_perl 10 small_store 500 501 600 200 201 ab [] 202
      203 small-IsSax small-IsBuffer (refl, tt) (omega arith) (λ call g. refl)
      (small-AllocatesChunk _ refl) small-FreesChunks (omega arith)

psax_comment-order_example :
    Returns (psax_comment small_lib small_perl 10 500 (some (b'c' ∷ [])) small_store) (λ _ g.
      (g.calls ≡ comment_call 600 (b'c' ∷ []) ∷ characters_call 600 ab ∷ [])
      × (g.buf_head 200 ≡ 203)
      × (g.chunk_text 203 ≡ none))
psax_comment-order_example =
    psax_comment-order small_lib small_perl 10 small_store 500 501 600 200 201 ab (b'c' ∷ []) [] 202
      203 small-IsSax small-IsBuffer (refl, tt) (omega arith) (λ call g. refl)
      (small-AllocatesChunk _ refl) small-FreesChunks (omega arith)

-- A text of `n` bytes.
unfoldable repeated : ℕ → Str
repeated zero = []
repeated (suc n) = b'a' ∷ repeated n

length-repeated : (n : ℕ) → length (repeated n) ≡ n
unfolding repeated
length-repeated zero = refl
length-repeated (suc n) = rw (length-repeated n) refl

-- The chunk 201 has 2^31 bytes.
abbrev long_store : Store
long_store = record small_store {
  chunk_text = λ p. if p == 201 then some (repeated (2 ^ 31)) else none;
  chunk_len = at ((201, 2 ^ 31) ∷ []);
}

long-IsSax : IsSax long_store 500 501 600 200
unfolding valid
long-IsSax = record {
  ctxt_live = refl;
  state = refl;
  sax_live = refl;
  has_handler = refl;
  some_handler = refl;
  has_buffer = refl;
  joins = refl;
}

long-IsBuffer : IsBuffer long_store 200 ((201, repeated (2 ^ 31)) ∷ []) 202
unfolding valid
long-IsBuffer = record {
  live = refl;
  chunks = (
    refl,
    refl,
    refl,
    rw (length-repeated (2 ^ 31)) refl,
    omega (arith, length-repeated (2 ^ 31)),
    refl,
  );
  tail = refl;
  tail_live = refl;
  tail_text = refl;
  tail_len = refl;
  tail_next = refl;
  apart = refl;
}

psax_characters_flush-too_long_example :
    psax_characters_flush small_lib small_perl 10 500 200 long_store
    ≡ croaked too_long_character_data (purged long_store 200 (201 ∷ []) 202 203)
psax_characters_flush-too_long_example =
    psax_characters_flush-too_long small_lib small_perl 10 long_store 500 501 600 200 201
      (repeated (2 ^ 31)) [] 202 203 long-IsSax long-IsBuffer (refl, tt)
      (omega (arith, length-repeated (2 ^ 31))) (omega (arith, length-repeated (2 ^ 31)))
      (small-AllocatesChunk _ refl) small-FreesChunks (omega arith)
