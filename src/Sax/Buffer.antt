-- ===== src/Sax/Buffer.antt =====
-- The character buffer (perl-libxml-sax.c: CBufferChunkNew to CBufferCharacters): a list of chunks whose
-- last chunk is empty. A chunk's text is a value, so that copying and freeing its bytes is nothing here.
-- The fuel of a loop bounds the chunks that it visits.
pub mod Texts
pub mod Same
pub mod Growth
pub mod Purge
use perl_xml_lib_xml.Common.{
  ℕ, zero, suc, ◌+◌, ◌-◌, ◌%◌, ◌^◌, Bool, true, false, ◌||◌, not, Option, none, some, List, [], ◌∷◌,
  ◌++◌, ◌==◌, ltb, if◌then◌else◌, is_some, length,
}
use perl_xml_lib_xml.Store.{Ptr, null, Str, out_of_memory, buffer_overflow}
use perl_xml_lib_xml.Store.Outcome.{Cmd, pure, no_fuel, croak, fault, when, ◌>>=◌, ◌>>◌}
use perl_xml_lib_xml.Store.Fields.{
  get_buf_head, set_buf_head, get_buf_tail, set_buf_tail, get_chunk_next, set_chunk_next,
  get_chunk_text, set_chunk_text, get_chunk_len, set_chunk_len,
}
use perl_xml_lib_xml.Libxml.{Libxml}

-- SIZE_MAX of a 64-bit size_t.
abbrev pub size_max : ℕ
size_max = 2 ^ 64 - 1

-- Whether there is a first chunk with a text.
unfoldable pub has_text : Ptr → Cmd Bool
has_text head = if head == null then pure false else do t ← get_chunk_text head; pure (is_some t)

module _ (lib : Libxml) where
  unfoldable pub cbuffer_chunk_new : Cmd Ptr
  cbuffer_chunk_new = do
    chunk ← lib.malloc_chunk
    if chunk == null then croak out_of_memory else (do
      set_chunk_next chunk null
      set_chunk_text chunk none
      set_chunk_len chunk 0
      pure chunk)

  unfoldable pub cbuffer_new : Cmd Ptr
  cbuffer_new = do
    buffer ← lib.malloc_buffer
    if buffer == null then croak out_of_memory else (do
      chunk ← cbuffer_chunk_new
      set_buf_head buffer chunk
      set_buf_tail buffer chunk
      pure buffer)

  unfoldable pub free_chunks : ℕ → Ptr → Cmd (Unit {0})
  free_chunks zero p = no_fuel
  free_chunks (suc k) p =
      if p == null then pure tt else do n ← get_chunk_next p; lib.free_chunk p; free_chunks k n

  unfoldable pub cbuffer_purge : ℕ → Ptr → Cmd (Unit {0})
  cbuffer_purge fuel buffer = if buffer == null then pure tt else do
    head ← get_buf_head buffer
    full ← has_text head
    when full (do
      free_chunks fuel head
      chunk ← cbuffer_chunk_new
      set_buf_head buffer chunk
      set_buf_tail buffer chunk)

  unfoldable pub cbuffer_free : ℕ → Ptr → Cmd (Unit {0})
  cbuffer_free fuel buffer =
      if buffer == null
      then pure tt
      else do head ← get_buf_head buffer; free_chunks fuel head; lib.free_buffer buffer

  unfoldable pub cbuffer_append : Ptr → Str → Cmd (Unit {0})
  cbuffer_append buffer text = do
    tail ← get_buf_tail buffer
    set_chunk_text tail (some text)
    set_chunk_len tail (length text)
    chunk ← cbuffer_chunk_new
    set_chunk_next tail chunk
    set_buf_tail buffer chunk

-- The loop of CBufferLength.
unfoldable pub length_loop : ℕ → Ptr → ℕ → Cmd ℕ
length_loop zero cur total = no_fuel
length_loop (suc k) cur total = if cur == null then pure total else do
  len ← get_chunk_len cur
  n ← get_chunk_next cur
  if ltb (size_max - len) total then croak buffer_overflow else length_loop k n (total + len)

unfoldable pub cbuffer_length : ℕ → Ptr → Cmd ℕ
cbuffer_length fuel buffer = do head ← get_buf_head buffer; length_loop fuel head 0

-- The body of the copy loop of CBufferCharacters for one chunk, with what comes after it: `abort()` is a
-- fault, and so is a memcpy that goes past the `room` bytes of the block.
unfoldable pub copy_text : ℕ → ℕ → Option Str → ℕ → ℕ → Str → (ℕ → Str → Cmd Str) → Cmd Str
copy_text total room none len copied out continue = continue copied out
copy_text total room (some t) len copied out continue =
    let now = (copied + len) % 2 ^ 64 in
    if ltb total now || ltb room now then (λ h. fault) else continue now (out ++ t)

unfoldable pub copy_loop : ℕ → ℕ → ℕ → Ptr → ℕ → Str → Cmd Str
copy_loop zero total room cur copied out = no_fuel
copy_loop (suc k) total room cur copied out = if cur == null then pure out else do
  text ← get_chunk_text cur
  len ← get_chunk_len cur
  n ← get_chunk_next cur
  copy_text total room text len copied out (copy_loop k total room n)

-- `xmlMalloc(length + 1)`: how many bytes the block has. The sum wraps around.
unfoldable pub block_size : ℕ → ℕ
block_size total = (total + 1) % 2 ^ 64

unfoldable pub cbuffer_characters : ℕ → Ptr → Cmd (Option Str)
cbuffer_characters fuel buffer = do
  total ← cbuffer_length fuel buffer
  head ← get_buf_head buffer
  full ← has_text head
  let room = block_size total
  if not full then pure none else (do
    out ← copy_loop fuel total room head 0 []
    if ltb total room then pure (some out) else (λ h. fault))
