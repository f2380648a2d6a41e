-- ===== src/Sax/Buffer/Same.antt =====
-- A buffer stays what it is while its memory stays the same.
use perl_xml_lib_xml.Common.{◌≡◌, [], ◌∷◌}
use perl_xml_lib_xml.Store.{Ptr, Store}
use perl_xml_lib_xml.Sax.Buffer.Texts.{Cells, Chunks, IsBuffer}

-- From `h` to `g`, buffers and chunks are the same.
pub record SameBuffers (h g : Store) : Type 0 where
  pub chunk_live : g.chunk_live ≡ h.chunk_live
  pub chunk_text : g.chunk_text ≡ h.chunk_text
  pub chunk_len : g.chunk_len ≡ h.chunk_len
  pub chunk_next : g.chunk_next ≡ h.chunk_next
  pub buf_live : g.buf_live ≡ h.buf_live
  pub buf_head : g.buf_head ≡ h.buf_head
  pub buf_tail : g.buf_tail ≡ h.buf_tail

Chunks-same :
    (h g : Store) (p : Ptr) (cs : Cells) (t : Ptr)
    → SameBuffers h g
    → Chunks h p cs t
    → Chunks g p cs t
Chunks-same h g p [] t same c = c
Chunks-same h g p ((x, s) ∷ r) t same (px, vx, sx, lx, bx, cr) =
    rw (same.chunk_live, same.chunk_text, same.chunk_len, same.chunk_next)
      (px, vx, sx, lx, bx, Chunks-same h g (h.chunk_next x) r t same cr)

pub IsBuffer-same :
    (h g : Store) (b : Ptr) (cs : Cells) (t : Ptr)
    → SameBuffers h g
    → IsBuffer h b cs t
    → IsBuffer g b cs t
IsBuffer-same h g b cs t same good = record {
  live = rw same.buf_live good.live;
  chunks = rw same.buf_head (Chunks-same h g (h.buf_head b) cs t same good.chunks);
  tail = rw same.buf_tail good.tail;
  tail_live = rw same.chunk_live good.tail_live;
  tail_text = rw same.chunk_text good.tail_text;
  tail_len = rw same.chunk_len good.tail_len;
  tail_next = rw same.chunk_next good.tail_next;
  apart = good.apart;
}
