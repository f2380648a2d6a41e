-- ===== src/Sax/Buffer/Growth.antt =====
-- The character buffer takes the texts that are appended, in order (CBufferAppend).
use perl_xml_lib_xml.Common.{
  ℕ, Bool, ◌≤◌, ◌≡◌, refl, true, false, none, some, [], ◌∷◌, ◌++◌, arith, ◌==◌, if◌then◌else◌,
  length, mem, ==_refl,
}
use perl_xml_lib_xml.Store.{Ptr, null, Str, Store, update, valid}
use perl_xml_lib_xml.Store.Blocks.{valid-other, valid-of_fresh, apart_of_live}
use perl_xml_lib_xml.Store.Outcome.{done}
use perl_xml_lib_xml.Store.Returns.{Returns}
use perl_xml_lib_xml.Libxml.{Libxml}
use perl_xml_lib_xml.Sax.Buffer.{size_max, cbuffer_chunk_new, cbuffer_append}
use perl_xml_lib_xml.Sax.Buffer.Texts.{Cells, addresses, Chunks, IsBuffer}

-- `xmlMalloc` hands out the block `f` for a chunk when the chunks in use are `live`; `f` is none of them.
pub record AllocatesChunk (lib : Libxml) (live : Ptr → Bool) (f : Ptr) : Type 0 where
  pub not_null : (f == null) ≡ false
  pub unused : live f ≡ false
  pub result :
      (h : Store)
      → h.chunk_live ≡ live
      → lib.malloc_chunk h
        ≡ done f (record h { chunk_live = λ q. if q == f then true else h.chunk_live q })

-- The store after the text `s` went into the last chunk `t` of `b` and the chunk `f` behind it.
abbrev pub appended : Store → Ptr → Ptr → Str → Ptr → Store
appended h b t s f = record h {
  chunk_live = λ q. if q == f then true else h.chunk_live q;
  chunk_text = update (update h.chunk_text t (some s)) f none;
  chunk_len = update (update h.chunk_len t (length s)) f 0;
  chunk_next = update (update h.chunk_next f null) t f;
  buf_tail = update h.buf_tail b f;
}

eq_sym_false : (a b : ℕ) → (a == b) ≡ false → (b == a) ≡ false
eq_sym_false a b e = ground arith

Chunks-appended :
    (h : Store) (b t f : Ptr) (s : Str) (p : Ptr) (cs : Cells)
    → Chunks h p cs t
    → valid h.chunk_live t ≡ true
    → (f == null) ≡ false
    → h.chunk_live f ≡ false
    → mem t (addresses cs) ≡ false
    → length s ≤ size_max
    → Chunks (appended h b t s f) p (cs ++ (t, s) ∷ []) f
Chunks-appended h b t f s p [] c vt nf dead apart small =
    let tf = apart_of_live h.chunk_live f t dead vt in
    (
      c,
      valid-other h.chunk_live f t tf vt,
      rw (tf, ==_refl t) refl,
      rw (tf, ==_refl t) refl,
      small,
      rw (==_refl t) refl,
    )
Chunks-appended h b t f s p ((x, u) ∷ r) (px, vx, ux, lx, bx, cr) vt nf dead apart small =
    let xf = apart_of_live h.chunk_live f x dead vx in
    let xt : (x == t) ≡ false = ground (arith) in
    (
      px,
      valid-other h.chunk_live f x xf vx,
      rw (xf, xt, ux) refl,
      rw (xf, xt, lx) refl,
      bx,
      rw (xt, xf) (Chunks-appended h b t f s (h.chunk_next x) r cr vt nf dead (ground arith) small),
    )

-- A block that is not in use is no chunk of the buffer.
fresh-apart :
    (h : Store) (t f : Ptr) (s : Str) (p : Ptr) (cs : Cells)
    → Chunks h p cs t
    → valid h.chunk_live t ≡ true
    → h.chunk_live f ≡ false
    → mem f (addresses (cs ++ (t, s) ∷ [])) ≡ false
fresh-apart h t f s p [] c vt dead =
    rw (eq_sym_false t f (apart_of_live h.chunk_live f t dead vt)) refl
fresh-apart h t f s p ((x, u) ∷ r) (px, vx, ux, lx, bx, cr) vt dead =
    rw (eq_sym_false x f (apart_of_live h.chunk_live f x dead vx))
      (fresh-apart h t f s (h.chunk_next x) r cr vt dead)

pub cbuffer_append-run :
    (lib : Libxml) (h : Store) (b : Ptr) (cs : Cells) (t f : Ptr) (s : Str)
    → IsBuffer h b cs t
    → AllocatesChunk lib h.chunk_live f
    → cbuffer_append lib b s h ≡ done tt (appended h b t s f)
unfolding cbuffer_append cbuffer_chunk_new
cbuffer_append-run lib h b cs t f s good gives =
    let fresh = valid-of_fresh h.chunk_live f gives.not_null in
    rw
      (
        good.live,
        good.tail,
        good.tail_live,
        good.tail_live,
        gives.result
            (record h {
              chunk_text = update h.chunk_text t (some s);
              chunk_len = update h.chunk_len t (length s);
            })
            refl,
        gives.not_null,
        fresh,
        fresh,
        fresh,
        valid-other h.chunk_live f t (apart_of_live h.chunk_live f t gives.unused good.tail_live)
            good.tail_live,
        good.live,
      )
      refl

pub appended-IsBuffer :
    (lib : Libxml) (h : Store) (b : Ptr) (cs : Cells) (t f : Ptr) (s : Str)
    → IsBuffer h b cs t
    → length s ≤ size_max
    → AllocatesChunk lib h.chunk_live f
    → IsBuffer (appended h b t s f) b (cs ++ (t, s) ∷ []) f
appended-IsBuffer lib h b cs t f s good small gives = record {
  live = good.live;
  chunks =
      Chunks-appended h b t f s (h.buf_head b) cs good.chunks good.tail_live gives.not_null
        gives.unused good.apart small;
  tail = rw (==_refl b) refl;
  tail_live = valid-of_fresh h.chunk_live f gives.not_null;
  tail_text = rw (==_refl f) refl;
  tail_len = rw (==_refl f) refl;
  tail_next =
      rw (eq_sym_false t f (apart_of_live h.chunk_live f t gives.unused good.tail_live), ==_refl f)
        refl;
  apart = fresh-apart h t f s (h.buf_head b) cs good.chunks good.tail_live gives.unused;
}

-- Let the buffer be well formed, let the length of the text be a size_t, and let xmlMalloc hand out a
-- block for a chunk that was not in use. Then CBufferAppend returns, and the buffer is well formed with
-- one more text behind those that it held: the chunk that was empty has it, and the new one is empty.
pub cbuffer_append-IsBuffer :
    (lib : Libxml) (h : Store) (b : Ptr) (cs : Cells) (t f : Ptr) (s : Str)
    → IsBuffer h b cs t
    → length s ≤ size_max
    → AllocatesChunk lib h.chunk_live f
    → Returns (cbuffer_append lib b s h) (λ _ g. IsBuffer g b (cs ++ (t, s) ∷ []) f)
cbuffer_append-IsBuffer lib h b cs t f s good small gives =
    rw (cbuffer_append-run lib h b cs t f s good gives)
      (appended-IsBuffer lib h b cs t f s good small gives)
