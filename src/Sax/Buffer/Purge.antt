-- ===== src/Sax/Buffer/Purge.antt =====
-- A new character buffer, and emptying one (CBufferNew, CBufferPurge).
use perl_xml_lib_xml.Common.{
  ℕ, zero, suc, ◌+◌, ◌<◌, ◌≡◌, refl, Bool, true, false, none, List, [], ◌∷◌, arith, ◌==◌,
  if◌then◌else◌, length, mem, Distinct, ==_refl, ==_iff, Bool-cases, inl, inr, ◌∙◌,
}
use perl_xml_lib_xml.Store.{Ptr, null, Str, Store, update, valid}
use perl_xml_lib_xml.Store.Outcome.{done}
use perl_xml_lib_xml.Store.Returns.{Returns}
use perl_xml_lib_xml.Libxml.{Libxml}
use perl_xml_lib_xml.Dom.Links.Chains.{valid-ne_null}
use perl_xml_lib_xml.Sax.Buffer.{
  has_text, cbuffer_chunk_new, cbuffer_new, free_chunks, cbuffer_purge, cbuffer_free,
}
use perl_xml_lib_xml.Sax.Buffer.Texts.{Cells, addresses, Chunks, IsBuffer}
use perl_xml_lib_xml.Sax.Buffer.Growth.{AllocatesChunk}
use perl_xml_lib_xml.Store.Blocks.{valid-of_fresh, valid-freed}

-- `xmlFree` takes back any chunk that is in use.
abbrev pub FreesChunks : Libxml → Type 0
FreesChunks lib =
    (g : Store) (p : Ptr)
    → valid g.chunk_live p ≡ true
    → lib.free_chunk p g ≡ done tt (record g { chunk_live = update g.chunk_live p false })

-- Which chunks are in use after `xs` and then `t` are free.
abbrev pub freed : List Ptr → Ptr → (Ptr → Bool) → Ptr → Bool
freed [] t live = update live t false
freed (x ∷ r) t live = freed r t (update live x false)

pub freed-last : (xs : List Ptr) (t : Ptr) (live : Ptr → Bool) → freed xs t live t ≡ false
freed-last [] t live = rw (==_refl t) refl
freed-last (x ∷ r) t live = freed-last r t (update live x false)

freed-dead :
    (xs : List Ptr) (t : Ptr) (live : Ptr → Bool) (f : Ptr)
    → live f ≡ false
    → freed xs t live f ≡ false
freed-dead [] t live f dead = ground arith
freed-dead (x ∷ r) t live f dead = freed-dead r t (update live x false) f (ground arith)

pub freed-mem :
    (xs : List Ptr) (t : Ptr) (live : Ptr → Bool) (f : Ptr)
    → mem f xs ≡ true
    → freed xs t live f ≡ false
freed-mem [] t live f inside = cc
freed-mem (x ∷ r) t live f inside = elim (Bool-cases (f == x)) [
  | inl e ↦ freed-dead r t (update live x false) f (rw e refl)
  | inr e ↦ freed-mem r t (update live x false) f (ground arith)
]

Chunks-freed :
    (h : Store) (x t p : Ptr) (cs : Cells)
    → mem x (addresses cs) ≡ false
    → Chunks h p cs t
    → Chunks (record h { chunk_live = update h.chunk_live x false }) p cs t
Chunks-freed h x t p [] out c = c
Chunks-freed h x t p ((y, s) ∷ r) out (py, vy, sy, ly, by, cr) = (
  py,
  valid-freed h.chunk_live x y (ground arith) vy,
  sy,
  ly,
  by,
  Chunks-freed h x t (h.chunk_next y) r (ground arith) cr,
)

free_chunks-run :
    (lib : Libxml) (k : ℕ) (h : Store) (p : Ptr) (cs : Cells) (t : Ptr)
    → FreesChunks lib
    → Chunks h p cs t
    → valid h.chunk_live t ≡ true
    → h.chunk_next t ≡ null
    → Distinct (addresses cs)
    → mem t (addresses cs) ≡ false
    → length cs + 1 < k
    → free_chunks lib k p h
      ≡ done tt (record h { chunk_live = freed (addresses cs) t h.chunk_live })
unfolding free_chunks
free_chunks-run lib zero h p cs t frees c vt nt apart out fuel = elim fuel [ ]
free_chunks-run lib (suc zero) h p [] t frees c vt nt apart out fuel = absurd (omega arith)
free_chunks-run lib (suc (suc k)) h p [] t frees c vt nt apart out fuel =
    rw (c, valid-ne_null h.chunk_live t vt, vt, nt, frees h t vt) refl
free_chunks-run lib (suc k) h p ((x, s) ∷ r) t frees (px, vx, sx, lx, bx, cr) vt nt apart out fuel =
    let g = record h { chunk_live = update h.chunk_live x false } in
    rw (px, valid-ne_null h.chunk_live x vx, vx, frees h x vx)
      (free_chunks-run lib k g (h.chunk_next x) r t frees
        (Chunks-freed h x t (h.chunk_next x) r apart.0 cr)
        (valid-freed h.chunk_live x t (ground arith) vt) nt apart.1 (ground arith) (omega arith))

-- The empty chunk of a buffer after CBufferPurge: a new one, unless the buffer was empty before.
abbrev pub purged_tail : Cells → Ptr → Ptr → Ptr
purged_tail [] t f = t
purged_tail (c ∷ r) t f = f

-- The store after the chunks `xs` and `t` were freed and the empty chunk `f` was put in their place.
abbrev pub purged : Store → Ptr → List Ptr → Ptr → Ptr → Store
purged h b xs t f = record h {
  chunk_live = λ q. if q == f then true else freed xs t h.chunk_live q;
  chunk_next = update h.chunk_next f null;
  chunk_text = update h.chunk_text f none;
  chunk_len = update h.chunk_len f 0;
  buf_head = update h.buf_head b f;
  buf_tail = update h.buf_tail b f;
}

pub cbuffer_purge-run :
    (lib : Libxml) (fuel : ℕ) (h : Store) (b x : Ptr) (s : Str) (r : Cells) (t f : Ptr)
    → IsBuffer h b ((x, s) ∷ r) t
    → Distinct (x ∷ addresses r)
    → AllocatesChunk lib (freed (x ∷ addresses r) t h.chunk_live) f
    → FreesChunks lib
    → length r + 2 < fuel
    → cbuffer_purge lib fuel b h ≡ done tt (purged h b (x ∷ addresses r) t f)
unfolding cbuffer_purge has_text cbuffer_chunk_new
cbuffer_purge-run lib fuel h b x s r t f good apart gives frees enough =
    let (px, vx, sx, lx, bx, cr) = good.chunks in
    let live = freed (x ∷ addresses r) t h.chunk_live in
    let fresh = valid-of_fresh live f gives.not_null in
    rw
      (
        valid-ne_null h.buf_live b good.live,
        good.live,
        px,
        valid-ne_null h.chunk_live x vx,
        vx,
        sx,
        free_chunks-run lib fuel h x ((x, s) ∷ r) t frees (refl, vx, sx, lx, bx, cr) good.tail_live
            good.tail_next apart good.apart (omega arith),
        gives.result (record h { chunk_live = live }) refl,
        gives.not_null,
        fresh,
        fresh,
        fresh,
        good.live,
        good.live,
      )
      refl

pub purged-IsBuffer :
    (h : Store) (b : Ptr) (xs : List Ptr) (t f : Ptr)
    → valid h.buf_live b ≡ true
    → (f == null) ≡ false
    → IsBuffer (purged h b xs t f) b [] f
purged-IsBuffer h b xs t f vb nf = record {
  live = vb;
  chunks = rw (==_refl b) refl;
  tail = rw (==_refl b) refl;
  tail_live = valid-of_fresh (freed xs t h.chunk_live) f nf;
  tail_text = rw (==_refl f) refl;
  tail_len = rw (==_refl f) refl;
  tail_next = rw (==_refl f) refl;
  apart = refl;
}

freed-other :
    (xs : List Ptr) (t : Ptr) (live : Ptr → Bool) (q : Ptr)
    → mem q (t ∷ xs) ≡ false
    → freed xs t live q ≡ live q
freed-other [] t live q out = ground arith
freed-other (x ∷ r) t live q out =
    let ne : (q == x) ≡ false = ground arith in
    freed-other r t (update live x false) q (ground arith) ∙ rw ne refl

-- The chunks that CBufferPurge frees: all of them, or none if the buffer was empty before.
abbrev pub purged_chunks : Cells → Ptr → List Ptr
purged_chunks [] t = []
purged_chunks (c ∷ r) t = t ∷ addresses (c ∷ r)

-- Of the blocks of chunks, those of `xs` are free except for `f`, and the others are as they were.
abbrev pub AreFree : List Ptr → Ptr → Store → Store → Type 0
AreFree xs f h g =
    ((q : Ptr) → mem q xs ≡ true → (q == f) ≡ false → g.chunk_live q ≡ false)
    × ((q : Ptr) → mem q xs ≡ false → (q == f) ≡ false → g.chunk_live q ≡ h.chunk_live q)

purged-AreFree :
    (h : Store) (b : Ptr) (xs : List Ptr) (t f : Ptr) → AreFree (t ∷ xs) f h (purged h b xs t f)
purged-AreFree h b xs t f = (
  λ q i ne. rw ne (elim (Bool-cases (q == t)) [
    | inl e ↦ rw ((==_iff q t).0 e) (freed-last xs t h.chunk_live)
    | inr o ↦ freed-mem xs t h.chunk_live q (ground arith)
  ]),
  λ q out ne. rw ne (freed-other xs t h.chunk_live q out),
)

-- Let the buffer be well formed, without a chunk twice, let xmlFree take back the chunks and xmlMalloc
-- hand out a block that was not in use, and let the fuel be more than the number of the chunks. Then
-- CBufferPurge returns, and the buffer is well formed and empty. Unless it was empty before, all its chunks
-- are freed, of which xmlMalloc may hand out one again for the new empty chunk; and no other chunk is.
pub cbuffer_purge-IsBuffer :
    (lib : Libxml) (fuel : ℕ) (h : Store) (b : Ptr) (cs : Cells) (t f : Ptr)
    → IsBuffer h b cs t
    → Distinct (addresses cs)
    → AllocatesChunk lib (freed (addresses cs) t h.chunk_live) f
    → FreesChunks lib
    → length cs + 1 < fuel
    → Returns
        (cbuffer_purge lib fuel b h)
        (λ _ g. IsBuffer g b [] (purged_tail cs t f) × AreFree (purged_chunks cs t) f h g)
unfolding cbuffer_purge has_text cbuffer_chunk_new
cbuffer_purge-IsBuffer lib fuel h b [] t f good apart gives frees enough =
    rw
      (
        valid-ne_null h.buf_live b good.live,
        good.live,
        good.chunks,
        valid-ne_null h.chunk_live t good.tail_live,
        good.tail_live,
        good.tail_text,
      )
      (good, (λ q i ne. cc, λ q out ne. refl))
cbuffer_purge-IsBuffer lib fuel h b ((x, s) ∷ r) t f good apart gives frees enough =
    rw (cbuffer_purge-run lib fuel h b x s r t f good apart gives frees (omega arith)) (
      purged-IsBuffer h b (x ∷ addresses r) t f good.live gives.not_null,
      purged-AreFree h b (x ∷ addresses r) t f,
    )

-- CBufferFree gives back every chunk and the buffer.
pub cbuffer_free-run :
    (lib : Libxml) (fuel : ℕ) (h : Store) (b : Ptr) (cs : Cells) (t : Ptr)
    → IsBuffer h b cs t
    → Distinct (addresses cs)
    → FreesChunks lib
    → ((g : Store)
        → lib.free_buffer b g ≡ done tt (record g { buf_live = update g.buf_live b false }))
    → length cs + 1 < fuel
    → cbuffer_free lib fuel b h
      ≡ done tt (record h {
        chunk_live = freed (addresses cs) t h.chunk_live;
        buf_live = update h.buf_live b false;
      })
unfolding cbuffer_free
cbuffer_free-run lib fuel h b cs t good apart frees frees_buffer enough =
    rw
      (
        valid-ne_null h.buf_live b good.live,
        good.live,
        free_chunks-run lib fuel h (h.buf_head b) cs t frees good.chunks good.tail_live
            good.tail_next apart good.apart enough,
        frees_buffer (record h { chunk_live = freed (addresses cs) t h.chunk_live }),
      )
      refl

-- `xmlMalloc` hands out the block `b` for a buffer.
pub record AllocatesBuffer (lib : Libxml) (h : Store) (b : Ptr) : Type 0 where
  pub not_null : (b == null) ≡ false
  pub result :
      lib.malloc_buffer h
      ≡ done b (record h { buf_live = λ q. if q == b then true else h.buf_live q })

-- Let xmlMalloc hand out a block for the buffer, and a block that was not in use for its first chunk. Then
-- CBufferNew returns that buffer, well formed and empty.
pub cbuffer_new-IsBuffer :
    (lib : Libxml) (h : Store) (b f : Ptr)
    → AllocatesBuffer lib h b
    → AllocatesChunk lib h.chunk_live f
    → Returns (cbuffer_new lib h) (λ r g. (r ≡ b) × IsBuffer g b [] f)
unfolding cbuffer_new cbuffer_chunk_new
cbuffer_new-IsBuffer lib h b f room gives =
    let g = record h { buf_live = λ q. if q == b then true else h.buf_live q } in
    let fresh = valid-of_fresh h.chunk_live f gives.not_null in
    let made = valid-of_fresh h.buf_live b room.not_null in
    rw
      (
        room.result,
        room.not_null,
        gives.result g refl,
        gives.not_null,
        fresh,
        fresh,
        fresh,
        made,
        made,
      )
      (
        refl,
        record {
          live = made;
          chunks = rw (==_refl b) refl;
          tail = rw (==_refl b) refl;
          tail_live = fresh;
          tail_text = rw (==_refl f) refl;
          tail_len = rw (==_refl f) refl;
          tail_next = rw (==_refl f) refl;
          apart = refl;
        },
      )
